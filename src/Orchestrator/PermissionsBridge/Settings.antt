-- ===== src/Orchestrator/PermissionsBridge/Settings.antt =====
-- The words `key=value` that the map of `parse_capability` in
-- arona_agy/arona_orchestrator/src/permissions_bridge.rs holds.
use arona_os.Prelude.{
  ℕ, ◌≡◌, ◌≢◌, refl, sym, ap, ◌∙◌, inl, inr, Text, text_eq_iff, nat_eq, true, false, List, [], ◌∷◌,
  ◌++◌, filter_map, filter_map-none, filter_map-some, none, some, Option-cases, Bool-cases, All,
  arith,
}
use arona_os.Strings.{last_value, split_once}

abbrev setting : Text → Text → Text
setting key value = key ++ (b'=' ∷ value)

-- `key=value` is a word, and the last one that sets the key.
pub record Sets (key value : Text) (words : List Text) : Type 0 where
  pub before : List Text
  pub after : List Text
  pub here : words ≡ before ++ (setting key value ∷ after)
  pub last : All (λ word. (other : Text) → word ≢ setting key other) after

-- The key has none of the delimiter.
abbrev pub IsPlain : ℕ → Text → Type 0
IsPlain d key = All (λ c. nat_eq c d ≡ false) key

split_once-eq-some : (d : ℕ) (s a b : Text) → split_once d s ≡ some (a, b) → s ≡ a ++ (d ∷ b)
unfolding split_once
split_once-eq-some d [] a b e = absurd (cc)
split_once-eq-some d (c ∷ cs) a b e = elim (Bool-cases (nat_eq c d)) [
  | inl same ↦
      let first : split_once d (c ∷ cs) ≡ some ([], cs) = rw (same, split_once) refl in
      let q = sym first ∙ e in let is : c ≡ d = ground (arith, same) in cc (is, q)
  | inr other ↦ elim (Option-cases (split_once d cs)) [
    | inl missing ↦
        let nothing : split_once d (c ∷ cs) ≡ none = rw (other, split_once) (rw missing refl) in
        absurd (cc (nothing, e))
    | inr ((x, y), found) ↦
        let later : split_once d (c ∷ cs) ≡ some (c ∷ x, y) =
          rw (other, split_once) (rw found refl) in
        let q = sym later ∙ e in let behind = split_once-eq-some d cs x y found in cc (q, behind)
  ]
]

split_once-setting :
    (d : ℕ) (key value : Text)
    → IsPlain d key
    → split_once d (key ++ (d ∷ value)) ≡ some (key, value)
unfolding split_once
split_once-setting d [] value plain =
    let same : nat_eq d d ≡ true = ground arith in rw (same, split_once) refl
split_once-setting d (c ∷ cs) value plain =
    rw (plain.0, split_once) (rw (split_once-setting d cs value plain.1) refl)

-- No word sets a key of which the map has no value.
last_value-absent :
    (key : Text) (words : List Text)
    → IsPlain b'=' key
    → last_value key (filter_map (split_once b'=') words) ≡ none
    → All (λ word. (other : Text) → word ≢ setting key other) words
unfolding last_value
last_value-absent key [] plain absent = tt
last_value-absent key (word ∷ words) plain absent = elim (Option-cases (split_once b'=' word)) [
  | inl no_setting ↦
      let rest : last_value key (filter_map (split_once b'=') words) ≡ none =
        ap (last_value key) (sym (filter_map-none (split_once b'=') word words no_setting))
        ∙ absent in
      (
        λ other e. absurd (
            cc
              (sym (ap (split_once b'=') e) ∙ no_setting, split_once-setting b'=' key other plain)),
        last_value-absent key words plain rest,
      )
  | inr ((j, v), is_setting) ↦
      let here : last_value key ((j, v) ∷ filter_map (split_once b'=') words) ≡ none =
        ap (last_value key) (sym (filter_map-some (split_once b'=') word words (j, v) is_setting))
        ∙ absent in
      elim (Option-cases (last_value key (filter_map (split_once b'=') words))) [
        | inl none_later ↦ (
          λ other e.
              let q = sym (ap (split_once b'=') e) ∙ is_setting in
              let p = sym (split_once-setting b'=' key other plain) ∙ q in
              let same : key ≡ j = cc p in
              absurd (ground (arith, none_later, here, text_eq_iff j key, same)),
          last_value-absent key words plain none_later,
        )
        | inr (w, later) ↦ absurd (ground (arith, later, here))
      ]
]

Sets-cons :
    (key value word : Text) (words : List Text)
    → Sets key value words
    → Sets key value (word ∷ words)
Sets-cons key value word words s = record {
  before = word ∷ s.before;
  after = s.after;
  here = ap (λ l. word ∷ l) s.here;
  last = s.last;
}

pub last_value-Sets :
    (key value : Text) (words : List Text)
    → IsPlain b'=' key
    → last_value key (filter_map (split_once b'=') words) ≡ some value
    → Sets key value words
unfolding last_value
last_value-Sets key value [] plain e = absurd (cc)
last_value-Sets key value (word ∷ words) plain e = elim (Option-cases (split_once b'=' word)) [
  | inl no_setting ↦
      let rest : last_value key (filter_map (split_once b'=') words) ≡ some value =
        ap (last_value key) (sym (filter_map-none (split_once b'=') word words no_setting)) ∙ e in
      Sets-cons key value word words (last_value-Sets key value words plain rest)
  | inr ((j, v), is_setting) ↦
      let here : last_value key ((j, v) ∷ filter_map (split_once b'=') words) ≡ some value =
        ap (last_value key) (sym (filter_map-some (split_once b'=') word words (j, v) is_setting))
        ∙ e in
      elim (Option-cases (last_value key (filter_map (split_once b'=') words))) [
        | inl none_later ↦
            let same : (j ≡ key) × (v ≡ value) =
              ground (arith, none_later, here, text_eq_iff j key) in
            let is : word ≡ setting j v = split_once-eq-some b'=' word j v is_setting in
            record {
              before = [];
              after = words;
              here = ap (λ w. w ∷ words) (cc (is, same.0, same.1));
              last = last_value-absent key words plain none_later;
            }
        | inr (w, later) ↦
            let same : w ≡ value = ground (arith, later, here) in
            Sets-cons key value word words
              (last_value-Sets key value words plain (later ∙ ap some same))
      ]
]
