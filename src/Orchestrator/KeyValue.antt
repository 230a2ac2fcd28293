-- ===== src/Orchestrator/KeyValue.antt =====
-- `parse_key_value_lines` of arona_agy/arona_orchestrator/src/guardian_bridge.rs, and the error
-- type that the three bridges declare alike.
use mathlib.Core.List.{Memᴰ}
use arona_os.Prelude.{
  ℕ, Text, codes, text_eq_iff, Bool, ◌||◌, List, [], ◌∷◌, map, Option-cases, some, inl, inr, ◌≡◌,
  arith, contains, nat_partial_eq, filter_map, filter_map→Memᴰ, map→Memᴰ, ap, sym,
}
use arona_os.Strings.{Platform, is_whitespace, trim_matches, split_once, lines, last_value}
use arona_os.Cognition.{CognitionError}

pub data BridgeError : Type 0 where
  cognition : CognitionError → BridgeError
  parse_failed : Text → BridgeError

-- `c.is_whitespace() || "*#-_".contains(c)`
unfoldable pub is_decoration : ℕ → Bool
unfolding is_whitespace
is_decoration c = is_whitespace c || contains (codes "*#-_") c

unfoldable pub trim_deco : Text → Text
unfolding trim_matches is_decoration
trim_deco s = trim_matches is_decoration s

unfoldable pub parse_key_value_lines : Platform → Text → List (Text × Text)
unfolding lines split_once trim_deco
parse_key_value_lines p text =
    map (λ (kv : Text × Text). (p.to_uppercase (trim_deco kv.0), trim_deco kv.1))
      (filter_map (split_once b':') (lines text))

-- The text has a line that reads `key: value`, up to decoration and the case of the key.
pub record Says (p : Platform) (text key value : Text) : Type 0 where
  pub line : Text
  pub raw_key : Text
  pub raw_value : Text
  pub in_text : Memᴰ line (lines text)
  pub at_colon : split_once b':' line ≡ some (raw_key, raw_value)
  pub key_reads : p.to_uppercase (trim_deco raw_key) ≡ key
  pub value_reads : trim_deco raw_value ≡ value

last_value→Memᴰ :
    (k v : Text) (pairs : List (Text × Text)) → last_value k pairs ≡ some v → Memᴰ (k, v) pairs
unfolding last_value
last_value→Memᴰ k v [] e = absurd (cc)
last_value→Memᴰ k v ((j, w) ∷ rest) e = elim (Option-cases (last_value k rest)) [
  | inl none_later ↦ Memᴰ.head (ground (arith, none_later, e, text_eq_iff j k))
  | inr (w', later) ↦ Memᴰ.tail (last_value→Memᴰ k v rest (ground (arith, later, e)))
]

-- What is read under a key is said in the text.
pub last_value-Says :
    (p : Platform) (text key value : Text)
    → last_value key (parse_key_value_lines p text) ≡ some value
    → Says p text key value
unfolding parse_key_value_lines
last_value-Says p text key value e =
    let ((k, v), in_pairs, read) = map→Memᴰ _ _ _ (last_value→Memᴰ key value _ e) in
    let (l, at, split) = filter_map→Memᴰ (split_once b':') (k, v) (lines text) in_pairs in
    record {
      line = l;
      raw_key = k;
      raw_value = v;
      in_text = at;
      at_colon = split;
      key_reads = ap (λ (kv : Text × Text). kv.0) (sym read);
      value_reads = ap (λ (kv : Text × Text). kv.1) (sym read);
    }
