-- ===== src/Orchestrator/CatalogBridge.antt =====
-- arona_agy/arona_orchestrator/src/catalog_bridge.rs: a template of the catalog, or a proposal.
use arona_os.Prelude.{
  ℕ, zero, suc, ◌+◌, ◌≤◌, ◌≡◌, ◌⊎◌, inl, inr, Text, codes, text_partial_eq, Bool, true, false, ◌&&◌,
  ◌||◌, List, [], ◌∷◌, ◌++◌, Option, none, some, Result, ok, ◌>>=◌, leb, arith, if◌then◌else◌,
  contains, length, All, All-append, Option-cases, Bool-cases,
}
use arona_os.Strings.{Platform}
use arona_os.Cognition.{CognitionBackend}
use arona_os.Guardian.{Uuid, DateTime}
use arona_os.Permissions.{PermissionTemplate}
use arona_os.Orchestrator.KeyValue.{BridgeError}
use arona_os.Orchestrator.PermissionsBridge.{propose_template}

pub data TemplateResolution : Type 0 where
  existing : ℕ → TemplateResolution
  proposed : PermissionTemplate → TemplateResolution

unfoldable pub is_ascii_alphanumeric : ℕ → Bool
is_ascii_alphanumeric c =
    (leb b'0' c && leb c b'9') || ((leb b'A' c && leb c b'Z') || (leb b'a' c && leb c b'z'))

unfoldable pub to_ascii_lowercase : ℕ → ℕ
to_ascii_lowercase c = if leb b'A' c && leb c b'Z' then c + 32 else c

-- The loop over the characters, with `current` as it was pushed.
unfoldable pub keywords_from : Text → Text → List Text
unfolding is_ascii_alphanumeric to_ascii_lowercase
keywords_from current [] = if leb 3 (length current) then current ∷ [] else []
keywords_from current (c ∷ cs) =
    let longer = keywords_from (current ++ to_ascii_lowercase c ∷ []) cs in
    let fresh = keywords_from [] cs in
    if is_ascii_alphanumeric c
    then longer
    else if leb 3 (length current)
    then current ∷ fresh
    else fresh

unfoldable pub extract_ascii_keywords : Text → List Text
unfolding keywords_from
extract_ascii_keywords text = keywords_from [] text

-- `purpose_keywords.iter().any(|k| template_keywords.contains(k))`
abbrev pub any_contained : List Text → List Text → Bool
any_contained [] ys = false
any_contained (x ∷ xs) ys = contains ys x || any_contained xs ys

unfoldable pub keyword_match : Text → PermissionTemplate → Bool
keyword_match purpose template =
    let purpose_keywords = extract_ascii_keywords purpose in
    let template_text = template.name ++ (codes " " ++ template.description) in
    elim purpose_keywords [
      | [] ↦ false
      | k ∷ ks ↦ any_contained (k ∷ ks) (extract_ascii_keywords template_text)
    ]

-- `iter().position(…)`
unfoldable pub position : (PermissionTemplate → Bool) → List PermissionTemplate → Option ℕ
position p [] = none
position p (t ∷ ts) =
    let later = position p ts in
    if p t then some 0 else elim later [ none ↦ none | some i ↦ some (suc i) ]

module _ {S : Type 0} (p : Platform) (backend : CognitionBackend S) where
  unfoldable pub resolve_or_propose :
      Uuid
      → DateTime
      → List PermissionTemplate
      → Text
      → S
      → S × Result TemplateResolution BridgeError
  resolve_or_propose id now catalog purpose s = elim (position (keyword_match purpose) catalog) [
    | some index ↦ (s, ok (existing index))
    | none ↦
        let (s', template) = propose_template p backend id now purpose s in
        (s', template >>= λ t. ok (proposed t))
  ]

-- Lower-case letters and digits.
abbrev pub is_keyword_char : ℕ → Bool
is_keyword_char c = (leb b'0' c && leb c b'9') || (leb b'a' c && leb c b'z')

abbrev pub IsKeyword : Text → Type 0
IsKeyword k = (3 ≤ length k) × All (λ c. is_keyword_char c ≡ true) k

lowercase : (c : ℕ) → is_ascii_alphanumeric c ≡ true → is_keyword_char (to_ascii_lowercase c) ≡ true
unfolding is_ascii_alphanumeric to_ascii_lowercase
lowercase c h = ground arith

keywords_from-IsKeyword :
    (text current : Text)
    → All (λ c. is_keyword_char c ≡ true) current
    → All IsKeyword (keywords_from current text)
unfolding keywords_from
keywords_from-IsKeyword [] current h = elim (Bool-cases (leb 3 (length current))) [
  | inl long ↦ rw long ((ground arith, h), tt)
  | inr short ↦ rw short tt
]
keywords_from-IsKeyword (c ∷ cs) current h = elim (Bool-cases (is_ascii_alphanumeric c)) [
  | inl letter ↦ rw letter (
      keywords_from-IsKeyword cs (current ++ to_ascii_lowercase c ∷ []) (
        All-append (λ d. is_keyword_char d ≡ true) current (to_ascii_lowercase c ∷ []) h
          (lowercase c letter, tt)))
  | inr other ↦ rw other (elim (Bool-cases (leb 3 (length current))) [
    | inl long ↦ rw long ((ground arith, h), keywords_from-IsKeyword cs [] tt)
    | inr short ↦ rw short (keywords_from-IsKeyword cs [] tt)
  ])
]

-- Every keyword is at least three characters long, all of them digits or lower-case letters.
pub extract_ascii_keywords-IsKeyword : (text : Text) → All IsKeyword (extract_ascii_keywords text)
unfolding extract_ascii_keywords
extract_ascii_keywords-IsKeyword text = keywords_from-IsKeyword text [] tt

-- The template at `i` satisfies the test, and none before it does.
abbrev pub IsFirst : (PermissionTemplate → Bool) → ℕ → List PermissionTemplate → Type 0
IsFirst test i [] = ⊥
IsFirst test zero (t ∷ ts) = test t ≡ true
IsFirst test (suc i) (t ∷ ts) = (test t ≡ false) × IsFirst test i ts

position-IsFirst :
    (test : PermissionTemplate → Bool) (ts : List PermissionTemplate) (i : ℕ)
    → position test ts ≡ some i
    → IsFirst test i ts
unfolding position
position-IsFirst test [] i e = absurd (cc)
position-IsFirst test (t ∷ ts) zero e = ground arith
position-IsFirst test (t ∷ ts) (suc i) e = (ground arith, position-IsFirst test ts i (ground arith))

position-none :
    (test : PermissionTemplate → Bool) (ts : List PermissionTemplate)
    → position test ts ≡ none
    → All (λ t. test t ≡ false) ts
unfolding position
position-none test [] e = tt
position-none test (t ∷ ts) e = (ground arith, position-none test ts (ground arith))

-- The answer is the first template of the catalog that shares a keyword with the purpose, without
-- asking the model; or no template does, and the model's proposal or error is passed on.
pub resolve_or_propose-outcomes :
    {S : Type 0} (p : Platform) (backend : CognitionBackend S) (id : Uuid) (now : DateTime)
    (catalog : List PermissionTemplate) (purpose : Text) (s : S)
    → ((i : ℕ) × (resolve_or_propose p backend id now catalog purpose s ≡ (s, ok (existing i)))
        × IsFirst (keyword_match purpose) i catalog)
      ⊎ (All (λ t. keyword_match purpose t ≡ false) catalog
          × (resolve_or_propose p backend id now catalog purpose s ≡ (
            (propose_template p backend id now purpose s).0,
            (propose_template p backend id now purpose s).1 >>= λ t. ok (proposed t),
          )))
unfolding resolve_or_propose
resolve_or_propose-outcomes p backend id now catalog purpose s =
    elim (Option-cases (position (keyword_match purpose) catalog)) [
      | inl missing ↦
          inr (
            position-none (keyword_match purpose) catalog missing,
            rw (missing, resolve_or_propose),
          )
      | inr (i, found) ↦ inl (
        i,
        rw (found, resolve_or_propose),
        position-IsFirst (keyword_match purpose) catalog i found,
      )
    ]
