-- ===== src/Cognition/Candle/Vocabulary.antt =====
-- What `first_u32` and `known_ids` of arona_agy/arona_cognition/src/candle_backend.rs find.
use mathlib.Core.List.{Memᴰ}
use arona_os.Prelude.{
  ℕ, ◌≡◌, refl, sym, ap, ◌∙◌, inl, inr, Text, List, [], ◌∷◌, Option, some, All, Option-cases,
}
use arona_os.Cognition.Candle.{first_u32, known_ids}

-- A key of the list whose value is that number.
pub record Named {V : Type 0} (metadata : Text → Option V) (to_u32 : V → Option ℕ) (n : ℕ)
    (keys : List Text) : Type 0 where
  pub key : Text
  pub listed : Memᴰ key keys
  pub value : V
  pub has : metadata key ≡ some value
  pub number : to_u32 value ≡ some n

pub first_u32-Named :
    {V : Type 0} (metadata : Text → Option V) (to_u32 : V → Option ℕ) (n : ℕ) (keys : List Text)
    → first_u32 metadata to_u32 keys ≡ some n
    → Named metadata to_u32 n keys
unfolding first_u32
first_u32-Named metadata to_u32 n [] h = absurd (cc h)
first_u32-Named metadata to_u32 n (key ∷ keys) h = elim (Option-cases (metadata key)) [
  | inl missing ↦
      further (first_u32-Named metadata to_u32 n keys (sym (rw (missing, first_u32) refl) ∙ h))
  | inr (value, there) ↦ elim (Option-cases (to_u32 value)) [
    | inl other ↦
        further (
          first_u32-Named metadata to_u32 n keys
            (sym (rw (there, first_u32) (rw (other) refl)) ∙ h))
    | inr (m, is) ↦ record {
      key = key;
      listed = Memᴰ.head refl;
      value = value;
      has = there;
      number = is ∙ (sym (rw (there, first_u32) (rw (is) refl)) ∙ h);
    }
  ]
]
  where
    further : Named metadata to_u32 n keys → Named metadata to_u32 n (key ∷ keys)
    further r = record {
      key = r.key;
      listed = Memᴰ.tail r.listed;
      value = r.value;
      has = r.has;
      number = r.number;
    }

-- The id of a token of the list.
abbrev pub IsIdOf : (Text → Option ℕ) → List Text → ℕ → Type 0
IsIdOf token_to_id names id = (name : Text) × Memᴰ name names × (token_to_id name ≡ some id)

All-tail :
    (token_to_id : Text → Option ℕ) (name : Text) (names : List Text) (ids : List ℕ)
    → All (IsIdOf token_to_id names) ids
    → All (IsIdOf token_to_id (name ∷ names)) ids
All-tail token_to_id name names [] h = tt
All-tail token_to_id name names (id ∷ ids) h =
    let (n, m, e) = h.0 in ((n, Memᴰ.tail m, e), All-tail token_to_id name names ids h.1)

pub known_ids-IsIdOf :
    (token_to_id : Text → Option ℕ) (names : List Text)
    → All (IsIdOf token_to_id names) (known_ids token_to_id names)
unfolding known_ids
known_ids-IsIdOf token_to_id [] = tt
known_ids-IsIdOf token_to_id (name ∷ names) =
    let rest =
      All-tail token_to_id name names (known_ids token_to_id names)
        (known_ids-IsIdOf token_to_id names) in
    elim (Option-cases (token_to_id name)) [
      | inl missing ↦ rw (missing, known_ids) rest
      | inr (id, there) ↦ rw (there, known_ids) ((name, Memᴰ.head refl, there), rest)
    ]

pub known_ids-complete :
    (token_to_id : Text → Option ℕ) (names : List Text) (name : Text) (id : ℕ)
    → Memᴰ name names
    → token_to_id name ≡ some id
    → Memᴰ id (known_ids token_to_id names)
unfolding known_ids
known_ids-complete token_to_id [] name id m known = elim m [ ]
known_ids-complete token_to_id (x ∷ names) name id (Memᴰ.head e) known =
    let there : token_to_id x ≡ some id = ap token_to_id (sym e) ∙ known in
    rw (there, known_ids) (Memᴰ.head refl)
known_ids-complete token_to_id (x ∷ names) name id (Memᴰ.tail m) known =
    let rest = known_ids-complete token_to_id names name id m known in
    elim (Option-cases (token_to_id x)) [
      | inl missing ↦ rw (missing, known_ids) rest
      | inr (other, there) ↦ rw (there, known_ids) (Memᴰ.tail rest)
    ]
