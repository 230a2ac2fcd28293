-- ===== src/Prelude/Lists.antt =====
-- Lists measured and indexed by native numbers, and a predicate on all elements.
use Prim.Native.Nat.{ℕ, zero, suc, ◌+◌, ◌-◌, ◌≤◌}
use mathlib.Core.Path.{◌≡◌, refl, ap, sym, subst, ◌∙◌}
use mathlib.Core.Bool.{Bool, true, false}
use mathlib.Core.List.{List, [], ◌∷◌, ◌++◌, Memᴰ, map}
use mathlib.Core.Logic.{◌⊎◌, inl, inr}
use mathlib.Core.Option.{Option, none, some}
use native.Mathlib.Omega.{arith}
use arona_os.Prelude.Tests.{if◌then◌else◌, Option-cases}

module _ {ℓ} {A : Type ℓ} where
  abbrev pub length : List A → ℕ
  length [] = 0
  length (x ∷ xs) = suc (length xs)

  abbrev pub get_elem? : List A → ℕ → Option A
  get_elem? [] i = none
  get_elem? (x ∷ xs) zero = some x
  get_elem? (x ∷ xs) (suc i) = get_elem? xs i

  abbrev pub take : ℕ → List A → List A
  take zero xs = []
  take (suc n) [] = []
  take (suc n) (x ∷ xs) = x ∷ take n xs

  abbrev pub drop : ℕ → List A → List A
  drop zero xs = xs
  drop (suc n) [] = []
  drop (suc n) (x ∷ xs) = drop n xs

  pub take-append-drop : (n : ℕ) (xs : List A) → take n xs ++ drop n xs ≡ xs
  take-append-drop zero xs = refl
  take-append-drop (suc n) [] = refl
  take-append-drop (suc n) (x ∷ xs) = ap (λ ys. x ∷ ys) (take-append-drop n xs)

  pub length-drop : (n : ℕ) (xs : List A) → length (drop n xs) ≡ length xs - n
  length-drop zero xs = omega arith
  length-drop (suc n) [] = omega arith
  length-drop (suc n) (x ∷ xs) = omega (arith, length-drop n xs)

  pub length-take : (n : ℕ) (xs : List A) → n ≤ length xs → length (take n xs) ≡ n
  length-take zero xs h = refl
  length-take (suc n) [] h = absurd (omega (arith, h))
  length-take (suc n) (x ∷ xs) h = ap suc (length-take n xs (omega (arith, h)))

  pub take_all : (n : ℕ) (xs : List A) → length xs ≤ n → take n xs ≡ xs
  take_all zero [] h = refl
  take_all zero (x ∷ xs) h = absurd (omega (arith, h))
  take_all (suc n) [] h = refl
  take_all (suc n) (x ∷ xs) h = ap (λ ys. x ∷ ys) (take_all n xs (omega (arith, h)))

  -- `Iterator::filter` with a Boolean test.
  abbrev pub keep : (A → Bool) → List A → List A
  keep p [] = []
  keep p (x ∷ xs) = if p x then x ∷ keep p xs else keep p xs

  pub keep_on : (p : A → Bool) (x : A) (xs : List A) → p x ≡ true → keep p (x ∷ xs) ≡ x ∷ keep p xs
  keep_on p x xs h = rw h refl

  pub keep_off : (p : A → Bool) (x : A) (xs : List A) → p x ≡ false → keep p (x ∷ xs) ≡ keep p xs
  keep_off p x xs h = rw h refl

  -- `Iterator::filter_map`.
  abbrev pub filter_map {κ} : {B : Type κ} → (A → Option B) → List A → List B
  filter_map f [] = []
  filter_map f (x ∷ xs) =
      let rest = filter_map f xs in elim (f x) [ none ↦ rest | some b ↦ b ∷ rest ]

  abbrev pub All {κ} : (A → Type κ) → List A → Type κ
  All P [] = Unit
  All P (x ∷ xs) = P x × All P xs

  pub length-append : (xs ys : List A) → length (xs ++ ys) ≡ length xs + length ys
  length-append [] ys = omega arith
  length-append (x ∷ xs) ys = omega (arith, length-append xs ys)

  pub get_elem?-append_left :
      (xs ys : List A) (i : ℕ) {a : A} → get_elem? xs i ≡ some a → get_elem? (xs ++ ys) i ≡ some a
  get_elem?-append_left [] ys i h = cc
  get_elem?-append_left (x ∷ xs) ys zero h = h
  get_elem?-append_left (x ∷ xs) ys (suc i) h = get_elem?-append_left xs ys i h

  pub All-append {κ} : (P : A → Type κ) (xs ys : List A) → All P xs → All P ys → All P (xs ++ ys)
  All-append P [] ys h k = k
  All-append P (x ∷ xs) ys h k = (h.0, All-append P xs ys h.1 k)

  pub keep-append : (p : A → Bool) (xs ys : List A) → keep p (xs ++ ys) ≡ keep p xs ++ keep p ys
  keep-append p [] ys = refl
  keep-append p (x ∷ xs) ys = ground (arith, keep-append p xs ys)

  pub filter_map-append {κ} :
      {B : Type κ} (f : A → Option B) (xs ys : List A)
      → filter_map f (xs ++ ys) ≡ filter_map f xs ++ filter_map f ys
  filter_map-append f [] ys = refl
  filter_map-append f (x ∷ xs) ys = ground (arith, filter_map-append f xs ys)

  pub Memᴰ-cons : (a x : A) (xs : List A) → Memᴰ a (x ∷ xs) → (a ≡ x) ⊎ Memᴰ a xs
  Memᴰ-cons a x xs (Memᴰ.head e) = inl e
  Memᴰ-cons a x xs (Memᴰ.tail m) = inr m

module _ {ℓ κ} {A : Type ℓ} {B : Type κ} where
  pub filter_map-none :
      (f : A → Option B) (x : A) (xs : List A)
      → f x ≡ none
      → filter_map f (x ∷ xs) ≡ filter_map f xs
  filter_map-none f x xs e = ground (arith, e)

  pub filter_map-some :
      (f : A → Option B) (x : A) (xs : List A) (b : B)
      → f x ≡ some b
      → filter_map f (x ∷ xs) ≡ b ∷ filter_map f xs
  filter_map-some f x xs b e = ground (arith, e)

  -- What `filter_map` keeps comes from an element.
  pub filter_map→Memᴰ :
      (f : A → Option B) (b : B) (xs : List A)
      → Memᴰ b (filter_map f xs)
      → (a : A) × Memᴰ a xs × (f a ≡ some b)
  filter_map→Memᴰ f b [] m = elim m [ ]
  filter_map→Memᴰ f b (x ∷ xs) m = elim (Option-cases (f x)) [
    | inl quiet ↦
        let (a, at, e) =
          filter_map→Memᴰ f b xs (subst (λ l. Memᴰ b l) (filter_map-none f x xs quiet) m) in
        (a, Memᴰ.tail at, e)
    | inr (b', found) ↦
        elim (Memᴰ-cons b b' (filter_map f xs)
          (subst (λ l. Memᴰ b l) (filter_map-some f x xs b' found) m)) [
            | inl here ↦ (x, Memᴰ.head refl, found ∙ ap some (sym here))
            | inr later ↦ let (a, at, e) = filter_map→Memᴰ f b xs later in (a, Memᴰ.tail at, e)
          ]
  ]

  pub map→Memᴰ :
      (f : A → B) (b : B) (xs : List A) → Memᴰ b (map f xs) → (a : A) × Memᴰ a xs × (b ≡ f a)
  map→Memᴰ f b [] m = elim m [ ]
  map→Memᴰ f b (x ∷ xs) (Memᴰ.head e) = (x, Memᴰ.head refl, e)
  map→Memᴰ f b (x ∷ xs) (Memᴰ.tail m) = let (a, at, e) = map→Memᴰ f b xs m in (a, Memᴰ.tail at, e)

module _ {ℓ κ} {A : Type ℓ} (P : A → Type κ) where
  pub All-of-Memᴰ : (xs : List A) → ((a : A) → Memᴰ a xs → P a) → All P xs
  All-of-Memᴰ [] h = tt
  All-of-Memᴰ (x ∷ xs) h = (h x (Memᴰ.head refl), All-of-Memᴰ xs (λ a m. h a (Memᴰ.tail m)))
