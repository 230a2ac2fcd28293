-- ===== src/Prelude/Search.antt =====
-- `str::contains` on text, and searches in text.
use mathlib.Core.Path.{◌≡◌, refl, ap}
use mathlib.Core.Bool.{Bool, true, false, ◌&&◌, ◌||◌}
use mathlib.Core.List.{[], ◌∷◌, ◌++◌}
use native.Mathlib.Omega.{arith}
use arona_os.Prelude.Tests.{nat_eq, nat_eq_iff, &&-eq-true, ||-eq-true}
use arona_os.Prelude.Equality.{Text}
use mathlib.Core.Logic.{inl, inr}

pub starts_with : Text → Text → Bool
starts_with s [] = true
starts_with [] (b ∷ bs) = false
starts_with (a ∷ s) (b ∷ bs) = nat_eq a b && starts_with s bs

-- `haystack.contains(needle)`.
unfoldable pub contains_text : Text → Text → Bool
unfolding starts_with
contains_text [] needle = starts_with [] needle
contains_text (a ∷ s) needle = starts_with (a ∷ s) needle || contains_text s needle

-- `needle` stands somewhere in `s`.
abbrev pub Occurs : Text → Text → Type 0
Occurs needle s = (before : Text) × (after : Text) × (s ≡ before ++ (needle ++ after))

starts_with→append :
    (s needle : Text) → starts_with s needle ≡ true → (after : Text) × (s ≡ needle ++ after)
unfolding starts_with
starts_with→append s [] h = (s, refl)
starts_with→append [] (b ∷ bs) h = cc
starts_with→append (a ∷ s) (b ∷ bs) h =
    let (same, more) = &&-eq-true (nat_eq a b) (starts_with s bs) h in
    let (after, e) = starts_with→append s bs more in (after, cc ((nat_eq_iff a b).0 same, e))

starts_with-append : (needle after : Text) → starts_with (needle ++ after) needle ≡ true
unfolding starts_with
starts_with-append [] after = refl
starts_with-append (b ∷ bs) after = ground (arith, starts_with-append bs after)

-- What the search finds does occur.
pub contains_text→Occurs : (s needle : Text) → contains_text s needle ≡ true → Occurs needle s
unfolding contains_text
contains_text→Occurs [] needle h = let (after, e) = starts_with→append [] needle h in ([], after, e)
contains_text→Occurs (a ∷ s) needle h =
    elim (||-eq-true (starts_with (a ∷ s) needle) (contains_text s needle) h) [
      | inl here ↦ let (after, e) = starts_with→append (a ∷ s) needle here in ([], after, e)
      | inr later ↦
          let (before, after, e) = contains_text→Occurs s needle later in
          (a ∷ before, after, ap (λ (t : Text). a ∷ t) e)
    ]

contains_text-append :
    (before needle after : Text) → contains_text (before ++ (needle ++ after)) needle ≡ true
unfolding contains_text
contains_text-append [] [] [] = refl
contains_text-append [] [] (a ∷ after) = refl
contains_text-append [] (b ∷ bs) after = ground (arith, starts_with-append (b ∷ bs) after)
contains_text-append (a ∷ before) needle after =
    ground (arith, contains_text-append before needle after)

-- What occurs is found.
pub Occurs→contains_text : (s needle : Text) → Occurs needle s → contains_text s needle ≡ true
Occurs→contains_text s needle (before, after, e) = rw e (contains_text-append before needle after)
