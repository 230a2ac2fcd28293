-- ===== src/Prelude/Actions.antt =====
-- Operations that change a state and may fail, the database's and the disk's. They share the name
-- of the bind of results, so the module is used by itself.
use mathlib.Core.Path.{◌≡◌, refl, ap, ◌∙◌}
use mathlib.Core.Logic.{inl, inr}
use native.Mathlib.Omega.{arith}
use arona_os.Prelude.Results.{Result, ok, err, Result-cases}

-- Actions on a state that may fail; what was changed before a failure stays changed.
abbrev pub Action : Type 0 → Type 0 → Type 0 → Type 0
Action D X A = D → D × Result A X

infixl 5 ◌>>=◌
unfoldable pub ◌>>=◌ : {D X A B : Type 0} → Action D X A → (A → Action D X B) → Action D X B
◌>>=◌ m f d = let (d', r) = m d in elim r [ ok a ↦ f a d' | err x ↦ (d', err x) ]

abbrev pub lift : {D X A : Type 0} → Result A X → Action D X A
lift r d = (d, r)

-- A bind that succeeds has two steps that succeed.
pub bind-eq-ok :
    {D X A B : Type 0} (m : Action D X A) (f : A → Action D X B) (d d' : D) (b : B)
    → (m >>= f) d ≡ (d', ok b)
    → (d₁ : D) × (a : A) × (m d ≡ (d₁, ok a)) × (f a d₁ ≡ (d', ok b))
unfolding ◌>>=◌
bind-eq-ok m f d d' b h = elim (Result-cases (m d).1) [
  | inl (a, first) ↦ ((m d).0, a, ap (λ r. ((m d).0, r)) first, (rw (first, ◌>>=◌) refl) ∙ h)
  | inr (e, failed) ↦ absurd (ground (arith, failed, h))
]

-- After a step that succeeds, the next one is taken.
pub bind_ok :
    {D X A B : Type 0} (m : Action D X A) (f : A → Action D X B) (d d₁ : D) (a : A)
    → m d ≡ (d₁, ok a)
    → (m >>= f) d ≡ f a d₁
unfolding ◌>>=◌
bind_ok {D = D} {X = X} {B = B} m f d d₁ a h =
    ap (λ r. elim r.1 as (λ _. D × Result B X) [ ok a ↦ f a r.0 | err x ↦ (r.0, err x) ]) h
