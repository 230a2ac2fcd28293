-- ===== src/Guardian/Rules.antt =====
-- `find` and `modify`, which together are a write through `iter_mut().find(…)`.
use arona_os.Prelude.{
  ℕ, zero, suc, ◌≡◌, ◌⊎◌, inl, inr, List, [], ◌∷◌, some, arith, nat_eq, Bool-cases, get_elem?,
}
use arona_os.Guardian.{Uuid, GuardianRule}
use arona_os.Guardian.Engine.{find, modify}

module _ (id : Uuid) (f : GuardianRule → GuardianRule) where
  -- A rule stays where it was, or it is the one that was found and written.
  pub get_elem?-modify :
      (rs : List GuardianRule) (i : ℕ) {r : GuardianRule}
      → get_elem? rs i ≡ some r
      → (get_elem? (modify id f rs) i ≡ some r)
        ⊎ ((get_elem? (modify id f rs) i ≡ some (f r)) × (find id rs ≡ some r))
  unfolding find modify
  get_elem?-modify [] i h = cc
  get_elem?-modify (x ∷ rs) zero h = elim (Bool-cases (nat_eq x.id id)) [
    | inl e ↦ inr (ground arith)
    | inr n ↦ inl (ground arith)
  ]
  get_elem?-modify (x ∷ rs) (suc i) h = elim (Bool-cases (nat_eq x.id id)) [
    | inl e ↦ inl (rw e h)
    | inr n ↦ rw n (get_elem?-modify rs i h)
  ]

  module _ (keeps_id : (r : GuardianRule) → (f r).id ≡ r.id) where
    pub find-modify_self :
        (rs : List GuardianRule) {r : GuardianRule}
        → find id rs ≡ some r
        → find id (modify id f rs) ≡ some (f r)
    unfolding find modify
    find-modify_self [] h = cc
    find-modify_self (x ∷ rs) h = elim (Bool-cases (nat_eq x.id id)) [
      | inl e ↦ ground (arith, keeps_id x)
      | inr n ↦ rw n (rw n (find-modify_self rs (rw n at h)))
    ]
