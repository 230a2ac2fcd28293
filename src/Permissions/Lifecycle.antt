-- ===== src/Permissions/Lifecycle.antt =====
-- What any sequence of operations may do to a grant.
use arona_os.Prelude.{
  ◌-◌, ◌≡◌, refl, sym, subst, ◌⊎◌, inl, inr, Bool, true, false, ◌&&◌, not, List, [], ◌∷◌, ◌++◌, ok,
  err, arith, ltb, Bool-cases, contains, contains_self, All, All-append, IsUnique, IsUnique-append,
  if◌then◌else◌,
}
use arona_os.Guardian.{DateTime}
use arona_os.Permissions.{Capability, capability_partial_eq, PermissionTemplate}
use arona_os.Permissions.Grant.{
  PurposeGrant, GrantStatus, active, dormant, revoked, dormancy_threshold, not_in_template, touch,
  push_new, expand, check_dormancy, revoke_with_user_approval,
}

-- The calls on one grant, each with the time at which it is made.
pub data GrantOp : Type 0 where
  use_it : DateTime → GrantOp
  expand_by : DateTime → Capability → GrantOp
  look : DateTime → GrantOp
  approve_revocation : GrantOp

module _ (template : PermissionTemplate) where
  unfoldable pub apply : GrantOp → PurposeGrant → PurposeGrant
  apply (use_it now) grant = touch now grant
  apply (expand_by now capability) grant = (expand now template capability grant).0
  apply (look now) grant = (check_dormancy now grant).0
  apply approve_revocation grant = revoke_with_user_approval grant

  unfoldable pub run : List GrantOp → PurposeGrant → PurposeGrant
  run [] grant = grant
  run (op ∷ ops) grant = run ops (apply op grant)

  abbrev pub Allowed : Capability → Type 0
  Allowed c = contains template.full_capabilities c ≡ true

abbrev pub is_dormant : GrantStatus → Bool
is_dormant dormant = true
is_dormant _ = false

abbrev pub is_revoked : GrantStatus → Bool
is_revoked revoked = true
is_revoked _ = false

-- Every granted capability is one of the template's, and none is granted twice.
pub record IsWithin (template : PermissionTemplate) (grant : PurposeGrant) : Type 0 where
  pub within : All (Allowed template) grant.granted_capabilities
  pub unique : IsUnique grant.granted_capabilities

push_new-All :
    (template : PermissionTemplate) (c : Capability) (cs : List Capability)
    → Allowed template c
    → All (Allowed template) cs
    → All (Allowed template) (push_new c cs)
unfolding push_new
push_new-All template c cs ok_c h = elim (Bool-cases (contains cs c)) [
  | inl old ↦ rw (old, push_new) h
  | inr fresh ↦ rw (fresh, push_new) (All-append (Allowed template) cs (c ∷ []) h (ok_c, tt))
]

push_new-IsUnique : (c : Capability) (cs : List Capability) → IsUnique cs → IsUnique (push_new c cs)
unfolding push_new
push_new-IsUnique c cs u = elim (Bool-cases (contains cs c)) [
  | inl old ↦ rw (old, push_new) u
  | inr fresh ↦ rw (fresh, push_new) (IsUnique-append cs c u fresh)
]

push_new-contains : (c : Capability) (cs : List Capability) → contains (push_new c cs) c ≡ true
unfolding push_new
push_new-contains c cs = elim (Bool-cases (contains cs c)) [
  | inl old ↦ rw (old, push_new) old
  | inr fresh ↦ rw (fresh, push_new) (contains_self cs [] c)
]

-- `expand` is decided by the template alone: a capability that is not in it is refused and nothing
-- changes; else the capability is granted, once, the grant counts as used now, and a dormant grant
-- wakes up.
pub expand-outcomes :
    (now : DateTime) (template : PermissionTemplate) (c : Capability) (grant : PurposeGrant)
    → ((contains template.full_capabilities c ≡ false)
        × (expand now template c grant ≡ (grant, err not_in_template)))
      ⊎ ((contains template.full_capabilities c ≡ true)
          × ((expand now template c grant).1 ≡ ok tt)
          × ((expand now template c grant).0.granted_capabilities ≡ (
              if contains grant.granted_capabilities c
              then grant.granted_capabilities
              else grant.granted_capabilities ++ c ∷ []))
          × ((expand now template c grant).0.last_used_at ≡ now)
          × ((expand now template c grant).0.status
              ≡ (if is_dormant grant.status then active else grant.status)))
unfolding expand
expand-outcomes now template c grant = elim (Bool-cases (contains template.full_capabilities c)) [
  | inl inside ↦ inr (inside, ground arith, ground arith, ground arith, ground arith)
  | inr outside ↦ inl (outside, ground arith)
]

pub expand-IsWithin :
    (now : DateTime) (template : PermissionTemplate) (c : Capability) (grant : PurposeGrant)
    → IsWithin template grant
    → IsWithin template (expand now template c grant).0
unfolding expand
expand-IsWithin now template c grant h = elim (Bool-cases (contains template.full_capabilities c)) [
  | inl inside ↦
      rw (inside, expand)
        (record {
          within = push_new-All template c grant.granted_capabilities inside h.within;
          unique = push_new-IsUnique c grant.granted_capabilities h.unique;
        })
  | inr outside ↦ rw (outside, expand) h
]

pub IsWithin-same :
    (template : PermissionTemplate) (grant grant' : PurposeGrant)
    → grant'.granted_capabilities ≡ grant.granted_capabilities
    → IsWithin template grant
    → IsWithin template grant'
IsWithin-same template grant grant' e h = record {
  within = subst (All (Allowed template)) (sym e) h.within;
  unique = subst IsUnique (sym e) h.unique;
}

apply-IsWithin :
    (template : PermissionTemplate) (op : GrantOp) (grant : PurposeGrant)
    → IsWithin template grant
    → IsWithin template (apply template op grant)
unfolding apply touch check_dormancy revoke_with_user_approval
apply-IsWithin template (use_it now) grant h = IsWithin-same template grant _ refl h
apply-IsWithin template (expand_by now c) grant h = expand-IsWithin now template c grant h
apply-IsWithin template (look now) grant h = IsWithin-same template grant _ (ground arith) h
apply-IsWithin template approve_revocation grant h = IsWithin-same template grant _ refl h

-- A grant that starts with capabilities of the template, each once, never holds one outside the
-- template nor one twice, whatever is done with that template and the grant in any order.
pub run-IsWithin :
    (template : PermissionTemplate) (ops : List GrantOp) (grant : PurposeGrant)
    → IsWithin template grant
    → IsWithin template (run template ops grant)
unfolding run
run-IsWithin template [] grant h = h
run-IsWithin template (op ∷ ops) grant h =
    run-IsWithin template ops (apply template op grant) (apply-IsWithin template op grant h)

apply-revoked :
    (template : PermissionTemplate) (op : GrantOp) (grant : PurposeGrant)
    → grant.status ≡ revoked
    → (apply template op grant).status ≡ revoked
unfolding apply touch expand check_dormancy revoke_with_user_approval
apply-revoked template op grant h = ground arith

-- Revocation is final: no sequence of operations gives a revoked grant another status.
pub run-revoked :
    (template : PermissionTemplate) (ops : List GrantOp) (grant : PurposeGrant)
    → grant.status ≡ revoked
    → (run template ops grant).status ≡ revoked
unfolding run
run-revoked template [] grant h = h
run-revoked template (op ∷ ops) grant h =
    run-revoked template ops (apply template op grant) (apply-revoked template op grant h)

-- `expand` does not look at the status: on a revoked grant it succeeds for every capability of the
-- template, which is then among the granted ones, and the grant stays revoked.
pub expand_after_revocation :
    (now : DateTime) (template : PermissionTemplate) (c : Capability) (grant : PurposeGrant)
    → contains template.full_capabilities c ≡ true
    → let (grant', answer) = expand now template c (revoke_with_user_approval grant) in
      (answer ≡ ok tt) × (grant'.status ≡ revoked) × (contains grant'.granted_capabilities c ≡ true)
unfolding expand revoke_with_user_approval
expand_after_revocation now template c grant inside = (
  ground arith,
  ground arith,
  rw (inside, expand) (push_new-contains c grant.granted_capabilities),
)

-- Looking at a grant that was used at `used` makes it dormant exactly if it is not revoked and more
-- than 30 days have passed since; then the look says so; and whatever it says, no capability is
-- taken away.
pub check_dormancy-touch :
    (used now : DateTime) (grant : PurposeGrant)
    → let (grant', became_dormant) = check_dormancy now (touch used grant) in
      (became_dormant ≡ (not (is_revoked grant.status) && ltb dormancy_threshold (now - used)))
      × (grant'.status ≡ (
          if is_revoked grant.status
          then revoked
          else if ltb dormancy_threshold (now - used)
          then dormant
          else active))
      × (grant'.granted_capabilities ≡ grant.granted_capabilities)
unfolding touch check_dormancy
check_dormancy-touch used now grant = (ground arith, ground arith, ground arith)
