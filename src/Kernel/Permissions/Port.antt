-- ===== src/Kernel/Permissions/Port.antt =====
-- The kernel's grants and arona_agy/arona_permissions.
use arona_os.Prelude.{
  ℕ, ◌-◌, ◌≡◌, refl, sym, ap, subst, ◌∙◌, inl, inr, Bool, true, false, not, ◌&&◌, List, [], ◌∷◌,
  ◌++◌, map, Result, ok, err, arith, Bool-cases, contains, ltb, if◌then◌else◌,
}
use arona_os.Permissions
use arona_os.Permissions.Grant
use arona_os.Permissions.Lifecycle.{IsWithin, expand-IsWithin, IsWithin-same}
use arona_os.Kernel.Permissions.{
  AccessMode, read_only, read_write, Protocol, tcp, udp, Capability, file_system_access,
  network_port, process_execution, environment_variable, capability_eq, capability_partial_eq,
  TemplateOrigin, predefined, proposed_by_cognition_core, PermissionTemplate, GrantStatus, active,
  dormant, revoked, dormancy_threshold_ticks, PurposeGrant, ExpandError, not_in_template, touch,
  push_new, expand, check_dormancy,
}

abbrev pub mode_of : AccessMode → Permissions.AccessMode
mode_of read_only = Permissions.read_only
mode_of read_write = Permissions.read_write

abbrev pub is_revoked : GrantStatus → Bool
is_revoked revoked = true
is_revoked _ = false

abbrev pub protocol_of : Protocol → Permissions.Protocol
protocol_of tcp = Permissions.tcp
protocol_of udp = Permissions.udp

abbrev pub capability_of : Capability → Permissions.Capability
capability_of (file_system_access p m) = Permissions.file_system_access p (mode_of m)
capability_of (network_port p m) = Permissions.network_port p (protocol_of m)
capability_of (process_execution p) = Permissions.process_execution p
capability_of (environment_variable p) = Permissions.environment_variable p

abbrev pub origin_of : TemplateOrigin → Permissions.TemplateOrigin
origin_of predefined = Permissions.predefined
origin_of (proposed_by_cognition_core reasoning) = Permissions.proposed_by_cognition_core reasoning

abbrev pub status_of : GrantStatus → Permissions.Grant.GrantStatus
status_of active = Permissions.Grant.active
status_of dormant = Permissions.Grant.dormant
status_of revoked = Permissions.Grant.revoked

abbrev pub template_of : ℕ → PermissionTemplate → Permissions.PermissionTemplate
template_of created_at t = record {
  id = t.id;
  name = t.name;
  description = t.description;
  full_capabilities = map capability_of t.full_capabilities;
  origin = origin_of t.origin;
  created_at = created_at;
}

abbrev pub grant_of : ℕ → PurposeGrant → Permissions.Grant.PurposeGrant
grant_of granted_at g = record {
  id = g.id;
  purpose = g.purpose;
  template_id = g.template_id;
  granted_capabilities = map capability_of g.granted_capabilities;
  status = status_of g.status;
  granted_at = granted_at;
  last_used_at = g.last_used_tick;
}

abbrev pub result_of :
    Result (Unit {0}) ExpandError → Result (Unit {0}) Permissions.Grant.ExpandError
result_of (ok u) = ok u
result_of (err not_in_template) = err Permissions.Grant.not_in_template

capability_eq-capability_of :
    (a b : Capability)
    → Permissions.capability_eq (capability_of a) (capability_of b) ≡ capability_eq a b
capability_eq-capability_of a b = ground arith

contains-capability_of :
    (cs : List Capability) (c : Capability)
    → contains ⦃e = Permissions.capability_partial_eq⦄ (map capability_of cs) (capability_of c)
      ≡ contains cs c
contains-capability_of [] c = refl
contains-capability_of (x ∷ cs) c =
    cc (capability_eq-capability_of x c, contains-capability_of cs c)

map-append :
    (xs ys : List Capability)
    → map capability_of (xs ++ ys) ≡ map capability_of xs ++ map capability_of ys
map-append [] ys = refl
map-append (x ∷ xs) ys = ap (λ zs. capability_of x ∷ zs) (map-append xs ys)

push_new-capability_of :
    (c : Capability) (cs : List Capability)
    → Permissions.Grant.push_new (capability_of c) (map capability_of cs)
      ≡ map capability_of (push_new c cs)
unfolding push_new Permissions.Grant.push_new
push_new-capability_of c cs =
    let same = contains-capability_of cs c in
    elim (Bool-cases (contains cs c)) [
      | inl old ↦ let old' = same ∙ old in rw (old', old, push_new, Permissions.Grant.push_new) refl
      | inr fresh ↦
          let fresh' = same ∙ fresh in
          rw (fresh', fresh, push_new, Permissions.Grant.push_new) (sym (map-append cs (c ∷ [])))
    ]

touch-grant_of :
    (tick granted_at : ℕ) (g : PurposeGrant)
    → Permissions.Grant.touch tick (grant_of granted_at g) ≡ grant_of granted_at (touch tick g)
unfolding touch Permissions.Grant.touch
touch-grant_of tick granted_at g = ground arith

-- `expand` answers what the crate's `expand` answers with the tick as the time, the error included,
-- and leaves the grant that the crate's leaves.
pub expand-grant_of :
    (tick created_at granted_at : ℕ) (t : PermissionTemplate) (c : Capability) (g : PurposeGrant)
    → Permissions.Grant.expand tick
        (template_of created_at t)
        (capability_of c)
        (grant_of granted_at g)
      ≡ (grant_of granted_at (expand t c tick g).0, result_of (expand t c tick g).1)
unfolding expand Permissions.Grant.expand
expand-grant_of tick created_at granted_at t c g =
    let same = contains-capability_of t.full_capabilities c in
    elim (Bool-cases (contains t.full_capabilities c)) [
      | inl inside ↦
          let inside' = same ∙ inside in
          let pushed = push_new-capability_of c g.granted_capabilities in
          rw (inside', inside, expand, Permissions.Grant.expand)
            (ap
                (λ xs. (
                  Permissions.Grant.touch tick
                      (record (grant_of granted_at g) { granted_capabilities = xs }),
                  ok tt,
                ))
                pushed
              ∙ ap (λ x. (x, ok tt))
                  (touch-grant_of tick granted_at
                    (record g { granted_capabilities = push_new c g.granted_capabilities })))
      | inr outside ↦
          let outside' = same ∙ outside in
          rw (outside', outside, expand, Permissions.Grant.expand) refl
    ]

-- The calls on one grant, each with the tick at which it is made.
pub data GrantOp : Type 0 where
  use_it : ℕ → GrantOp
  expand_by : ℕ → Capability → GrantOp
  look : ℕ → GrantOp

module _ (template : PermissionTemplate) where
  unfoldable pub apply : GrantOp → PurposeGrant → PurposeGrant
  apply (use_it tick) grant = touch tick grant
  apply (expand_by tick capability) grant = (expand template capability tick grant).0
  apply (look tick) grant = (check_dormancy tick grant).0

  unfoldable pub run : List GrantOp → PurposeGrant → PurposeGrant
  run [] grant = grant
  run (op ∷ ops) grant = run ops (apply op grant)

  -- For the crate, every granted capability is the template's, and none is granted twice.
  abbrev pub IsWithinTemplate : PurposeGrant → Type 0
  IsWithinTemplate grant = IsWithin (template_of 0 template) (grant_of 0 grant)

  apply-IsWithinTemplate :
      (op : GrantOp) (grant : PurposeGrant)
      → IsWithinTemplate grant
      → IsWithinTemplate (apply op grant)
  unfolding apply touch check_dormancy
  apply-IsWithinTemplate (use_it tick) grant h =
      IsWithin-same (template_of 0 template) (grant_of 0 grant) _ refl h
  apply-IsWithinTemplate (look tick) grant h =
      IsWithin-same (template_of 0 template) (grant_of 0 grant) _ (ground arith) h
  apply-IsWithinTemplate (expand_by tick c) grant h =
      subst (λ r. IsWithin (template_of 0 template) r.0) (expand-grant_of tick 0 0 template c grant)
        (expand-IsWithin tick (template_of 0 template) (capability_of c) (grant_of 0 grant) h)

  -- In the kernel too, a grant that starts with capabilities of the template, each once, never holds
  -- one outside the template nor one twice, whatever is done with that template and the grant.
  pub run-IsWithinTemplate :
      (ops : List GrantOp) (grant : PurposeGrant)
      → IsWithinTemplate grant
      → IsWithinTemplate (run ops grant)
  unfolding run
  run-IsWithinTemplate [] grant h = h
  run-IsWithinTemplate (op ∷ ops) grant h =
      run-IsWithinTemplate ops (apply op grant) (apply-IsWithinTemplate op grant h)

-- Looking at a kernel's grant that was used at the tick `used` makes it dormant exactly if it is not
-- revoked and more than 90 ticks have passed since; a later use wakes it up again; and neither takes a
-- capability away.
pub touch-check_dormancy :
    (used now later : ℕ) (grant : PurposeGrant)
    → let (looked, became_dormant) = check_dormancy now (touch used grant) in
      (became_dormant
        ≡ (not (is_revoked grant.status) && ltb dormancy_threshold_ticks (now - used)))
      × ((touch later looked).status ≡ (if is_revoked grant.status then revoked else active))
      × ((touch later looked).granted_capabilities ≡ grant.granted_capabilities)
unfolding touch check_dormancy
touch-check_dormancy used now later grant = (ground arith, ground arith, ground arith)
