-- ===== src/Permissions/Examples.antt =====
-- Tests of the permissions: a web server's template and a conflict over its port.
use arona_os.Prelude.{
  ℕ, ◌<◌, ◌≤◌, ◌≡◌, refl, ◌↔◌, ◌⊎◌, contains_self, true, List, [], ◌∷◌, codes, ok, contains,
}
use arona_os.Permissions.{
  Capability, file_system_access, network_port, capability_partial_eq, read_only, read_write, tcp,
  udp, PermissionTemplate, new_predefined, resource_key,
}
use arona_os.Permissions.Grant.{PurposeGrant, new, expand, revoke_with_user_approval, revoked}
use arona_os.Permissions.Lifecycle.{
  IsWithin, GrantOp, use_it, expand_by, look, approve_revocation, run, run-IsWithin, run-revoked,
  expand_after_revocation,
}
use arona_os.Permissions.Conflict.{
  Conflict, PortAvailabilityChecker, static_port_checker, first_available, resolve, auto_isolated,
  requires_cognition_core_arbitration, AllTaken, resolve-network_port,
}
use arona_os.Permissions.Keys.{SameResource, resource_key-eq_iff}

abbrev pages : Capability
pages = file_system_access (codes "/srv") read_only

abbrev http : Capability
http = network_port 80 tcp

abbrev web_server : PermissionTemplate
web_server = new_predefined 1 0 (codes "web") (codes "a web server") (pages ∷ http ∷ [])

abbrev grant : PurposeGrant
grant = new 2 0 (codes "show pages") web_server (pages ∷ [])

abbrev conflict : Conflict
conflict = record {
  resource_key = resource_key http;
  holder_grant_id = 2;
  requester_grant_id = 3;
  capability = http;
}

abbrev checker : PortAvailabilityChecker
checker = static_port_checker ((49152, tcp) ∷ (49153, udp) ∷ [])

abbrev ops : List GrantOp
ops = expand_by 1 http ∷ look 5 ∷ approve_revocation ∷ use_it 6 ∷ expand_by 7 pages ∷ []

grant-IsWithin : IsWithin web_server grant
grant-IsWithin = record { within = (contains_self [] (http ∷ []) pages, tt); unique = (refl, tt) }

run-IsWithin_example : IsWithin web_server (run web_server ops grant)
run-IsWithin_example = run-IsWithin web_server ops grant grant-IsWithin

abbrev revoked_grant : PurposeGrant
revoked_grant = record grant { status = revoked }

run-revoked_example : (run web_server ops revoked_grant).status ≡ revoked
run-revoked_example = run-revoked web_server ops revoked_grant refl

expand_after_revocation_example :
    let (grant', answer) = expand 1 web_server http (revoke_with_user_approval grant) in
    (answer ≡ ok tt)
    × (grant'.status ≡ revoked)
    × (contains grant'.granted_capabilities http ≡ true)
expand_after_revocation_example = expand_after_revocation 1 web_server http grant refl

resolve-network_port_example :
    ((p : ℕ) × (resolve checker conflict ≡ auto_isolated (network_port p tcp))
      × (49152 ≤ p)
      × (p < 65536)
      × (checker.is_port_available p tcp ≡ true)
      × AllTaken checker tcp 49152 p)
    ⊎ ((resolve checker conflict ≡ requires_cognition_core_arbitration)
        × AllTaken checker tcp 49152 65536)
resolve-network_port_example = resolve-network_port checker conflict 80 tcp refl

resolve_conflict : resolve checker conflict ≡ auto_isolated (network_port 49153 tcp)
unfolding resolve first_available
resolve_conflict = refl

resource_key-eq_iff_example :
    (resource_key pages ≡ resource_key (file_system_access (codes "/srv") read_write))
    ↔ SameResource pages (file_system_access (codes "/srv") read_write)
resource_key-eq_iff_example =
    resource_key-eq_iff pages (file_system_access (codes "/srv") read_write)
