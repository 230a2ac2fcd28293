-- ===== src/Permissions/Grant.antt =====
-- arona_agy/arona_permissions/src/grant.rs: the permissions that one purpose holds.
use arona_os.Prelude.{
  ℕ, ◌-◌, ◌*◌, Text, Bool, true, false, ◌&&◌, List, [], ◌∷◌, ◌++◌, Result, ok, err, ltb,
  if◌then◌else◌, contains, not,
}
use arona_os.Guardian.{Uuid, DateTime}
use arona_os.Permissions.{Capability, capability_partial_eq, PermissionTemplate}

pub data GrantStatus : Type 0 where
  active dormant revoked : GrantStatus

abbrev pub is_active : GrantStatus → Bool
is_active active = true
is_active _ = false

-- 30 days; a `DateTime` counts nanoseconds.
abbrev pub dormancy_threshold : ℕ
dormancy_threshold = 30 * 86_400_000_000_000

pub record PurposeGrant : Type 0 where
  pub id : Uuid
  pub purpose : Text
  pub template_id : Uuid
  pub granted_capabilities : List Capability
  pub status : GrantStatus
  pub granted_at : DateTime
  pub last_used_at : DateTime

pub data ExpandError : Type 0 where
  not_in_template : ExpandError

abbrev pub new : Uuid → DateTime → Text → PermissionTemplate → List Capability → PurposeGrant
new id now purpose template initial_capabilities = record {
  id = id;
  purpose = purpose;
  template_id = template.id;
  granted_capabilities = initial_capabilities;
  status = active;
  granted_at = now;
  last_used_at = now;
}

-- A dormant grant that is used comes back.
abbrev wake : GrantStatus → GrantStatus
wake dormant = active
wake status = status

unfoldable pub touch : DateTime → PurposeGrant → PurposeGrant
touch now grant = record grant { last_used_at = now; status = wake grant.status }

-- `if !granted.contains(&capability) { granted.push(capability) }`
unfoldable pub push_new : Capability → List Capability → List Capability
push_new capability granted =
    if not (contains granted capability) then granted ++ capability ∷ [] else granted

unfoldable pub expand :
    DateTime
    → PermissionTemplate
    → Capability
    → PurposeGrant
    → PurposeGrant × Result (Unit {0}) ExpandError
unfolding touch push_new
expand now template capability grant =
    if not (contains template.full_capabilities capability) then (grant, err not_in_template) else (
      touch now
          (record grant { granted_capabilities = push_new capability grant.granted_capabilities }),
      ok tt,
    )

-- The threshold is positive, so the truncated difference passes it exactly if the signed one does.
unfoldable pub is_dormant_by_elapsed_time : DateTime → PurposeGrant → Bool
is_dormant_by_elapsed_time now grant =
    is_active grant.status && ltb dormancy_threshold (now - grant.last_used_at)

unfoldable pub check_dormancy : DateTime → PurposeGrant → PurposeGrant × Bool
unfolding is_dormant_by_elapsed_time
check_dormancy now grant =
    if is_dormant_by_elapsed_time now grant
    then (record grant { status = dormant }, true)
    else (grant, false)

unfoldable pub revoke_with_user_approval : PurposeGrant → PurposeGrant
revoke_with_user_approval grant = record grant { status = revoked }
