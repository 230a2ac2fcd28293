-- ===== src/Kernel/Permissions.antt =====
-- arona_kernel/src/permissions.rs: the kernel's port of the permissions. Time is the count of the
-- timer's ticks; random ids are arguments.
pub mod Port
mod Examples
use arona_os.Prelude.{
  ℕ, ◌-◌, ◌≡◌, ◌↔◌, Text, codes, ◌++◌, Bool, true, false, ◌&&◌, not, List, [], ◌∷◌, Result, ok, err,
  arith, nat_eq, nat_eq_iff, ltb, if◌then◌else◌, contains, PartialEq, text_eq, text_eq_iff,
}

pub data AccessMode : Type 0 where
  read_only read_write : AccessMode

pub data Protocol : Type 0 where
  tcp udp : Protocol

-- A port is a `u16`.
pub data Capability : Type 0 where
  file_system_access : Text → AccessMode → Capability
  network_port : ℕ → Protocol → Capability
  process_execution : Text → Capability
  environment_variable : Text → Capability

-- The derived `PartialEq` of the three types.
abbrev pub mode_eq : AccessMode → AccessMode → Bool
mode_eq read_only read_only = true
mode_eq read_write read_write = true
mode_eq _ _ = false

abbrev pub protocol_eq : Protocol → Protocol → Bool
protocol_eq tcp tcp = true
protocol_eq udp udp = true
protocol_eq _ _ = false

abbrev pub capability_eq : Capability → Capability → Bool
capability_eq (file_system_access p m) (file_system_access q n) = text_eq p q && mode_eq m n
capability_eq (network_port p m) (network_port q n) = nat_eq p q && protocol_eq m n
capability_eq (process_execution p) (process_execution q) = text_eq p q
capability_eq (environment_variable p) (environment_variable q) = text_eq p q
capability_eq _ _ = false

pub capability_eq_iff : (a b : Capability) → (capability_eq a b ≡ true) ↔ (a ≡ b)
capability_eq_iff (file_system_access p m) (file_system_access q n) =
    ground (arith, text_eq_iff p q)
capability_eq_iff (network_port p m) (network_port q n) = ground (arith, nat_eq_iff p q)
capability_eq_iff (process_execution p) (process_execution q) = ground (arith, text_eq_iff p q)
capability_eq_iff (environment_variable p) (environment_variable q) =
    ground (arith, text_eq_iff p q)
capability_eq_iff _ _ = ground arith

instance abbrev pub capability_partial_eq : PartialEq Capability
capability_partial_eq = record { eq = capability_eq; eq_iff = capability_eq_iff }

pub data TemplateOrigin : Type 0 where
  predefined : TemplateOrigin
  proposed_by_cognition_core : Text → TemplateOrigin

pub record PermissionTemplate : Type 0 where
  pub id : ℕ
  pub name : Text
  pub description : Text
  pub full_capabilities : List Capability
  pub origin : TemplateOrigin

abbrev pub new_predefined : ℕ → Text → Text → List Capability → PermissionTemplate
new_predefined id name description full_capabilities = record {
  id = id;
  name = name;
  description = description;
  full_capabilities = full_capabilities;
  origin = predefined;
}

abbrev pub rust_dev_environment_template : ℕ → PermissionTemplate
rust_dev_environment_template id =
    new_predefined id (codes "Rust開発環境") (codes "Rustプロジェクトのビルド・依存関係取得に必要な権限セット")
      (file_system_access (codes "C:/dev") read_write ∷ process_execution (codes "cargo.exe") ∷ [])

pub data GrantStatus : Type 0 where
  active dormant revoked : GrantStatus

abbrev pub is_active : GrantStatus → Bool
is_active active = true
is_active _ = false

abbrev pub dormancy_threshold_ticks : ℕ
dormancy_threshold_ticks = 90

pub record PurposeGrant : Type 0 where
  pub id : ℕ
  pub purpose : Text
  pub template_id : ℕ
  pub granted_capabilities : List Capability
  pub status : GrantStatus
  pub last_used_tick : ℕ

pub data ExpandError : Type 0 where
  not_in_template : ExpandError

abbrev pub new : ℕ → Text → PermissionTemplate → List Capability → ℕ → PurposeGrant
new id purpose template initial_capabilities current_tick = record {
  id = id;
  purpose = purpose;
  template_id = template.id;
  granted_capabilities = initial_capabilities;
  status = active;
  last_used_tick = current_tick;
}

abbrev pub wake : GrantStatus → GrantStatus
wake dormant = active
wake status = status

unfoldable pub touch : ℕ → PurposeGrant → PurposeGrant
touch current_tick grant = record grant {
  last_used_tick = current_tick;
  status = wake grant.status;
}

unfoldable pub push_new : Capability → List Capability → List Capability
push_new capability granted =
    if not (contains granted capability) then granted ++ capability ∷ [] else granted

unfoldable pub expand :
    PermissionTemplate
    → Capability
    → ℕ
    → PurposeGrant
    → PurposeGrant × Result (Unit {0}) ExpandError
unfolding touch push_new
expand template capability current_tick grant =
    if not (contains template.full_capabilities capability) then (grant, err not_in_template) else (
      touch current_tick
          (record grant { granted_capabilities = push_new capability grant.granted_capabilities }),
      ok tt,
    )

-- `saturating_sub` is the truncated difference.
unfoldable pub check_dormancy : ℕ → PurposeGrant → PurposeGrant × Bool
check_dormancy current_tick grant =
    if is_active grant.status && ltb dormancy_threshold_ticks (current_tick - grant.last_used_tick)
    then (record grant { status = dormant }, true)
    else (grant, false)
