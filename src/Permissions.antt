-- ===== src/Permissions.antt =====
-- arona_agy/arona_permissions/src/schema.rs: capabilities and permission templates.
pub mod Grant
pub mod Lifecycle
pub mod Conflict
pub mod Keys
pub mod Catalog
mod Examples
use arona_os.Prelude.{
  ℕ, ◌≡◌, refl, ◌↔◌, Text, codes, decimal, ◌++◌, Bool, true, false, ◌&&◌, List, arith, nat_eq,
  nat_eq_iff, PartialEq, ◌==◌, text_partial_eq, text_eq, text_eq_iff,
}
use arona_os.Guardian.{Uuid, DateTime}

pub data AccessMode : Type 0 where
  read_only read_write : AccessMode

pub data Protocol : Type 0 where
  tcp udp : Protocol

-- A port is a `u16`.
pub data Capability : Type 0 where
  file_system_access : Text → AccessMode → Capability
  network_port : ℕ → Protocol → Capability
  process_execution : Text → Capability
  environment_variable : Text → Capability

-- The derived `PartialEq` of the three types.
abbrev pub mode_eq : AccessMode → AccessMode → Bool
mode_eq read_only read_only = true
mode_eq read_write read_write = true
mode_eq _ _ = false

abbrev pub protocol_eq : Protocol → Protocol → Bool
protocol_eq tcp tcp = true
protocol_eq udp udp = true
protocol_eq _ _ = false

abbrev pub capability_eq : Capability → Capability → Bool
capability_eq (file_system_access p m) (file_system_access q n) = text_eq p q && mode_eq m n
capability_eq (network_port p m) (network_port q n) = nat_eq p q && protocol_eq m n
capability_eq (process_execution p) (process_execution q) = text_eq p q
capability_eq (environment_variable p) (environment_variable q) = text_eq p q
capability_eq _ _ = false

pub protocol_eq_iff : (a b : Protocol) → (protocol_eq a b ≡ true) ↔ (a ≡ b)
protocol_eq_iff a b = ground arith

pub capability_eq_iff : (a b : Capability) → (capability_eq a b ≡ true) ↔ (a ≡ b)
capability_eq_iff (file_system_access p m) (file_system_access q n) =
    ground (arith, text_eq_iff p q)
capability_eq_iff (network_port p m) (network_port q n) = ground (arith, nat_eq_iff p q)
capability_eq_iff (process_execution p) (process_execution q) = ground (arith, text_eq_iff p q)
capability_eq_iff (environment_variable p) (environment_variable q) =
    ground (arith, text_eq_iff p q)
capability_eq_iff _ _ = ground arith

instance abbrev pub capability_partial_eq : PartialEq Capability
capability_partial_eq = record { eq = capability_eq; eq_iff = capability_eq_iff }

-- `{protocol:?}`
abbrev pub show_protocol : Protocol → Text
show_protocol tcp = codes "Tcp"
show_protocol udp = codes "Udp"

unfoldable pub resource_key : Capability → Text
resource_key (file_system_access path_prefix _) = codes "fs:" ++ path_prefix
resource_key (network_port port protocol) =
    codes "net:" ++ (show_protocol protocol ++ (codes ":" ++ decimal port))
resource_key (process_execution program) = codes "proc:" ++ program
resource_key (environment_variable name) = codes "env:" ++ name

pub data TemplateOrigin : Type 0 where
  predefined : TemplateOrigin
  proposed_by_cognition_core : Text → TemplateOrigin

pub record PermissionTemplate : Type 0 where
  pub id : Uuid
  pub name : Text
  pub description : Text
  pub full_capabilities : List Capability
  pub origin : TemplateOrigin
  pub created_at : DateTime

abbrev pub new_predefined : Uuid → DateTime → Text → Text → List Capability → PermissionTemplate
new_predefined id now name description full_capabilities = record {
  id = id;
  name = name;
  description = description;
  full_capabilities = full_capabilities;
  origin = predefined;
  created_at = now;
}

abbrev pub new_proposed :
    Uuid → DateTime → Text → Text → List Capability → Text → PermissionTemplate
new_proposed id now name description full_capabilities reasoning = record {
  id = id;
  name = name;
  description = description;
  full_capabilities = full_capabilities;
  origin = proposed_by_cognition_core reasoning;
  created_at = now;
}
