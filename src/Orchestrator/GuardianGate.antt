-- ===== src/Orchestrator/GuardianGate.antt =====
-- arona_agy/arona_orchestrator/src/guardian_gate.rs: the event that a request for a capability is.
use arona_os.Prelude.{Text, codes, Option, none, some}
use arona_os.Guardian.{SystemEvent, file_operation}
use arona_os.Permissions.{
  Capability, file_system_access, network_port, process_execution, environment_variable, AccessMode,
  read_only, read_write,
}

abbrev pub operation_of : AccessMode → Text
operation_of read_only = codes "read"
operation_of read_write = codes "write"

unfoldable pub derive_event_for_capability : Capability → Option SystemEvent
derive_event_for_capability (file_system_access path_prefix mode) =
    some (file_operation path_prefix (operation_of mode) 0)
derive_event_for_capability (process_execution _) = none
derive_event_for_capability (environment_variable _) = none
derive_event_for_capability (network_port _ _) = none
