-- ===== src/Orchestrator.antt =====
-- arona_agy/arona_orchestrator/src: the bridges between the model's answers and the other parts.
pub mod Prompts
pub mod KeyValue
pub mod Confirmation
pub mod GuardianGate
pub mod ArbitrationBridge
pub mod ConflictBridge
pub mod GuardianBridge
pub mod PermissionsBridge
pub mod CatalogBridge
pub mod Turn
pub mod Gate
pub mod TurnSafety
mod Examples
mod TurnExamples
