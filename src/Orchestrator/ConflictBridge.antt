-- ===== src/Orchestrator/ConflictBridge.antt =====
-- arona_agy/arona_orchestrator/src/conflict_bridge.rs: isolation first, then arbitration. `show` is
-- the derived `{:?}` of a capability.
use arona_os.Prelude.{
  ℕ, ◌≡◌, ◌≤◌, ◌<◌, refl, inl, inr, Text, Bool, true, false, Option, none, some, Result, ok, ◌>>=◌,
  map_err,
}
use arona_os.Strings.{Platform}
use arona_os.Cognition.{CognitionBackend}
use arona_os.Permissions.{Capability, network_port, Protocol}
use arona_os.Permissions.Conflict.{
  Conflict, auto_isolated, requires_cognition_core_arbitration, PortAvailabilityChecker, resolve,
  resolve-network_port,
}
use arona_os.Orchestrator.KeyValue.{BridgeError}
use arona_os.Orchestrator.ArbitrationBridge.{Arbitration, holder, requester, arbitrate}

pub data FinalResolution : Type 0 where
  isolated : Capability → FinalResolution
  arbitrated : Arbitration → FinalResolution

pub data ConflictResolutionError : Type 0 where
  arbitration : BridgeError → ConflictResolutionError

unfoldable pub loser_should_yield : FinalResolution → Option Bool
loser_should_yield (isolated _) = none
loser_should_yield (arbitrated a) = elim a.winner [ holder ↦ some false | requester ↦ some true ]

module _ {S : Type 0} (p : Platform) (backend : CognitionBackend S) (show : Capability → Text) where
  unfoldable pub resolve_conflict :
      Conflict
      → PortAvailabilityChecker
      → Text
      → Text
      → S
      → S × Result FinalResolution ConflictResolutionError
  resolve_conflict conflict checker holder_purpose requester_purpose s =
      elim (resolve checker conflict) [
        | auto_isolated alternative ↦ (s, ok (isolated alternative))
        | requires_cognition_core_arbitration ↦
            let (s', decision) =
              arbitrate p backend (show conflict.capability) holder_purpose requester_purpose s in
            (s', map_err arbitration decision >>= λ a. ok (arbitrated a))
      ]

  -- Where a port of the search range is available for a conflict over a port, the model is not
  -- asked: its state stays, both sides keep a resource, and the requester's port is available.
  pub resolve_conflict-available :
      (conflict : Conflict) (checker : PortAvailabilityChecker)
      (holder_purpose requester_purpose : Text) (s : S) (port q : ℕ) (protocol : Protocol)
      → conflict.capability ≡ network_port port protocol
      → 49152 ≤ q
      → q < 65536
      → checker.is_port_available q protocol ≡ true
      → (alternative : ℕ) × (resolve_conflict conflict checker holder_purpose requester_purpose s
          ≡ (s, ok (isolated (network_port alternative protocol))))
        × (checker.is_port_available alternative protocol ≡ true)
        × (loser_should_yield (isolated (network_port alternative protocol)) ≡ none)
  unfolding resolve_conflict loser_should_yield
  resolve_conflict-available conflict checker hp rp s port q protocol e low high free =
      elim (resolve-network_port checker conflict port protocol e) [
        | inl (alternative, found, _, _, available, _) ↦
            (alternative, rw (found, resolve_conflict), available, refl)
        | inr (_, taken) ↦ absurd (cc (taken q low high, free))
      ]
