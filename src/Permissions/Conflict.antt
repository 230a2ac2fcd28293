-- ===== src/Permissions/Conflict.antt =====
-- arona_agy/arona_permissions/src/conflict.rs: conflicts over one resource.
use mathlib.Core.List.{Memᴰ}
use arona_os.Prelude.{
  ℕ, zero, suc, ◌+◌, ◌≤◌, ◌<◌, ◌≡◌, ◌⊎◌, inl, inr, ◌||◌, refl, ap, subst, nat_eq_iff, Text, Bool,
  true, false, ◌&&◌, not, List, [], ◌∷◌, Option, none, some, arith, nat_eq, if◌then◌else◌,
  Bool-cases, Option-cases,
}
use arona_os.Guardian.{Uuid}
use arona_os.Permissions.{
  Capability, file_system_access, network_port, process_execution, environment_variable, Protocol,
  protocol_eq, protocol_eq_iff,
}

abbrev pub is_port : Capability → Bool
is_port (network_port _ _) = true
is_port _ = false

pub record Conflict : Type 0 where
  pub resource_key : Text
  pub holder_grant_id : Uuid
  pub requester_grant_id : Uuid
  pub capability : Capability

pub data Resolution : Type 0 where
  auto_isolated : Capability → Resolution
  requires_cognition_core_arbitration : Resolution

-- The trait; what answers it is the system's.
pub record PortAvailabilityChecker : Type 0 where
  pub is_port_available : ℕ → Protocol → Bool

-- `used_ports.iter().any(…)`
abbrev pub any_used : List (ℕ × Protocol) → ℕ → Protocol → Bool
any_used [] port protocol = false
any_used ((p, proto) ∷ used) port protocol =
    (nat_eq p port && protocol_eq proto protocol) || any_used used port protocol

abbrev pub static_port_checker : List (ℕ × Protocol) → PortAvailabilityChecker
static_port_checker used = record {
  is_port_available = λ port protocol. not (any_used used port protocol);
}

-- 49152..=65535
abbrev pub port_search_start : ℕ
port_search_start = 49152

abbrev pub port_search_count : ℕ
port_search_count = 16384

-- The `for` loop over the `count` ports from `port` on.
unfoldable pub first_available : PortAvailabilityChecker → Protocol → ℕ → ℕ → Option ℕ
first_available checker protocol zero port = none
first_available checker protocol (suc count) port =
    let later = first_available checker protocol count (port + 1) in
    if checker.is_port_available port protocol then some port else later

unfoldable pub resolve : PortAvailabilityChecker → Conflict → Resolution
resolve checker conflict = elim conflict.capability [
  | network_port _ protocol ↦
      elim (first_available checker protocol port_search_count port_search_start) [
        | some port ↦ auto_isolated (network_port port protocol)
        | none ↦ requires_cognition_core_arbitration
      ]
  | file_system_access _ _ ↦ requires_cognition_core_arbitration
  | process_execution _ ↦ requires_cognition_core_arbitration
  | environment_variable _ ↦ requires_cognition_core_arbitration
]

module _ (checker : PortAvailabilityChecker) (protocol : Protocol) where
  -- No port from `lo` up to, but without, `hi` is available.
  abbrev pub AllTaken : ℕ → ℕ → Type 0
  AllTaken lo hi = (q : ℕ) → lo ≤ q → q < hi → checker.is_port_available q protocol ≡ false

  AllTaken-suc :
      (lo hi : ℕ)
      → checker.is_port_available lo protocol ≡ false
      → AllTaken (lo + 1) hi
      → AllTaken lo hi
  AllTaken-suc lo hi taken rest q below above = elim (Bool-cases (nat_eq q lo)) [
    | inl same ↦ ground arith
    | inr differs ↦ rest q (ground arith) above
  ]

  -- The first available port of the range, or none is.
  abbrev pub FirstOrNone : ℕ → ℕ → Option ℕ → Type 0
  FirstOrNone lo hi (some p) =
      (lo ≤ p) × (p < hi) × (checker.is_port_available p protocol ≡ true) × AllTaken lo p
  FirstOrNone lo hi none = AllTaken lo hi

  weaken :
      (lo hi : ℕ) (found : Option ℕ)
      → checker.is_port_available lo protocol ≡ false
      → FirstOrNone (lo + 1) hi found
      → FirstOrNone lo hi found
  weaken lo hi none taken h = AllTaken-suc lo hi taken h
  weaken lo hi (some p) taken (above, below, free, before) =
      (omega arith, below, free, AllTaken-suc lo p taken before)

  first_available-FirstOrNone :
      (count port end_ : ℕ)
      → port + count ≡ end_
      → FirstOrNone port end_ (first_available checker protocol count port)
  unfolding first_available
  first_available-FirstOrNone zero port end_ e = λ q below above. absurd (omega arith)
  first_available-FirstOrNone (suc count) port end_ e =
      elim (Bool-cases (checker.is_port_available port protocol)) [
        | inl free ↦
            rw (free, first_available)
              (omega arith, omega arith, free, λ q below above. absurd (omega arith))
        | inr taken ↦
            rw (taken, first_available)
              (weaken port end_ (first_available checker protocol count (port + 1)) taken
                (first_available-FirstOrNone count (port + 1) end_ (omega arith)))
      ]

-- A conflict over a port is isolated on the first available port of 49152 to 65535, with the
-- protocol kept, or, if none of them is available, left to arbitration.
pub resolve-network_port :
    (checker : PortAvailabilityChecker) (conflict : Conflict) (port : ℕ) (protocol : Protocol)
    → conflict.capability ≡ network_port port protocol
    → ((p : ℕ) × (resolve checker conflict ≡ auto_isolated (network_port p protocol))
        × (49152 ≤ p)
        × (p < 65536)
        × (checker.is_port_available p protocol ≡ true)
        × AllTaken checker protocol 49152 p)
      ⊎ ((resolve checker conflict ≡ requires_cognition_core_arbitration)
          × AllTaken checker protocol 49152 65536)
unfolding resolve
resolve-network_port checker conflict port protocol e =
    elim (Option-cases (first_available checker protocol 16384 49152)) [
      | inl missing ↦ inr (ground (arith, e, missing), subst outcome missing exact)
      | inr (p, found) ↦
          let (low, high, free, first) = subst outcome found exact in
          inl (p, ground (arith, e, found), low, high, free, first)
    ]
  where
    outcome : Option ℕ → Type 0
    outcome = FirstOrNone checker protocol 49152 65536

    exact : outcome (first_available checker protocol 16384 49152)
    exact = first_available-FirstOrNone checker protocol 16384 49152 65536 refl

Memᴰ→any_used :
    (used : List (ℕ × Protocol)) (p : ℕ) (protocol : Protocol)
    → Memᴰ (p, protocol) used
    → any_used used p protocol ≡ true
Memᴰ→any_used [] p protocol m = elim m [ ]
Memᴰ→any_used ((q, r) ∷ used) p protocol (Memᴰ.head e) = ground (
  arith,
  nat_eq_iff q p,
  protocol_eq_iff r protocol,
  ap (λ (x : ℕ × Protocol). x.0) e,
  ap (λ (x : ℕ × Protocol). x.1) e,
)
Memᴰ→any_used ((q, r) ∷ used) p protocol (Memᴰ.tail m) =
    ground (arith, Memᴰ→any_used used p protocol m)

-- What the simplest checker isolates a conflict to is none of the ports that it was given as used.
pub resolve-static_port_checker :
    (used : List (ℕ × Protocol)) (conflict : Conflict) (c : Capability)
    → resolve (static_port_checker used) conflict ≡ auto_isolated c
    → (p : ℕ) × (protocol : Protocol) × (c ≡ network_port p protocol) × ¬ Memᴰ (p, protocol) used
unfolding resolve
resolve-static_port_checker used conflict c e = go conflict.capability refl
  where
    same :
        (p : ℕ) (protocol : Protocol)
        → resolve (static_port_checker used) conflict ≡ auto_isolated (network_port p protocol)
        → c ≡ network_port p protocol
    same p protocol h = cc (h, e)

    go :
        (cap : Capability)
        → conflict.capability ≡ cap
        → (p : ℕ) × (protocol : Protocol) × (c ≡ network_port p protocol)
          × ¬ Memᴰ (p, protocol) used
    go (network_port port protocol) e' =
        elim (resolve-network_port (static_port_checker used) conflict port protocol e') [
          | inl (p, isolated, low, high, free, first) ↦ (
            p,
            protocol,
            same p protocol isolated,
            λ m. absurd (ground (arith, Memᴰ→any_used used p protocol m, free)),
          )
          | inr (arbitrated, _) ↦ absurd (cc (arbitrated, e))
        ]
    go _ e' = absurd (ground (arith, e, e'))
