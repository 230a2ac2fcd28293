-- ===== src/Permissions/Keys.antt =====
-- Two capabilities contend for a resource exactly if their resource keys agree.
use arona_os.Prelude.{
  ℕ, zero, suc, [], ◌∷◌, ◌≡◌, refl, ap, ◌↔◌, Text, decimal, decimal-injective, arith,
}
use arona_os.Permissions.{
  Capability, file_system_access, network_port, process_execution, environment_variable, Protocol,
  tcp, udp, resource_key,
}

-- The same path prefix in whatever mode, the same port of the same protocol, the same program, or
-- the same variable.
abbrev pub SameResource : Capability → Capability → Type 0
SameResource (file_system_access p _) (file_system_access q _) = p ≡ q
SameResource (network_port p m) (network_port q n) = (p ≡ q) × (m ≡ n)
SameResource (process_execution p) (process_execution q) = p ≡ q
SameResource (environment_variable p) (environment_variable q) = p ≡ q
SameResource _ _ = ⊥

abbrev char_at : ℕ → Text → ℕ
char_at i [] = 0
char_at zero (c ∷ cs) = c
char_at (suc i) (c ∷ cs) = char_at i cs

port_key :
    (p q : ℕ) (m n : Protocol)
    → resource_key (network_port p m) ≡ resource_key (network_port q n)
    → (decimal p ≡ decimal q) × (m ≡ n)
unfolding resource_key
port_key p q tcp tcp e = (cc, refl)
port_key p q tcp udp e = absurd (omega (arith, ap (char_at 4) e))
port_key p q udp tcp e = absurd (omega (arith, ap (char_at 4) e))
port_key p q udp udp e = (cc, refl)

key→SameResource : (c d : Capability) → resource_key c ≡ resource_key d → SameResource c d
unfolding resource_key
key→SameResource (file_system_access p _) (file_system_access q _) e = cc
key→SameResource (network_port p m) (network_port q n) e =
    let (same, proto) = port_key p q m n e in (decimal-injective p q same, proto)
key→SameResource (process_execution p) (process_execution q) e = cc
key→SameResource (environment_variable p) (environment_variable q) e = cc
key→SameResource _ _ e = absurd (omega (arith, ap (char_at 0) e))

SameResource→key : (c d : Capability) → SameResource c d → resource_key c ≡ resource_key d
unfolding resource_key
SameResource→key (file_system_access p _) (file_system_access q _) e = cc
SameResource→key (network_port p m) (network_port q n) e = cc (e.0, e.1)
SameResource→key (process_execution p) (process_execution q) e = cc
SameResource→key (environment_variable p) (environment_variable q) e = cc
SameResource→key _ _ e = absurd e

-- The resource keys of two capabilities are equal exactly if they name the same resource; the
-- access mode of a path does not count, the protocol of a port does.
pub resource_key-eq_iff : (c d : Capability) → (resource_key c ≡ resource_key d) ↔ SameResource c d
resource_key-eq_iff c d = (key→SameResource c d, SameResource→key c d)
