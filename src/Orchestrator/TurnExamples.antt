-- ===== src/Orchestrator/TurnExamples.antt =====
-- Tests of a turn: the guardian stops the writing of a locked file.
use mathlib.Core.List.{Memᴰ}
use arona_os.Prelude.{ℕ, suc, ◌≡◌, refl, Text, F64, codes, true, false, [], ◌∷◌, ok}
use arona_os.Cognition.{CognitionBackend}
use arona_os.Guardian.{GuardianRule, new_predefined, ransomware, signature}
use arona_os.Guardian.Engine.{GuardianEngine}
use arona_os.Guardian.Fires.{known_pattern}
use arona_os.Permissions.{
  Capability, file_system_access, capability_partial_eq, read_write, PermissionTemplate, predefined,
}
use arona_os.Permissions.Grant.{PurposeGrant, expand, not_in_template}
use arona_os.Permissions.Grant
use arona_os.Adaptive.{TrustModel}
use arona_os.Memory.Search.{Tokenizer}
use arona_os.Memory.Examples.{sled, serde, ar, Entries, with_tea}
use arona_os.Orchestrator.Turn.{World, handle_permission_request}
use arona_os.Orchestrator.TurnSafety.{
  Justified, Ends, IsBlocked, handle_permission_request-grant, handle_permission_request-IsBlocked,
}

abbrev tokenizer : Tokenizer
tokenizer = record { Failure = Unit; surfaces = λ s. ok (s ∷ []); to_lowercase = λ s. s }

abbrev model : CognitionBackend ℕ
model = record {
  generate = λ _ _ calls. (suc calls, ok (codes "はい"));
  max_supported_context = λ _. 8192;
}

abbrev locked_file : Capability
locked_file = file_system_access (codes "a.locked") read_write

abbrev template : PermissionTemplate
template = record {
  id = 1;
  name = codes "files";
  description = [];
  full_capabilities = locked_file ∷ [];
  origin = predefined;
  created_at = 0;
}

abbrev world : World Entries ℕ
world = record {
  database = with_tea;
  backend = 0;
  grant = Grant.new 2 0 (codes "write") template [];
}

abbrev trusting : TrustModel
trusting = record {
  scores =
      (
        codes "files",
        record {
          category = codes "files";
          weighted_approval_count = 0;
          explicitly_confirmed = true;
          last_updated = 0;
        },
      )
      ∷ [];
}

abbrev rule : GuardianRule
rule = new_predefined 6 0 ransomware (signature (codes ".locked")) false

abbrev guardian : GuardianEngine
guardian = record { rules = rule ∷ [] }

abbrev show : F64 → Text
show _ = codes "?"

abbrev debug : Capability → Text
debug _ = codes "?"

handle_permission_request-grant_example :
    Justified 4 guardian trusting template locked_file
      (codes "files")
      world.grant
      (handle_permission_request sled serde tokenizer ar model show debug
        (λ _. 2)
        (λ _. 3)
        4
        guardian
        trusting
        template
        locked_file
        (codes "files")
        (codes "write it")
        world).0.grant
handle_permission_request-grant_example =
    handle_permission_request-grant sled serde tokenizer ar model show debug 4 trusting template
      locked_file (codes "files") guardian (λ _. 3) (λ _. 2) (codes "write it") world

handle_permission_request-IsBlocked_example :
    ((handle_permission_request sled serde tokenizer ar model show debug
        (λ _. 2)
        (λ _. 3)
        4
        guardian
        trusting
        template
        locked_file
        (codes "files")
        (codes "write it")
        world).0.grant
      ≡ world.grant)
    × Ends
        (handle_permission_request sled serde tokenizer ar model show debug
          (λ _. 2)
          (λ _. 3)
          4
          guardian
          trusting
          template
          locked_file
          (codes "files")
          (codes "write it")
          world).1
        (IsBlocked guardian locked_file)
handle_permission_request-IsBlocked_example =
    handle_permission_request-IsBlocked sled serde tokenizer ar model show debug 4 trusting template
      locked_file (codes "files") guardian (λ _. 3) (λ _. 2) (codes "write it") world rule
      (Memᴰ.head refl) (refl, known_pattern (codes "a", [], refl))
