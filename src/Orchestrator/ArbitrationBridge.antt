-- ===== src/Orchestrator/ArbitrationBridge.antt =====
-- arona_agy/arona_orchestrator/src/arbitration_bridge.rs: the model decides who keeps a resource.
use arona_os.Prelude.{
  ◌≡◌, ap, ◌∙◌, Text, codes, text_eq, text_eq_iff, Option, none, some, Result, ok, err, ◌>>=◌,
  map_err, arith, if◌then◌else◌, Option-cases, inl, inr,
}
use Prim.Native.Nat.{min}
use arona_os.Strings.{Platform, last_value}
use arona_os.Cognition.{CognitionBackend, new_config}
use arona_os.Orchestrator.Prompts.{arbitration_prompt}
use arona_os.Orchestrator.KeyValue.{
  BridgeError, cognition, parse_failed, parse_key_value_lines, Says, last_value-Says,
}

pub data Winner : Type 0 where
  holder requester : Winner

pub record Arbitration : Type 0 where
  pub winner : Winner
  pub reasoning : Text

abbrev pub no_reasoning : Text
no_reasoning = codes "(思考コアが理由を出力しませんでした)"

abbrev pub get_or_else : Option Text → Text → Text
get_or_else none d = d
get_or_else (some v) d = v

abbrev winner_of : Option Text → Result Winner BridgeError
winner_of none = err (parse_failed (codes "WINNERフィールドがありません"))
winner_of (some w) =
    if text_eq w (codes "holder")
    then ok holder
    else if text_eq w (codes "requester")
    then ok requester
    else ok holder

unfoldable pub parse_response : Platform → Text → Result Arbitration BridgeError
parse_response p response =
    let fields = parse_key_value_lines p response in
    do
      winner ← winner_of (last_value (codes "WINNER") fields)
      ok (record {
        winner = winner;
        reasoning = get_or_else (last_value (codes "REASONING") fields) no_reasoning;
      })

module _ {S : Type 0} (p : Platform) (backend : CognitionBackend S) where
  unfoldable pub arbitrate : Text → Text → Text → S → S × Result Arbitration BridgeError
  arbitrate resource_description holder_purpose requester_purpose s =
      let prompt = arbitration_prompt resource_description holder_purpose requester_purpose in
      let config = new_config (min (backend.max_supported_context s) 4096) 200 in
      let (s', response) = backend.generate prompt config s in
      (s', map_err cognition response >>= parse_response p)

-- The requester wins only by an answer with a line `WINNER: requester`, up to decoration and the
-- case of the key: whatever else the model answers leaves the resource with its holder, or is an
-- error.
pub parse_response-requester :
    (p : Platform) (response : Text) (a : Arbitration)
    → parse_response p response ≡ ok a
    → a.winner ≡ requester
    → Says p response (codes "WINNER") (codes "requester")
unfolding parse_response
parse_response-requester p response a e w =
    elim (Option-cases (last_value (codes "WINNER") (parse_key_value_lines p response))) [
      | inl missing ↦ absurd (ground (arith, missing, e))
      | inr (v, said) ↦
          last_value-Says p response (codes "WINNER") (codes "requester")
            (said ∙ ap some (word v said))
    ]
  where
    word :
        (v : Text)
        → last_value (codes "WINNER") (parse_key_value_lines p response) ≡ some v
        → v ≡ codes "requester"
    word v said = (text_eq_iff v (codes "requester")).0 (ground (arith, said, e, w))
