-- ===== src/Orchestrator/GuardianBridge.antt =====
-- arona_agy/arona_orchestrator/src/guardian_bridge.rs: the model proposes a rule.
use Prim.Native.Nat.{min}
use arona_os.Prelude.{
  ◌^◌, ◌≡◌, refl, ◌∙◌, ap, ◌⊎◌, inl, inr, Bool-cases, Text, codes, text_eq, text_eq_iff, ◌++◌, Bool,
  true, false, Option, none, some, Result, ok, err, ◌>>=◌, bind-eq-ok, ok_or, map_err, arith,
  if◌then◌else◌,
}
use arona_os.Strings.{Platform, last_value, split_once, trim, parse_unsigned}
use arona_os.Cognition.{CognitionBackend, new_config}
use arona_os.Guardian.{
  Uuid, DateTime, ThreatCategory, ransomware, hardware_failure, data_corruption, system_corruption,
  DetectionMethod, signature, behavioral_anomaly, sensor_threshold, checksum_verification,
  event_log, abnormal_process_event, heartbeat, GuardianRule, new_proposed,
}
use arona_os.Orchestrator.Prompts.{rule_prompt}
use arona_os.Orchestrator.KeyValue.{
  BridgeError, cognition, parse_failed, parse_key_value_lines, Says, last_value-Says,
}
use arona_os.Orchestrator.ArbitrationBridge.{no_reasoning, get_or_else}

unknown_category : Platform → Option Text → BridgeError
unknown_category p other = parse_failed (codes "CATEGORYを解釈できませんでした: " ++ p.debug_field other)

unknown_method : Platform → Option Text → BridgeError
unknown_method p other = parse_failed (codes "METHODを解釈できませんでした: " ++ p.debug_field other)

bad_limit : Text → BridgeError
bad_limit limit = parse_failed (codes "しきい値を数値として解釈できません: " ++ limit)

bad_count : Text → BridgeError
bad_count detail = parse_failed (codes "Heartbeatの回数を数値として解釈できません: " ++ detail)

unfoldable pub category_of : Platform → Option Text → Result ThreatCategory BridgeError
unfolding unknown_category
category_of p none = err (unknown_category p none)
category_of p (some c) =
    if text_eq c (codes "Ransomware")
    then ok ransomware
    else if text_eq c (codes "HardwareFailure")
    then ok hardware_failure
    else if text_eq c (codes "DataCorruption")
    then ok data_corruption
    else if text_eq c (codes "SystemCorruption")
    then ok system_corruption
    else err (unknown_category p (some c))

unfoldable pub sensor_of : Platform → Text → Result DetectionMethod BridgeError
unfolding bad_limit
sensor_of p detail = do
  (name, text) ←
      ok_or (split_once b'=' detail) (parse_failed (codes "SensorThresholdはDETAILを'名前=値'形式にしてください"))
  limit ← ok_or (p.parse_f64 (trim text)) (bad_limit text)
  ok (sensor_threshold (trim name) limit)

unfoldable pub heartbeat_of : Text → Result DetectionMethod BridgeError
unfolding bad_count
heartbeat_of detail = do
  count ← ok_or (parse_unsigned (2 ^ 32) (trim detail)) (bad_count detail)
  ok (heartbeat count)

unfoldable pub method_of : Platform → Option Text → Text → Result DetectionMethod BridgeError
unfolding unknown_method
method_of p none detail = err (unknown_method p none)
method_of p (some m) detail =
    if text_eq m (codes "Signature")
    then ok (signature detail)
    else if text_eq m (codes "BehavioralAnomaly")
    then ok (behavioral_anomaly detail)
    else if text_eq m (codes "SensorThreshold")
    then sensor_of p detail
    else if text_eq m (codes "ChecksumVerification")
    then ok checksum_verification
    else if text_eq m (codes "EventLog")
    then ok (event_log detail)
    else if text_eq m (codes "AbnormalProcessEvent")
    then ok (abnormal_process_event detail)
    else if text_eq m (codes "Heartbeat")
    then heartbeat_of detail
    else err (unknown_method p (some m))

-- Anything but `false` protects.
unfoldable pub protected_of : Option Text → Bool
protected_of none = true
protected_of (some t) = if text_eq t (codes "false") then false else true

unfoldable pub parse_response : Platform → Uuid → DateTime → Text → Result GuardianRule BridgeError
parse_response p id now response =
    let fields = parse_key_value_lines p response in
    do
      category ← category_of p (last_value (codes "CATEGORY") fields)
      detail ← ok_or (last_value (codes "DETAIL") fields) (parse_failed (codes "DETAILがありません"))
      method ← method_of p (last_value (codes "METHOD") fields) detail
      ok (
          new_proposed id now category method (protected_of (last_value (codes "PROTECTED") fields))
            (get_or_else (last_value (codes "REASONING") fields) no_reasoning))

module _ {S : Type 0} (p : Platform) (backend : CognitionBackend S) where
  unfoldable pub propose_rule : Uuid → DateTime → Text → S → S × Result GuardianRule BridgeError
  propose_rule id now situation_description s =
      let prompt = rule_prompt situation_description in
      let config = new_config (min (backend.max_supported_context s) 4096) 300 in
      let (s', response) = backend.generate prompt config s in
      (s', map_err cognition response >>= parse_response p id now)

-- What protection an answer asks for: none only where it says `false`.
protected_of-cases :
    (o : Option Text)
    → (protected_of o ≡ true) ⊎ ((protected_of o ≡ false) × (o ≡ some (codes "false")))
unfolding protected_of
protected_of-cases none = inl refl
protected_of-cases (some t) = elim (Bool-cases (text_eq t (codes "false"))) [
  | inl same ↦ inr (rw (same, protected_of) refl, ap some ((text_eq_iff t (codes "false")).0 same))
  | inr other ↦ inl (rw (other, protected_of) refl)
]

-- Every rule that the model proposes, protected or not, is in force, without false positives and
-- under the id given. It is protected, or the answer has a line `PROTECTED: false`, up to decoration
-- and the case of the key: an answer that says nothing or anything else of protection gives a
-- protected rule.
pub parse_response-unprotected :
    (p : Platform) (id : Uuid) (now : DateTime) (response : Text) (rule : GuardianRule)
    → parse_response p id now response ≡ ok rule
    → (rule.active ≡ true)
      × (rule.false_positive_count ≡ 0)
      × (rule.id ≡ id)
      × ((rule.protected ≡ true)
          ⊎ ((rule.protected ≡ false) × Says p response (codes "PROTECTED") (codes "false")))
unfolding parse_response
parse_response-unprotected p id now response rule e =
    let fields = parse_key_value_lines p response in
    let (category, _, e₁) = bind-eq-ok (category_of p (last_value (codes "CATEGORY") fields)) _ e in
    let (detail, _, e₂) = bind-eq-ok (ok_or (last_value (codes "DETAIL") fields) _) _ e₁ in
    let (method, _, e₃) =
      bind-eq-ok (method_of p (last_value (codes "METHOD") fields) detail) _ e₂ in
    let said = last_value (codes "PROTECTED") fields in
    let is : rule.protected ≡ protected_of said = ground (arith, e₃) in
    (
      ground (arith, e₃),
      ground (arith, e₃),
      ground (arith, e₃),
      elim (protected_of-cases said) [
        | inl safe ↦ inl (is ∙ safe)
        | inr (free, says) ↦
            inr (is ∙ free, last_value-Says p response (codes "PROTECTED") (codes "false") says)
      ],
    )
