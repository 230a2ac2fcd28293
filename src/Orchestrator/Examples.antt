-- ===== src/Orchestrator/Examples.antt =====
-- Tests of the orchestrator, with a model that always gives the same answer.
use arona_os.Prelude.{
  ℕ, suc, ◌⊎◌, ◌≡◌, ◌≢◌, refl, Text, text_eq, codes, true, false, [], ◌∷◌, none, ok,
  text_partial_eq,
}
use arona_os.Strings.{
  Platform, lines, split_once, trim, trim_matches, trim_start_matches, is_whitespace, strip_prefix,
  split_whitespace, words_from, parse_unsigned, digits_value, last_value,
}
use arona_os.Cognition.{CognitionBackend}
use arona_os.Guardian.{GuardianRule, new_proposed, ransomware, signature}
use arona_os.Permissions.{
  file_system_access, network_port, capability_partial_eq, read_only, tcp, PermissionTemplate,
  proposed_by_cognition_core,
}
use arona_os.Permissions.Conflict.{Conflict}
use arona_os.Orchestrator.KeyValue.{parse_key_value_lines, is_decoration, trim_deco, Says}
use arona_os.Orchestrator.ArbitrationBridge
use arona_os.Orchestrator.GuardianBridge
use arona_os.Orchestrator.PermissionsBridge
use arona_os.Orchestrator.ArbitrationBridge.{
  Arbitration, requester, no_reasoning, parse_response-requester,
}
use arona_os.Orchestrator.GuardianBridge.{
  category_of, method_of, protected_of, parse_response-unprotected,
}
use arona_os.Orchestrator.PermissionsBridge.{
  get_attr, mode_of, protocol_of, file_system_of, network_of, capability_of, parse_capability,
  capability_line, capabilities_in, require_some, propose_template,
}
use arona_os.Orchestrator.PermissionsBridge.Asked.{Asked, parse_response-Asked}
use arona_os.Orchestrator.CatalogBridge.{
  is_ascii_alphanumeric, to_ascii_lowercase, keywords_from, extract_ascii_keywords, keyword_match,
}

abbrev platform : Platform
platform = record {
  to_uppercase = λ s. s;
  parse_f64 = λ _. none;
  show_f64 = λ _. codes "?";
  debug_field = λ _. codes "?";
}

abbrev model : CognitionBackend ℕ
model = record {
  generate = λ _ _ calls. (suc calls, ok (codes "WINNER: requester"));
  max_supported_context = λ _. 8192;
}

abbrev said : Text
said = codes "- WINNER: requester"

said_requester :
    ArbitrationBridge.parse_response platform said
    ≡ ok (record { winner = requester; reasoning = no_reasoning })
unfolding ArbitrationBridge.parse_response parse_key_value_lines lines split_once trim_deco
    trim_matches trim_start_matches is_decoration is_whitespace last_value text_eq
said_requester = refl

abbrev conflict : Conflict
conflict = record {
  resource_key = codes "net:Tcp:80";
  holder_grant_id = 1;
  requester_grant_id = 2;
  capability = network_port 80 tcp;
}

abbrev proposal : Text
proposal = codes "CATEGORY: Ransomware\nMETHOD: Signature\nDETAIL: .crypt\n**PROTECTED**: false\n"

abbrev proposed_rule : GuardianRule
proposed_rule = new_proposed 9 3 ransomware (signature (codes ".crypt")) false no_reasoning

parse_proposal : GuardianBridge.parse_response platform 9 3 proposal ≡ ok proposed_rule
unfolding GuardianBridge.parse_response category_of method_of protected_of parse_key_value_lines
    lines split_once trim_deco trim_matches trim_start_matches is_decoration is_whitespace
    last_value text_eq
parse_proposal = refl

parse_response-unprotected_example :
    (proposed_rule.active ≡ true)
    × (proposed_rule.false_positive_count ≡ 0)
    × (proposed_rule.id ≡ 9)
    × ((proposed_rule.protected ≡ true)
        ⊎ ((proposed_rule.protected ≡ false)
            × Says platform proposal (codes "PROTECTED") (codes "false")))
parse_response-unprotected_example =
    parse_response-unprotected platform 9 3 proposal proposed_rule parse_proposal

abbrev template_answer : Text
template_answer =
    codes
      "NAME: web\nCAPABILITY: NetworkPort port=80 protocol=Tcp\nCAPABILITY: FileSystemAccess path=/srv mode=ReadOnly"

abbrev web : PermissionTemplate
web = record {
  id = 4;
  name = codes "web";
  description = [];
  full_capabilities = network_port 80 tcp ∷ file_system_access (codes "/srv") read_only ∷ [];
  origin = proposed_by_cognition_core no_reasoning;
  created_at = 3;
}

parse_template_answer : PermissionsBridge.parse_response platform 4 3 template_answer ≡ ok web
unfolding PermissionsBridge.parse_response parse_key_value_lines lines split_once trim_deco
    trim_matches trim_start_matches is_decoration is_whitespace last_value text_eq capabilities_in
    capability_line trim strip_prefix parse_capability split_whitespace words_from capability_of
    get_attr file_system_of network_of mode_of protocol_of parse_unsigned digits_value require_some
parse_template_answer = refl

parse_response-Asked_example :
    Says platform template_answer (codes "NAME") (codes "web")
    × (web.full_capabilities ≢ [])
    × Asked (lines template_answer) web.full_capabilities
parse_response-Asked_example =
    parse_response-Asked platform 4 3 template_answer web parse_template_answer

match_web : keyword_match (codes "a web server") web ≡ true
unfolding keyword_match extract_ascii_keywords keywords_from is_ascii_alphanumeric
    to_ascii_lowercase text_eq
match_web = refl
