-- ===== src/Orchestrator/PermissionsBridge.antt =====
-- arona_agy/arona_orchestrator/src/permissions_bridge.rs: the model proposes a template.
pub mod Settings
pub mod Capabilities
pub mod Asked
use Prim.Native.Nat.{min}
use mathlib.Core.List.{Memᴰ}
use arona_os.Prelude.{
  ◌^◌, ◌≡◌, ◌≢◌, ◌∙◌, ap, Text, codes, text_eq, ◌++◌, List, [], ◌∷◌, map, Option, some, Result, ok,
  err, ◌>>=◌, bind-eq-ok, ok_or, map_err, arith, if◌then◌else◌, filter_map, filter_map→Memᴰ,
  map→Memᴰ, All, All-of-Memᴰ, Memᴰ-cons, subst, sym, inl, inr,
}
use arona_os.Strings.{
  Platform, last_value, lines, split_once, split_whitespace, strip_prefix, trim, parse_unsigned,
}
use arona_os.Cognition.{CognitionBackend, new_config}
use arona_os.Guardian.{Uuid, DateTime}
use arona_os.Permissions.{
  Capability, file_system_access, network_port, process_execution, environment_variable, AccessMode,
  read_only, read_write, Protocol, tcp, udp, PermissionTemplate, new_proposed,
}
use arona_os.Orchestrator.Prompts.{template_prompt}
use arona_os.Orchestrator.KeyValue.{BridgeError, cognition, parse_failed, parse_key_value_lines}
use arona_os.Orchestrator.ArbitrationBridge.{no_reasoning, get_or_else}

abbrev failed : {A : Type 0} → Text → Result A BridgeError
failed message = err (parse_failed message)

-- `get(key)?` of the closure in `parse_capability`.
unfoldable pub get_attr : Text → Text → List (Text × Text) → Text → Result Text BridgeError
get_attr kind line attrs key =
    ok_or (last_value key attrs)
      (parse_failed (kind ++ (codes "に" ++ (key ++ (codes "がありません: '" ++ (line ++ codes "'"))))))

unfoldable pub mode_of : Text → Result AccessMode BridgeError
mode_of m =
    if text_eq m (codes "ReadOnly")
    then ok read_only
    else if text_eq m (codes "ReadWrite")
    then ok read_write
    else failed (codes "不明なmode: " ++ m)

unfoldable pub protocol_of : Text → Result Protocol BridgeError
protocol_of m =
    if text_eq m (codes "Tcp")
    then ok tcp
    else if text_eq m (codes "Udp")
    then ok udp
    else failed (codes "不明なprotocol: " ++ m)

unfoldable pub file_system_of : (Text → Result Text BridgeError) → Result Capability BridgeError
file_system_of get = do
  path_prefix ← get (codes "path")
  m ← get (codes "mode")
  mode ← mode_of m
  ok (file_system_access path_prefix mode)

unfoldable pub network_of : (Text → Result Text BridgeError) → Result Capability BridgeError
network_of get = do
  text ← get (codes "port")
  port ← ok_or (parse_unsigned (2 ^ 16) text) (parse_failed (codes "portが数値ではありません"))
  m ← get (codes "protocol")
  protocol ← protocol_of m
  ok (network_port port protocol)

unfoldable pub capability_of :
    Text → (Text → Result Text BridgeError) → Result Capability BridgeError
unfolding file_system_of network_of mode_of protocol_of
capability_of kind get =
    if text_eq kind (codes "FileSystemAccess")
    then file_system_of get
    else if text_eq kind (codes "NetworkPort")
    then network_of get
    else if text_eq kind (codes "ProcessExecution")
    then (do program ← get (codes "program"); ok (process_execution program))
    else if text_eq kind (codes "EnvironmentVariable")
    then (do name ← get (codes "name"); ok (environment_variable name))
    else failed (codes "不明なケイパビリティ種別: " ++ kind)

unfoldable pub parse_capability : Text → Result Capability BridgeError
unfolding capability_of get_attr split_whitespace split_once
parse_capability line = elim (split_whitespace line) [
  | [] ↦ failed (codes "空のCAPABILITY行です: '" ++ (line ++ codes "'"))
  | kind ∷ parts ↦ capability_of kind (get_attr kind line (filter_map (split_once b'=') parts))
]

-- `collect::<Result<_, _>>()`: the first error, or all values.
abbrev pub collect : {A : Type 0} → List (Result A BridgeError) → Result (List A) BridgeError
collect [] = ok []
collect (r ∷ rs) = do a ← r; rest ← collect rs; ok (a ∷ rest)

-- `line.trim().strip_prefix("CAPABILITY:")`
unfoldable pub capability_line : Text → Option Text
unfolding trim strip_prefix
capability_line line = strip_prefix (codes "CAPABILITY:") (trim line)

unfoldable pub capabilities_in : Text → Result (List Capability) BridgeError
unfolding capability_line lines trim
capabilities_in response =
    collect
      (map (λ rest. parse_capability (trim rest)) (filter_map capability_line (lines response)))

unfoldable pub require_some : List Capability → Result (List Capability) BridgeError
require_some [] = failed (codes "CAPABILITY行が1つも解釈できませんでした")
require_some (c ∷ cs) = ok (c ∷ cs)

unfoldable pub parse_response :
    Platform → Uuid → DateTime → Text → Result PermissionTemplate BridgeError
unfolding require_some
parse_response p id now response =
    let fields = parse_key_value_lines p response in
    do
      name ← ok_or (last_value (codes "NAME") fields) (parse_failed (codes "NAMEがありません"))
      parsed ← capabilities_in response
      capabilities ← require_some parsed
      ok (
          new_proposed id now name (get_or_else (last_value (codes "DESCRIPTION") fields) [])
            capabilities (get_or_else (last_value (codes "REASONING") fields) no_reasoning))

module _ {S : Type 0} (p : Platform) (backend : CognitionBackend S) where
  unfoldable pub propose_template :
      Uuid → DateTime → Text → S → S × Result PermissionTemplate BridgeError
  propose_template id now purpose_description s =
      let prompt = template_prompt purpose_description in
      let config = new_config (min (backend.max_supported_context s) 4096) 400 in
      let (s', response) = backend.generate prompt config s in
      (s', map_err cognition response >>= parse_response p id now)
