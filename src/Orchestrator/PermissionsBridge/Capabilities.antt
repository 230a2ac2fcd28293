-- ===== src/Orchestrator/PermissionsBridge/Capabilities.antt =====
-- What `parse_capability` of arona_agy/arona_orchestrator/src/permissions_bridge.rs reads from the
-- words of a line.
use arona_os.Prelude.{
  ◌^◌, ◌≡◌, refl, sym, ap, ◌∙◌, subst, inl, inr, Text, codes, text_eq, text_eq_iff, List, [], ◌∷◌,
  ◌++◌, filter_map, some, Bool-cases, Result, ok, err, ◌>>=◌, bind-eq-ok, ok_or, ok_or-eq-ok,
}
use arona_os.Strings.{last_value, split_once, split_whitespace, parse_unsigned}
use arona_os.Permissions.{
  Capability, file_system_access, network_port, process_execution, environment_variable, AccessMode,
  read_only, read_write, Protocol, tcp, udp,
}
use arona_os.Orchestrator.KeyValue.{BridgeError, parse_failed}
use arona_os.Orchestrator.PermissionsBridge.{
  get_attr, mode_of, protocol_of, file_system_of, network_of, capability_of, parse_capability,
}
use arona_os.Orchestrator.PermissionsBridge.Settings.{Sets, IsPlain, last_value-Sets}

-- The words as they stand in an answer.
abbrev mode_word : AccessMode → Text
mode_word read_only = codes "ReadOnly"
mode_word read_write = codes "ReadWrite"

abbrev protocol_word : Protocol → Text
protocol_word tcp = codes "Tcp"
protocol_word udp = codes "Udp"

-- The words name the capability: its kind first, and a setting for each of its parts.
abbrev pub Names : List Text → Capability → Type 0
Names [] c = ⊥
Names (kind ∷ words) (file_system_access path_prefix mode) =
    (kind ≡ codes "FileSystemAccess")
    × Sets (codes "path") path_prefix words
    × Sets (codes "mode") (mode_word mode) words
Names (kind ∷ words) (network_port port protocol) =
    (kind ≡ codes "NetworkPort")
    × ((text : Text) × Sets (codes "port") text words × (parse_unsigned (2 ^ 16) text ≡ some port))
    × Sets (codes "protocol") (protocol_word protocol) words
Names (kind ∷ words) (process_execution program) =
    (kind ≡ codes "ProcessExecution") × Sets (codes "program") program words
Names (kind ∷ words) (environment_variable name) =
    (kind ≡ codes "EnvironmentVariable") × Sets (codes "name") name words

-- A setting that `get` finds.
get_attr-Sets :
    (kind line key value : Text) (words : List Text)
    → IsPlain b'=' key
    → get_attr kind line (filter_map (split_once b'=') words) key ≡ ok value
    → Sets key value words
unfolding get_attr
get_attr-Sets kind line key value words plain e =
    last_value-Sets key value words plain
      (ok_or-eq-ok (last_value key (filter_map (split_once b'=') words)) _ e)

mode_of-eq-ok : (m : Text) (mode : AccessMode) → mode_of m ≡ ok mode → m ≡ mode_word mode
unfolding mode_of
mode_of-eq-ok m mode e = elim (Bool-cases (text_eq m (codes "ReadOnly"))) [
  | inl only ↦
      let is : mode_of m ≡ ok read_only = rw (only, mode_of) refl in
      let q : read_only ≡ mode = cc (is, e) in
      (text_eq_iff m (codes "ReadOnly")).0 only ∙ ap mode_word q
  | inr not_only ↦ elim (Bool-cases (text_eq m (codes "ReadWrite"))) [
    | inl both ↦
        let is : mode_of m ≡ ok read_write = rw (not_only, mode_of) (rw both refl) in
        let q : read_write ≡ mode = cc (is, e) in
        (text_eq_iff m (codes "ReadWrite")).0 both ∙ ap mode_word q
    | inr neither ↦
        let is : mode_of m ≡ err (parse_failed (codes "不明なmode: " ++ m)) =
          rw (not_only, mode_of) (rw neither refl) in
        absurd (cc (is, e))
  ]
]

protocol_of-eq-ok :
    (m : Text) (protocol : Protocol) → protocol_of m ≡ ok protocol → m ≡ protocol_word protocol
unfolding protocol_of
protocol_of-eq-ok m protocol e = elim (Bool-cases (text_eq m (codes "Tcp"))) [
  | inl is_tcp ↦
      let is : protocol_of m ≡ ok tcp = rw (is_tcp, protocol_of) refl in
      let q : tcp ≡ protocol = cc (is, e) in
      (text_eq_iff m (codes "Tcp")).0 is_tcp ∙ ap protocol_word q
  | inr not_tcp ↦ elim (Bool-cases (text_eq m (codes "Udp"))) [
    | inl is_udp ↦
        let is : protocol_of m ≡ ok udp = rw (not_tcp, protocol_of) (rw is_udp refl) in
        let q : udp ≡ protocol = cc (is, e) in
        (text_eq_iff m (codes "Udp")).0 is_udp ∙ ap protocol_word q
    | inr neither ↦
        let is : protocol_of m ≡ err (parse_failed (codes "不明なprotocol: " ++ m)) =
          rw (not_tcp, protocol_of) (rw neither refl) in
        absurd (cc (is, e))
  ]
]

-- The keys have no `=`.
path-IsPlain : IsPlain b'=' (codes "path")
path-IsPlain = (refl, (refl, (refl, (refl, tt))))

mode-IsPlain : IsPlain b'=' (codes "mode")
mode-IsPlain = (refl, (refl, (refl, (refl, tt))))

port-IsPlain : IsPlain b'=' (codes "port")
port-IsPlain = (refl, (refl, (refl, (refl, tt))))

protocol-IsPlain : IsPlain b'=' (codes "protocol")
protocol-IsPlain = (refl, (refl, (refl, (refl, (refl, (refl, (refl, (refl, tt))))))))

program-IsPlain : IsPlain b'=' (codes "program")
program-IsPlain = (refl, (refl, (refl, (refl, (refl, (refl, (refl, tt)))))))

name-IsPlain : IsPlain b'=' (codes "name")
name-IsPlain = (refl, (refl, (refl, (refl, tt))))

ok-injective : {a b : Capability} → ◌≡◌ {A = Result Capability BridgeError} (ok a) (ok b) → a ≡ b
ok-injective e = cc

module _ (kind line : Text) (words : List Text) (c : Capability) where
  abbrev get : Text → Result Text BridgeError
  get = get_attr kind line (filter_map (split_once b'=') words)

  file_system_of-Names :
      kind ≡ codes "FileSystemAccess" → file_system_of get ≡ ok c → Names (kind ∷ words) c
  unfolding file_system_of
  file_system_of-Names is e =
      let (path_prefix, p, e₁) = bind-eq-ok (get (codes "path")) _ e in
      let (m, q, e₂) = bind-eq-ok (get (codes "mode")) _ e₁ in
      let (mode, r, e₃) = bind-eq-ok (mode_of m) _ e₂ in
      let set = get_attr-Sets kind line (codes "mode") m words mode-IsPlain q in
      subst (Names (kind ∷ words)) (ok-injective e₃) (
        is,
        get_attr-Sets kind line (codes "path") path_prefix words path-IsPlain p,
        subst (λ w. Sets (codes "mode") w words) (mode_of-eq-ok m mode r) set,
      )

  network_of-Names : kind ≡ codes "NetworkPort" → network_of get ≡ ok c → Names (kind ∷ words) c
  unfolding network_of
  network_of-Names is e =
      let (text, p, e₁) = bind-eq-ok (get (codes "port")) _ e in
      let (port, n, e₂) = bind-eq-ok (ok_or (parse_unsigned (2 ^ 16) text) _) _ e₁ in
      let (m, q, e₃) = bind-eq-ok (get (codes "protocol")) _ e₂ in
      let (protocol, r, e₄) = bind-eq-ok (protocol_of m) _ e₃ in
      let set = get_attr-Sets kind line (codes "protocol") m words protocol-IsPlain q in
      subst (Names (kind ∷ words)) (ok-injective e₄) (
        is,
        (
          text,
          get_attr-Sets kind line (codes "port") text words port-IsPlain p,
          ok_or-eq-ok (parse_unsigned (2 ^ 16) text) _ n,
        ),
        subst (λ w. Sets (codes "protocol") w words) (protocol_of-eq-ok m protocol r) set,
      )

  capability_of-Names : capability_of kind get ≡ ok c → Names (kind ∷ words) c
  unfolding capability_of
  capability_of-Names e = elim (Bool-cases (text_eq kind (codes "FileSystemAccess"))) [
    | inl fs ↦
        let at : capability_of kind get ≡ file_system_of get = rw (fs, capability_of) refl in
        file_system_of-Names ((text_eq_iff kind (codes "FileSystemAccess")).0 fs) (sym at ∙ e)
    | inr not_fs ↦ elim (Bool-cases (text_eq kind (codes "NetworkPort"))) [
      | inl net ↦
          let at : capability_of kind get ≡ network_of get =
            rw (not_fs, capability_of) (rw net refl) in
          network_of-Names ((text_eq_iff kind (codes "NetworkPort")).0 net) (sym at ∙ e)
      | inr not_net ↦ elim (Bool-cases (text_eq kind (codes "ProcessExecution"))) [
        | inl proc ↦
            let at : capability_of kind get
                ≡ (do program ← get (codes "program"); ok (process_execution program)) =
              rw (not_fs, capability_of) (rw not_net (rw proc refl)) in
            let (program, p, e₁) = bind-eq-ok (get (codes "program")) _ (sym at ∙ e) in
            subst (Names (kind ∷ words)) (ok-injective e₁) (
              (text_eq_iff kind (codes "ProcessExecution")).0 proc,
              get_attr-Sets kind line (codes "program") program words program-IsPlain p,
            )
        | inr not_proc ↦ elim (Bool-cases (text_eq kind (codes "EnvironmentVariable"))) [
          | inl env ↦
              let at : capability_of kind get
                  ≡ (do name ← get (codes "name"); ok (environment_variable name)) =
                rw (not_fs, capability_of) (rw not_net (rw not_proc (rw env refl))) in
              let (name, p, e₁) = bind-eq-ok (get (codes "name")) _ (sym at ∙ e) in
              subst (Names (kind ∷ words)) (ok-injective e₁) (
                (text_eq_iff kind (codes "EnvironmentVariable")).0 env,
                get_attr-Sets kind line (codes "name") name words name-IsPlain p,
              )
          | inr unknown ↦
              let at : capability_of kind get
                  ≡ err (parse_failed (codes "不明なケイパビリティ種別: " ++ kind)) =
                rw (not_fs, capability_of) (rw not_net (rw not_proc (rw unknown refl))) in
              absurd (cc (at, e))
        ]
      ]
    ]
  ]

pub parse_capability-Names :
    (line : Text) (c : Capability) → parse_capability line ≡ ok c → Names (split_whitespace line) c
unfolding parse_capability
parse_capability-Names line c e = named (split_whitespace line) e
  where
    named :
        (words : List Text)
        → elim words as (λ _. Result Capability BridgeError) [
          | [] ↦ err (parse_failed (codes "空のCAPABILITY行です: '" ++ (line ++ codes "'")))
          | kind ∷ parts ↦
              capability_of kind (get_attr kind line (filter_map (split_once b'=') parts))
        ]
          ≡ ok c
        → Names words c
    named [] h = absurd (cc h)
    named (kind ∷ parts) h = capability_of-Names kind line parts c h
