-- ===== src/Orchestrator/PermissionsBridge/Asked.antt =====
-- Which capabilities of an answer `parse_response` of
-- arona_agy/arona_orchestrator/src/permissions_bridge.rs puts into a template.
use arona_os.Prelude.{
  ◌≡◌, ◌≢◌, refl, sym, ap, ◌∙◌, subst, inl, inr, Text, codes, nat_eq, true, List, [], ◌∷◌, ◌++◌,
  map, filter_map, filter_map-none, filter_map-some, none, some, Option-cases, Bool-cases, ok,
  bind-eq-ok, ok_or, ok_or-eq-ok, arith,
}
use arona_os.Strings.{Platform, last_value, lines, split_whitespace, strip_prefix, trim}
use arona_os.Guardian.{Uuid, DateTime}
use arona_os.Permissions.{Capability, PermissionTemplate}
use arona_os.Orchestrator.KeyValue.{parse_key_value_lines, Says, last_value-Says}
use arona_os.Orchestrator.PermissionsBridge.{
  parse_capability, collect, capability_line, capabilities_in, require_some, parse_response,
}
use arona_os.Orchestrator.PermissionsBridge.Capabilities.{Names, parse_capability-Names}

-- The line begins with `CAPABILITY:`, up to white space, and the words behind it name the
-- capability.
pub record AsksFor (line : Text) (c : Capability) : Type 0 where
  pub rest : Text
  pub begins : trim line ≡ codes "CAPABILITY:" ++ rest
  pub names : Names (split_whitespace (trim rest)) c

-- The lines that begin so ask for these capabilities, one each and in this order.
pub data Asked : List Text → List Capability → Type 0 where
  no_line : Asked [] []
  other_line :
      (line : Text) (ls : List Text) (cs : List Capability)
      → ((rest : Text) → trim line ≢ codes "CAPABILITY:" ++ rest)
      → Asked ls cs
      → Asked (line ∷ ls) cs
  asking_line :
      (line : Text) (ls : List Text) (c : Capability) (cs : List Capability)
      → AsksFor line c
      → Asked ls cs
      → Asked (line ∷ ls) (c ∷ cs)

strip_prefix-eq-some :
    (prefix s rest : Text) → strip_prefix prefix s ≡ some rest → s ≡ prefix ++ rest
unfolding strip_prefix
strip_prefix-eq-some [] s rest e = cc e
strip_prefix-eq-some (p ∷ ps) [] rest e = absurd (cc e)
strip_prefix-eq-some (p ∷ ps) (c ∷ cs) rest e = elim (Bool-cases (nat_eq p c)) [
  | inl same ↦
      let on : strip_prefix (p ∷ ps) (c ∷ cs) ≡ strip_prefix ps cs = rw (same, strip_prefix) refl in
      let is : p ≡ c = ground (arith, same) in cc (is, strip_prefix-eq-some ps cs rest (sym on ∙ e))
  | inr other ↦
      let nothing : strip_prefix (p ∷ ps) (c ∷ cs) ≡ none = rw (other, strip_prefix) refl in
      absurd (cc (nothing, e))
]

strip_prefix-append : (prefix rest : Text) → strip_prefix prefix (prefix ++ rest) ≡ some rest
unfolding strip_prefix
strip_prefix-append [] rest = refl
strip_prefix-append (p ∷ ps) rest =
    let same : nat_eq p p ≡ true = ground arith in
    rw (same, strip_prefix) (strip_prefix-append ps rest)

-- The capabilities of the lines, and one for each that begins with `CAPABILITY:`.
collect-Asked :
    (ls : List Text) (cs : List Capability)
    → collect (map (λ rest. parse_capability (trim rest)) (filter_map capability_line ls)) ≡ ok cs
    → Asked ls cs
unfolding capability_line
collect-Asked [] cs e = let q : [] ≡ cs = cc e in subst (Asked []) q no_line
collect-Asked (l ∷ ls) cs e = elim (Option-cases (capability_line l)) [
  | inl other ↦
      let rest =
        ap (λ rs. collect (map (λ rest. parse_capability (trim rest)) rs))
          (sym (filter_map-none capability_line l ls other))
        ∙ e in
      other_line l ls cs
        (λ rest h. absurd (
          cc (
            other,
            ap (strip_prefix (codes "CAPABILITY:")) h,
            strip_prefix-append (codes "CAPABILITY:") rest,
          )))
        (collect-Asked ls cs rest)
  | inr (asked, begins) ↦
      let both =
        ap (λ rs. collect (map (λ rest. parse_capability (trim rest)) rs))
          (sym (filter_map-some capability_line l ls asked begins))
        ∙ e in
      let (c, first, e₁) = bind-eq-ok (parse_capability (trim asked)) _ both in
      let results = map (λ rest. parse_capability (trim rest)) (filter_map capability_line ls) in
      let (later, rest, e₂) = bind-eq-ok (collect results) _ e₁ in
      let q : c ∷ later ≡ cs = cc e₂ in
      let asks : AsksFor l c = record {
        rest = asked;
        begins = strip_prefix-eq-some (codes "CAPABILITY:") (trim l) asked begins;
        names = parse_capability-Names (trim asked) c first;
      } in
      subst (Asked (l ∷ ls)) q (asking_line l ls c later asks (collect-Asked ls later rest))
]

require_some-eq-ok : (cs ds : List Capability) → require_some cs ≡ ok ds → (cs ≡ ds) × (ds ≢ [])
unfolding require_some
require_some-eq-ok [] ds e = absurd (cc)
require_some-eq-ok (c ∷ cs) ds e = (cc, λ p. cc)

-- A template that the model proposes has the name that the answer gives in a line `NAME:`, up to
-- decoration and the case of the key, and at least one capability. Its capabilities are those that
-- the answer's `CAPABILITY:` lines name, one for each such line and in their order: the first word
-- of the line is the kind, and the last word that sets a part of the capability has its value, the
-- port as the decimal number that `str::parse` reads.
pub parse_response-Asked :
    (p : Platform) (id : Uuid) (now : DateTime) (response : Text) (t : PermissionTemplate)
    → parse_response p id now response ≡ ok t
    → Says p response (codes "NAME") t.name
      × (t.full_capabilities ≢ [])
      × Asked (lines response) t.full_capabilities
unfolding parse_response capabilities_in
parse_response-Asked p id now response t e =
    let fields = parse_key_value_lines p response in
    let (name, n, e₁) = bind-eq-ok (ok_or (last_value (codes "NAME") fields) _) _ e in
    let (parsed, read, e₂) = bind-eq-ok (capabilities_in response) _ e₁ in
    let (cs, required, e₃) = bind-eq-ok (require_some parsed) _ e₂ in
    let (same, some_) = require_some-eq-ok parsed cs required in
    let full : t.full_capabilities ≡ cs = ground (arith, e₃) in
    let named : t.name ≡ name = ground (arith, e₃) in
    (
      last_value-Says p response (codes "NAME") t.name
          (ok_or-eq-ok (last_value (codes "NAME") fields) _ n ∙ ap some (sym named)),
      λ q. some_ (sym full ∙ q),
      collect-Asked (lines response) t.full_capabilities (read ∙ ap ok (same ∙ sym full)),
    )
