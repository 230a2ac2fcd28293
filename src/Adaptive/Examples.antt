-- ===== src/Adaptive/Examples.antt =====
-- Tests of the trust model.
use arona_os.Prelude.{◌≡◌, refl, Text, text_eq, codes, false, ◌||◌, List, [], ◌∷◌, leb}
use arona_os.Adaptive.{
  immediate, hesitant, new, get, upsert, record_approval, declare_no_confirmation_needed,
  should_skip_confirmation,
}
use arona_os.Adaptive.History.{
  Response, approves, declares, respond, respond_all, declared, total_weight,
  should_skip_confirmation-history,
}

abbrev mail : Text
mail = codes "mail"

-- Four and a half approvals of mail, and a declaration on music.
abbrev responses : List Response
responses =
    approves 1 mail immediate
    ∷ approves 2 mail hesitant
    ∷ declares 3 (codes "music")
    ∷ approves 4 mail immediate
    ∷ approves 5 mail immediate
    ∷ approves 6 mail immediate
    ∷ []

asks : should_skip_confirmation mail (respond_all responses new) ≡ false
unfolding should_skip_confirmation respond_all respond record_approval
    declare_no_confirmation_needed upsert get text_eq
asks = refl

should_skip_confirmation-history_example :
    should_skip_confirmation mail (respond_all responses new)
    ≡ (declared mail responses || leb 10 (total_weight mail responses))
should_skip_confirmation-history_example = should_skip_confirmation-history mail responses
