-- ===== src/Adaptive/History.antt =====
-- The model's answer as a function of the whole history of the user's responses.
use arona_os.Prelude.{
  ℕ, ◌+◌, ◌≡◌, refl, ◌∙◌, Text, text_eq, text_eq_iff, Bool, false, ◌||◌, List, [], ◌∷◌, Option,
  none, some, leb, arith, if◌then◌else◌,
}
use arona_os.Guardian.{DateTime}
use arona_os.Adaptive.{
  ApprovalManner, weight, TrustScore, new_score, TrustModel, new, get, upsert, approve, declare,
  record_approval, declare_no_confirmation_needed, should_skip_confirmation,
}

get-upsert :
    (k j : Text) (d : TrustScore) (f : TrustScore → TrustScore) (m : List (Text × TrustScore))
    → get j (upsert k d f m)
      ≡ (if text_eq k j then some (f (elim (get k m) [ some v ↦ v | none ↦ d ])) else get j m)
unfolding get upsert
get-upsert k j d f [] = refl
get-upsert k j d f ((i, v) ∷ m) =
    ground (arith, text_eq_iff k j, text_eq_iff i k, text_eq_iff i j, get-upsert k j d f m)

-- What the user can do.
pub data Response : Type 0 where
  approves : DateTime → Text → ApprovalManner → Response
  declares : DateTime → Text → Response

unfoldable pub respond : Response → TrustModel → TrustModel
respond (approves now category manner) model = record_approval now category manner model
respond (declares now category) model = declare_no_confirmation_needed now category model

unfoldable pub respond_all : List Response → TrustModel → TrustModel
respond_all [] model = model
respond_all (r ∷ rs) model = respond_all rs (respond r model)

-- The halves that the responses add up to for a category, and whether they declare it safe.
abbrev pub total_weight : Text → List Response → ℕ
total_weight c [] = 0
total_weight c (approves _ category manner ∷ rs) =
    (if text_eq category c then weight manner else 0) + total_weight c rs
total_weight c (declares _ _ ∷ rs) = total_weight c rs

abbrev pub declared : Text → List Response → Bool
declared c [] = false
declared c (approves _ _ _ ∷ rs) = declared c rs
declared c (declares _ category ∷ rs) = text_eq category c || declared c rs

abbrev weight_in : Option TrustScore → ℕ
weight_in none = 0
weight_in (some s) = s.weighted_approval_count

abbrev declared_in : Option TrustScore → Bool
declared_in none = false
declared_in (some s) = s.explicitly_confirmed

skip_of_score :
    (c : Text) (m : TrustModel)
    → should_skip_confirmation c m
      ≡ (declared_in (get c m.scores) || leb 10 (weight_in (get c m.scores)))
unfolding should_skip_confirmation
skip_of_score c m = ground arith

weight_in-respond :
    (c : Text) (r : Response) (m : TrustModel)
    → weight_in (get c (respond r m).scores) ≡ weight_in (get c m.scores) + total_weight c (r ∷ [])
unfolding respond record_approval declare_no_confirmation_needed
weight_in-respond c (approves now k a) m =
    ground (arith, get-upsert k c (new_score now k) (approve now a) m.scores, text_eq_iff k c)
weight_in-respond c (declares now k) m =
    ground (arith, get-upsert k c (new_score now k) (declare now) m.scores, text_eq_iff k c)

declared_in-respond :
    (c : Text) (r : Response) (m : TrustModel)
    → declared_in (get c (respond r m).scores)
      ≡ (declared_in (get c m.scores) || declared c (r ∷ []))
unfolding respond record_approval declare_no_confirmation_needed
declared_in-respond c (approves now k a) m =
    ground (arith, get-upsert k c (new_score now k) (approve now a) m.scores, text_eq_iff k c)
declared_in-respond c (declares now k) m =
    ground (arith, get-upsert k c (new_score now k) (declare now) m.scores, text_eq_iff k c)

weight_in-respond_all :
    (c : Text) (rs : List Response) (m : TrustModel)
    → weight_in (get c (respond_all rs m).scores) ≡ weight_in (get c m.scores) + total_weight c rs
unfolding respond_all
weight_in-respond_all c [] m = omega arith
weight_in-respond_all c (r ∷ rs) m =
    weight_in-respond_all c rs (respond r m) ∙ omega (arith, weight_in-respond c r m, split r)
  where
    split : (x : Response) → total_weight c (x ∷ rs) ≡ total_weight c (x ∷ []) + total_weight c rs
    split (approves now k a) = omega arith
    split (declares now k) = omega arith

declared_in-respond_all :
    (c : Text) (rs : List Response) (m : TrustModel)
    → declared_in (get c (respond_all rs m).scores)
      ≡ (declared_in (get c m.scores) || declared c rs)
unfolding respond_all
declared_in-respond_all c [] m = ground arith
declared_in-respond_all c (r ∷ rs) m =
    declared_in-respond_all c rs (respond r m) ∙ step r (declared_in-respond c r m)
  where
    step :
        (x : Response)
        → declared_in (get c (respond x m).scores)
          ≡ (declared_in (get c m.scores) || declared c (x ∷ []))
        → (declared_in (get c (respond x m).scores) || declared c rs)
          ≡ (declared_in (get c m.scores) || declared c (x ∷ rs))
    step (approves now k a) h = ground arith
    step (declares now k) h = ground arith

-- Confirmation is skipped for a category exactly if, among all responses so far, one declared that
-- very category safe, or the approvals of that very category weigh 5.0 (10 halves) in sum. What
-- was said of other categories makes no difference, and neither does the order.
pub should_skip_confirmation-history :
    (c : Text) (rs : List Response)
    → should_skip_confirmation c (respond_all rs new)
      ≡ (declared c rs || leb 10 (total_weight c rs))
unfolding get
should_skip_confirmation-history c rs =
    skip_of_score c (respond_all rs new)
    ∙ ground (arith, weight_in-respond_all c rs new, declared_in-respond_all c rs new)
