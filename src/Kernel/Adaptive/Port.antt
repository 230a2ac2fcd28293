-- ===== src/Kernel/Adaptive/Port.antt =====
-- The kernel's trust model and arona_agy/arona_adaptive.
use arona_os.Prelude.{
  ℕ, ◌≡◌, refl, sym, ap, ◌∙◌, inl, inr, Text, text_eq, List, [], ◌∷◌, Option, none, some,
  Bool-cases, Option-cases,
}
use arona_os.Adaptive
use arona_os.Kernel.Adaptive.{
  ApprovalManner, immediate, hesitant, TrustScore, TrustModel, new, new_score, get, upsert, approve,
  record_approval, should_skip_confirmation,
}

abbrev pub manner_of : ApprovalManner → Adaptive.ApprovalManner
manner_of immediate = Adaptive.immediate
manner_of hesitant = Adaptive.hesitant

-- What the crate's score says, without its time.
abbrev pub score_without_time : Adaptive.TrustScore → TrustScore
score_without_time score = record {
  category = score.category;
  weighted_approval_count = score.weighted_approval_count;
  explicitly_confirmed = score.explicitly_confirmed;
}

abbrev pub scores_without_time : List (Text × Adaptive.TrustScore) → List (Text × TrustScore)
scores_without_time [] = []
scores_without_time ((k, v) ∷ m) = (k, score_without_time v) ∷ scores_without_time m

abbrev pub model_without_time : Adaptive.TrustModel → TrustModel
model_without_time model = record { scores = scores_without_time model.scores }

-- Answers of the user: the time, the category and the manner.
abbrev pub Answers : Type 0
Answers = List (ℕ × Text × ApprovalManner)

unfoldable pub record_all : Answers → TrustModel → TrustModel
record_all [] model = model
record_all ((now, category, manner) ∷ rest) model =
    record_all rest (record_approval category manner model)

unfoldable pub record_all_in_crate : Answers → Adaptive.TrustModel → Adaptive.TrustModel
record_all_in_crate [] model = model
record_all_in_crate ((now, category, manner) ∷ rest) model =
    record_all_in_crate rest (Adaptive.record_approval now category (manner_of manner) model)

approve-without_time :
    (now : ℕ) (manner : ApprovalManner) (score : Adaptive.TrustScore)
    → score_without_time (Adaptive.approve now (manner_of manner) score)
      ≡ approve manner (score_without_time score)
approve-without_time now immediate score = refl
approve-without_time now hesitant score = refl

upsert-without_time :
    (now : ℕ) (k : Text) (manner : ApprovalManner) (m : List (Text × Adaptive.TrustScore))
    → scores_without_time
        (Adaptive.upsert k (Adaptive.new_score now k) (Adaptive.approve now (manner_of manner)) m)
      ≡ upsert k (new_score k) (approve manner) (scores_without_time m)
unfolding upsert Adaptive.upsert
upsert-without_time now k manner [] =
    ap (λ v. (k, v) ∷ []) (approve-without_time now manner (Adaptive.new_score now k))
upsert-without_time now k manner ((j, v) ∷ m) = elim (Bool-cases (text_eq j k)) [
  | inl here ↦
      rw here (ap (λ s. (j, s) ∷ scores_without_time m) (approve-without_time now manner v))
  | inr away ↦
      rw away (ap (λ xs. (j, score_without_time v) ∷ xs) (upsert-without_time now k manner m))
]

abbrev option_score : Option Adaptive.TrustScore → Option TrustScore
option_score none = none
option_score (some score) = some (score_without_time score)

get-without_time :
    (k : Text) (m : List (Text × Adaptive.TrustScore))
    → get k (scores_without_time m) ≡ option_score (Adaptive.get k m)
unfolding get Adaptive.get
get-without_time k [] = refl
get-without_time k ((j, v) ∷ m) = elim (Bool-cases (text_eq j k)) [
  | inl here ↦ rw here refl
  | inr away ↦ rw away (get-without_time k m)
]

record_all-without_time :
    (answers : Answers) (model : Adaptive.TrustModel)
    → model_without_time (record_all_in_crate answers model)
      ≡ record_all answers (model_without_time model)
unfolding record_all record_all_in_crate record_approval Adaptive.record_approval
record_all-without_time [] model = refl
record_all-without_time ((now, category, manner) ∷ rest) model =
    record_all-without_time rest (Adaptive.record_approval now category (manner_of manner) model)
    ∙ ap (λ m. record_all rest (record { scores = m }))
        (upsert-without_time now category manner model.scores)

should_skip-without_time :
    (category : Text) (model : Adaptive.TrustModel)
    → should_skip_confirmation category (model_without_time model)
      ≡ Adaptive.should_skip_confirmation category model
unfolding should_skip_confirmation Adaptive.should_skip_confirmation
should_skip-without_time category model =
    let same = get-without_time category model.scores in
    elim (Option-cases (Adaptive.get category model.scores)) [
      | inl unknown ↦
          let missing = same ∙ ap option_score unknown in
          rw (missing, unknown, should_skip_confirmation, Adaptive.should_skip_confirmation) refl
      | inr (score, known) ↦
          let there = same ∙ ap option_score known in
          rw (there, known, should_skip_confirmation, Adaptive.should_skip_confirmation) refl
    ]

-- Whatever approvals have been recorded, in any order and at any times, from new models on, the
-- kernel's trust model skips the confirmation of a category exactly if the crate's does.
pub should_skip_confirmation-record_all :
    (answers : Answers) (category : Text)
    → should_skip_confirmation category (record_all answers new)
      ≡ Adaptive.should_skip_confirmation category (record_all_in_crate answers Adaptive.new)
should_skip_confirmation-record_all answers category =
    ap (should_skip_confirmation category) (sym (record_all-without_time answers Adaptive.new))
    ∙ should_skip-without_time category (record_all_in_crate answers Adaptive.new)
