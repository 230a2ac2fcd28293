-- ===== src/Kernel/Adaptive.antt =====
-- arona_kernel/src/adaptive.rs: the kernel's port of the trust model.
pub mod Port
mod Examples
use arona_os.Prelude.{
  ℕ, ◌+◌, Text, text_eq, Bool, false, ◌||◌, List, [], ◌∷◌, Option, none, some, leb, if◌then◌else◌,
}

pub data ApprovalManner : Type 0 where
  immediate hesitant : ApprovalManner

-- Weights count halves: 1.0 is 2 and 0.5 is 1. Sums of halves are exact in an `f64` below 2 ^ 52.
abbrev pub weight : ApprovalManner → ℕ
weight immediate = 2
weight hesitant = 1

pub record TrustScore : Type 0 where
  pub category : Text
  pub weighted_approval_count : ℕ
  pub explicitly_confirmed : Bool

abbrev pub new_score : Text → TrustScore
new_score category = record {
  category = category;
  weighted_approval_count = 0;
  explicitly_confirmed = false;
}

-- 5.0, in halves.
abbrev pub confirmation_skip_threshold : ℕ
confirmation_skip_threshold = 10

-- The `BTreeMap`, which is never iterated over, as an association list.
pub record TrustModel : Type 0 where
  pub scores : List (Text × TrustScore)

abbrev pub new : TrustModel
new = record { scores = [] }

unfoldable pub get : Text → List (Text × TrustScore) → Option TrustScore
get k [] = none
get k ((j, v) ∷ m) = if text_eq j k then some v else get k m

-- `entry(k).or_insert_with(d)`, and the write of `f` through the reference.
unfoldable pub upsert :
    Text
    → TrustScore
    → (TrustScore → TrustScore)
    → List (Text × TrustScore)
    → List (Text × TrustScore)
upsert k d f [] = (k, f d) ∷ []
upsert k d f ((j, v) ∷ m) = if text_eq j k then (j, f v) ∷ m else (j, v) ∷ upsert k d f m

abbrev pub approve : ApprovalManner → TrustScore → TrustScore
approve manner score = record score {
  weighted_approval_count = score.weighted_approval_count + weight manner;
}

unfoldable pub record_approval : Text → ApprovalManner → TrustModel → TrustModel
record_approval category manner model = record {
  scores = upsert category (new_score category) (approve manner) model.scores;
}

unfoldable pub should_skip_confirmation : Text → TrustModel → Bool
should_skip_confirmation category model = elim (get category model.scores) [
  | some score ↦
      score.explicitly_confirmed || leb confirmation_skip_threshold score.weighted_approval_count
  | none ↦ false
]
