-- ===== src/Memory.antt =====
-- arona_agy/arona_memory/src/schema.rs and recall.rs: memory records and how easily they are
-- recalled. Floating-point arithmetic that is not a comparison is a parameter, `Arithmetic`.
pub mod Importance
pub mod Store
pub mod RoundTrip
pub mod Search
pub mod Ranking
pub mod Context
pub mod Examples
use arona_os.Prelude.{
  ℕ, ◌+◌, ◌-◌, ◌^◌, ◌/◌, ◌%◌, Text, F64, f64_gt, codes, Bool, true, false, not, ◌&&◌, List, [], ◌∷◌,
  Option, none, some, ltb, leb, if◌then◌else◌,
}
use arona_os.Guardian.{Uuid, DateTime}
use Prim.Native.Nat.{min}

pub data MemoryCategory : Type 0 where
  user system arona memoir : MemoryCategory

unfoldable pub tree_name : MemoryCategory → Text
tree_name user = codes "memory_user"
tree_name system = codes "memory_system"
tree_name arona = codes "memory_arona"
tree_name memoir = codes "memory_memoir"

-- `MemoryCategory::all()`
abbrev pub all : List MemoryCategory
all = user ∷ system ∷ arona ∷ memoir ∷ []

pub data MemoirTrigger : Type 0 where
  predefined_event : Text → MemoirTrigger
  cognition_core_judgment : Text → MemoirTrigger

-- An `f32` by its bit pattern, with the operator `>`.
abbrev pub F32 : Type 0
F32 = ℕ

abbrev place : F32 → ℕ
place x = if leb (2 ^ 31) x then 2 ^ 31 - x % 2 ^ 31 else 2 ^ 31 + x

abbrev is_nan : F32 → Bool
is_nan x = ltb 0x7f80_0000 (x % 2 ^ 31)

-- Neither a NaN nor an infinity.
abbrev pub is_finite : F32 → Bool
is_finite x = ltb (x % 2 ^ 31) 0x7f80_0000

abbrev pub f32_gt : F32 → F32 → Bool
f32_gt x y = not (is_nan x) && (not (is_nan y) && ltb (place y) (place x))

-- 1.0
abbrev pub f32_one : F32
f32_one = 0x3f80_0000

pub record RecallScore : Type 0 where
  pub created_at : DateTime
  pub last_recalled_at : DateTime
  pub recall_count : ℕ
  pub importance : F32

abbrev pub new_recall : DateTime → RecallScore
new_recall now = record {
  created_at = now;
  last_recalled_at = now;
  recall_count = 0;
  importance = 0;
}

-- `saturating_add(1)` on a `u32`.
unfoldable pub touch : DateTime → RecallScore → RecallScore
touch now r = record r {
  recall_count = min (r.recall_count + 1) (2 ^ 32 - 1);
  last_recalled_at = now;
}

-- `clamp(0.0, 1.0)`, which leaves a NaN alone.
abbrev pub clamp : F32 → F32
clamp x = if f32_gt 0 x then 0 else if f32_gt x f32_one then f32_one else x

unfoldable pub apply_importance : F32 → RecallScore → RecallScore
apply_importance importance r =
    let clamped = clamp importance in
    if f32_gt clamped r.importance then record r { importance = clamped } else r

pub record MemoryRecord : Type 0 where
  pub id : Uuid
  pub category : MemoryCategory
  pub content : Text
  pub recall : RecallScore
  pub memoir_trigger : Option MemoirTrigger
  pub tags : List Text

abbrev is_memoir : MemoryCategory → Bool
is_memoir memoir = true
is_memoir _ = false

-- `none` is the failure of the assertion that a memoir is not made this way.
abbrev pub new_record : Uuid → DateTime → MemoryCategory → Text → List Text → Option MemoryRecord
new_record id now category content tags =
    if is_memoir category
    then none
    else some (record {
      id = id;
      category = category;
      content = content;
      recall = new_recall now;
      memoir_trigger = none;
      tags = tags;
    })

abbrev pub new_memoir : Uuid → DateTime → Text → List Text → MemoirTrigger → MemoryRecord
new_memoir id now content tags trigger = record {
  id = id;
  category = memoir;
  content = content;
  recall = new_recall now;
  memoir_trigger = some trigger;
  tags = tags;
}

-- Operations of `f64`, and the conversions into it.
pub record Arithmetic : Type 0 where
  pub add : F64 → F64 → F64
  pub mul : F64 → F64 → F64
  pub div : F64 → F64 → F64
  pub neg : F64 → F64
  pub exp : F64 → F64
  pub of_unsigned : ℕ → F64
  pub of_f32 : F32 → F64
  pub ceil_to_usize : F64 → ℕ

-- 1.5, 3.0, 20.0, 1.0 and 86400.0
abbrev pub stability_per_recall : F64
stability_per_recall = 0x3ff8_0000_0000_0000

abbrev pub base_stability_days : F64
base_stability_days = 0x4008_0000_0000_0000

abbrev pub max_importance_multiplier : F64
max_importance_multiplier = 0x4034_0000_0000_0000

abbrev f64_one : F64
f64_one = 0x3ff0_0000_0000_0000

abbrev seconds_per_day : F64
seconds_per_day = 0x40f5_1800_0000_0000

-- `f64::clamp(0.0, 1.0)`
abbrev clamp64 : F64 → F64
clamp64 x = if f64_gt 0 x then 0 else if f64_gt x f64_one then f64_one else x

unfoldable pub stability : Arithmetic → RecallScore → F64
stability ar r =
    ar.mul
      (ar.add base_stability_days (ar.mul (ar.of_unsigned r.recall_count) stability_per_recall))
      (ar.add f64_one (ar.mul (clamp64 (ar.of_f32 r.importance)) max_importance_multiplier))

-- A `DateTime` counts nanoseconds. A last recall in the future gives the elapsed time 0, as the
-- truncated difference does.
unfoldable pub current_score : Arithmetic → DateTime → RecallScore → F64
current_score ar now r =
    let elapsed_days =
      ar.div (ar.of_unsigned ((now - r.last_recalled_at) / 1_000_000_000)) seconds_per_day in
    ar.exp (ar.div (ar.neg elapsed_days) (stability ar r))
