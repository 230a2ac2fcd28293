-- ===== src/Memory/Importance.antt =====
-- Importance only rises, and stays between 0.0 and 1.0.
use arona_os.Prelude.{◌≤◌, ◌≡◌, ◌-◌, ◌^◌, arith}
use arona_os.Memory.{F32, f32_one, RecallScore, apply_importance}

-- Neither a NaN nor outside 0.0 to 1.0.
abbrev pub IsUnit : F32 → Type 0
IsUnit x = x ≤ f32_one

-- Whatever importance the model names, negative, above 1.0 or a NaN, an importance between 0.0 and
-- 1.0 stays between them and does not fall, and nothing else of the score changes.
pub apply_importance-IsUnit :
    (x : F32) (r : RecallScore)
    → x ≤ 2 ^ 32 - 1
    → IsUnit r.importance
    → IsUnit (apply_importance x r).importance
      × (r.importance ≤ (apply_importance x r).importance)
      × ((apply_importance x r).recall_count ≡ r.recall_count)
      × ((apply_importance x r).last_recalled_at ≡ r.last_recalled_at)
unfolding apply_importance
apply_importance-IsUnit x r fits h = ground arith
