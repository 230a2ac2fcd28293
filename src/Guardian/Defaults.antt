-- ===== src/Guardian/Defaults.antt =====
-- What the initial rule set reports, for every event.
use arona_os.Prelude.{
  ℕ, ◌+◌, ◌≡◌, refl, Text, F64, f64_gt, Bool, ◌&&◌, not, arith, ltb, leb, if◌then◌else◌, length,
  codes, contains_text, ◌==◌, text_partial_eq,
}
use arona_os.Guardian.{
  Uuid, DateTime, GuardianRule, SystemEvent, file_operation, sensor_reading, checksum_check,
  write_failure, process_abnormal, heartbeat_missed,
}
use arona_os.Guardian.Engine.{action_for, match_event, evaluate, with_default_rules, cpu_temp_limit}

abbrev one_if : Bool → ℕ
one_if b = if b then 1 else 0

-- How many of the initial rules an event breaks.
abbrev pub violations : SystemEvent → ℕ
violations (file_operation path _ recent_write_count) =
    one_if (contains_text path (codes ".locked")) + one_if (ltb 100 recent_write_count)
violations (sensor_reading name value) =
    one_if ((name == codes "cpu_temp_celsius") && f64_gt value cpu_temp_limit)
violations (checksum_check _ matched) = one_if (not matched)
violations (write_failure _ _) = 0
violations (process_abnormal _ _) = 0
violations (heartbeat_missed _ missed_count) = one_if (leb 3 missed_count)

-- A fresh engine reports a file operation once for a path with `.locked` in it and once for more
-- than 100 recent writes, a CPU temperature above 95 degrees, a failed checksum, and three or more
-- missed heartbeats, and nothing else.
pub length-evaluate_default :
    (show : F64 → Text) (now : GuardianRule → DateTime) (ids : ℕ → Uuid) (times : ℕ → DateTime)
    (ev : SystemEvent)
    → length (evaluate show now ev (with_default_rules ids times)) ≡ violations ev
unfolding evaluate match_event action_for
length-evaluate_default show now ids times (file_operation p o n) = ground arith
length-evaluate_default show now ids times (sensor_reading s v) = ground arith
length-evaluate_default show now ids times (checksum_check p m) = ground arith
length-evaluate_default show now ids times (write_failure p r) = refl
length-evaluate_default show now ids times (process_abnormal p t) = refl
length-evaluate_default show now ids times (heartbeat_missed p n) = ground arith
