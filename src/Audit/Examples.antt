-- ===== src/Audit/Examples.antt =====
-- Tests of the audit logs.
use arona_os.Prelude.{true, ◌≡◌, refl, codes, [], ok, Occurs}
use arona_os.Guardian.{ransomware, checksum_check}
use arona_os.Guardian.Engine.{Intervention, block}
use arona_os.Permissions.Grant.{PurposeGrant, dormant}
use arona_os.Memory.{arona, MemoryRecord}
use arona_os.Memory.Store.{put, get, ◌>>=◌}
use arona_os.Memory.Examples.{Entries, sled, serde, lawful, drop_at}
use arona_os.Audit.{Formats, reason_of, put_new, log_intervention}
use arona_os.Audit.Logged.{log_intervention-get}

abbrev formats : Formats
formats = record {
  show_uuid = λ _. codes "id";
  to_rfc3339 = λ _. codes "2026-08-15T12:00:00+00:00";
  show_day = λ _. codes "2026-08-15";
  show_tenths = λ _. codes "0.5";
  debug_capability = λ _. codes "Capability";
}

abbrev stopped : Intervention
stopped = record {
  rule_id = 3;
  category = ransomware;
  action = block (codes "checksum");
  triggered_by = checksum_check (codes "a") true;
  timestamp = 9;
}

abbrev logged : Entries
logged = (log_intervention formats sled serde 8 10 stopped []).0

log-stopped : log_intervention formats sled serde 8 10 stopped [] ≡ (logged, ok tt)
unfolding log_intervention put_new put drop_at ◌>>=◌
log-stopped = refl

log_intervention-get_example :
    (r : MemoryRecord) × (get sled serde arona 8 logged ≡ (logged, ok r))
    × Occurs (reason_of stopped.action) r.content
    × (r.recall.importance ≡ 0x3f4c_cccd)
    × (r.recall.recall_count ≡ 0)
log_intervention-get_example =
    log_intervention-get formats sled serde lawful 8 10 stopped [] logged log-stopped

abbrev idle : PurposeGrant
idle = record {
  id = 5;
  purpose = codes "build";
  template_id = 6;
  granted_capabilities = [];
  status = dormant;
  granted_at = 1;
  last_used_at = 2;
}
