-- ===== src/Retention/Tests.antt =====
-- A cleanup of four events in batches of one.
use sigryx.Base.{
  ℕ, ◌≤◌, ◌<◌, zero, suc, ◌*◌, ◌+◌, ◌-◌, ◌%◌, ◌^◌, ltb, leb, if◌then◌else◌, arith, ◌≡◌, refl, true,
  false, none, some, [], ◌∷◌,
}
use sigryx.Base.Outcome.{ok, err}
use sigryx.Retention.{
  ℤ, pos, negsuc, Int64, normal, critical, invalid_audit_retention_days, context_done, AuditEvent,
  AuditTable, AuditRetentionConfig, total_deleted, Outside, day, new_audit_retention_service,
  cleanup, delete_rows,
}
use sigryx.Retention.Batches.{keep, count}
use sigryx.Retention.Cleanup.{IsAnswered}
use sigryx.Retention.Calendar.{IsCalendar, InReach, due}
use sigryx.Retention.Due.{cleanup_keeps, cleanup_all}

abbrev event : ℕ → AuditEvent
event days = record { id = days ∷ []; occurred_at = days * day; retention_class = normal }

abbrev critical_event : ℕ → AuditEvent
critical_event days = record {
  id = days ∷ [];
  occurred_at = days * day;
  retention_class = critical;
}

abbrev table : AuditTable
table = record { rows = event 1 ∷ critical_event 2 ∷ event 3 ∷ event 95 ∷ []; calls = 0 }

abbrev int : ℕ → Int64
int n = record { bits = n }

abbrev config : AuditRetentionConfig
config = record {
  normal_retention_days = int 10;
  critical_retention_days = int 99;
  cleanup_interval = int 1;
  batch_size = int 1;
}

-- AddDate on whole days, forward or back
unfoldable add_days : ℕ → Int64 → ℤ
add_days time n =
    let w = n.bits % 2 ^ 64 in
    if ltb w (2 ^ 63)
    then pos (time + w * day)
    else if leb ((2 ^ 64 - w) * day) time
    then pos (time - (2 ^ 64 - w) * day)
    else negsuc ((2 ^ 64 - w) * day - time - 1)

abbrev out : Outside
out = record {
  now = 100 * day;
  add_date = add_days;
  database_up = λ n. true;
  current_timestamp = λ n. 100 * day + n;
  timestamp_fits = λ time. true;
  cancelled = λ n. false;
}

-- The context is done behind the first batch.
abbrev hurried : Outside
hurried = record out { cancelled = λ n. elim n [ zero ↦ false | suc m ↦ true ] }

out-IsAnswered : IsAnswered out
out-IsAnswered = record {
  up = λ n. refl;
  live = λ n. refl;
  clock = λ n. omega arith;
  fits = λ t h. refl;
}

add_days_back :
    (n : Int64) (d time : ℕ)
    → n.bits ≡ 2 ^ 64 - d
    → 1 ≤ d
    → d < 2 ^ 63
    → d * day ≤ time
    → add_days time n ≡ pos (time - d * day)
unfolding add_days
add_days_back n d time e h k reach = ground arith

out-IsCalendar : IsCalendar out
out-IsCalendar = record { back = λ n d e h k reach. add_days_back n d (100 * day) e h k reach }

hurried-IsCalendar : IsCalendar hurried
hurried-IsCalendar = record { back = λ n d e h k reach. add_days_back n d (100 * day) e h k reach }

config-InReach : InReach out config
config-InReach = record { normals = omega arith; criticals = omega arith }

hurried-InReach : InReach hurried config
hurried-InReach = record { normals = omega arith; criticals = omega arith }

config_accepted : new_audit_retention_service config ≡ ok config
unfolding new_audit_retention_service
config_accepted = refl

negative_days :
    new_audit_retention_service (record config { normal_retention_days = int (2 ^ 64 - 1) })
    ≡ err invalid_audit_retention_days
unfolding new_audit_retention_service
negative_days = refl

cleanup-rows : (cleanup out config table).1.rows ≡ critical_event 2 ∷ event 95 ∷ []
unfolding cleanup delete_rows add_days
cleanup-rows = refl

cleanup-hurried :
    ((cleanup hurried config table).0.1 ≡ some context_done)
    × ((cleanup hurried config table).1.rows ≡ critical_event 2 ∷ event 3 ∷ event 95 ∷ [])
unfolding cleanup delete_rows add_days
cleanup-hurried = (refl, refl)

cleanup_keeps_example :
    keep (due hurried config) (cleanup hurried config table).1.rows
    ≡ keep (due hurried config) table.rows
cleanup_keeps_example = cleanup_keeps hurried config table hurried-IsCalendar hurried-InReach

cleanup_all_example :
    ((cleanup out config table).0.1 ≡ none)
    × (total_deleted (cleanup out config table).0.0 ≡ count (due out config) table.rows)
    × ((cleanup out config table).1.rows ≡ keep (due out config) table.rows)
cleanup_all_example =
    cleanup_all out config table out-IsAnswered out-IsCalendar config-InReach config_accepted
