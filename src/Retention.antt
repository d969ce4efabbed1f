-- ===== src/Retention.antt =====
-- internal/core/service/audit_retention.go over the statement of sigryx_purge_audit_events
-- (migrations/20260905103000_application_schema.sql). The table is the list of its rows in the order of
-- the statement, the oldest first, and no row is locked by another transaction. A time is the number of
-- microseconds from the start of the year 1, which the driver sends and the database keeps. AddDate of Go's time,
-- and which times the database takes, are parameters. A call of the database fails where `database_up`
-- says so, and the context is done where `cancelled` says so, by the number of calls before.
pub mod Batches
pub mod Cleanup
pub mod Calendar
pub mod Due
pub mod Tests
use sigryx.Base.{
  ℕ, zero, suc, ◌+◌, ◌-◌, ◌%◌, ◌^◌, Bool, true, false, not, ◌&&◌, ◌||◌, Option, none, some, List,
  [], ◌∷◌, ltb, if◌then◌else◌,
}
use sigryx.Base.Bytes.{Bytes}
use sigryx.Base.Outcome.{Outcome, ok, err, ◌>>=◌, ◌>>◌, refuse}

pub data ℤ : Type 0 where
  pos : ℕ → ℤ
  negsuc : ℕ → ℤ

-- A Go int or Duration, by its 64 bits: only the rest modulo 2 ^ 64 of the number counts.
pub record Int64 : Type 0 where
  pub bits : ℕ

abbrev pub word : Int64 → ℕ
word n = n.bits % 2 ^ 64

-- `-n`, which wraps
abbrev pub negated : Int64 → Int64
negated n = record { bits = 2 ^ 64 - word n }

pub data RetentionError : Type 0 where
  invalid_audit_retention_days invalid_audit_cleanup_batch invalid_audit_cleanup_interval
        context_done database :
      RetentionError

-- domain.AuditRetentionClass
pub data RetentionClass : Type 0 where
  normal critical : RetentionClass

-- What the retention reads of domain.AuditEvent
pub record AuditEvent : Type 0 where
  pub id : Bytes
  pub occurred_at : ℕ
  pub retention_class : RetentionClass

-- AuditRetentionConfig
pub record AuditRetentionConfig : Type 0 where
  pub normal_retention_days : Int64
  pub critical_retention_days : Int64
  pub cleanup_interval : Int64
  pub batch_size : Int64

-- AuditRetentionResult
pub record AuditRetentionResult : Type 0 where
  pub normal_deleted : ℕ
  pub critical_deleted : ℕ

-- TotalDeleted
abbrev pub total_deleted : AuditRetentionResult → ℕ
total_deleted r = r.normal_deleted + r.critical_deleted

abbrev pub max_audit_cleanup_batch_size : ℕ
max_audit_cleanup_batch_size = 50000

abbrev pub is_negative : Int64 → Bool
is_negative n = not (ltb (word n) (2 ^ 63))

abbrev pub is_positive : Int64 → Bool
is_positive n = ltb 0 (word n) && ltb (word n) (2 ^ 63)

-- A number that is known not to be negative
abbrev pub magnitude : Int64 → ℕ
magnitude n = if ltb (word n) (2 ^ 63) then word n else 0

-- NewAuditRetentionService
unfoldable pub new_audit_retention_service :
    AuditRetentionConfig → Outcome RetentionError AuditRetentionConfig
new_audit_retention_service config = do
  refuse (is_negative config.normal_retention_days || is_negative config.critical_retention_days)
      invalid_audit_retention_days
  refuse (not (is_positive config.cleanup_interval)) invalid_audit_cleanup_interval
  refuse
      (not (is_positive config.batch_size)
        || ltb max_audit_cleanup_batch_size (magnitude config.batch_size))
      invalid_audit_cleanup_batch
  ok config

-- Enabled
abbrev pub enabled : AuditRetentionConfig → Bool
enabled config =
    is_positive config.normal_retention_days || is_positive config.critical_retention_days

abbrev pub same_class : RetentionClass → RetentionClass → Bool
same_class normal normal = true
same_class normal critical = false
same_class critical normal = false
same_class critical critical = true

-- `occurred_at < p_before`
abbrev pub is_before : ℕ → ℤ → Bool
is_before time (pos cutoff) = ltb time cutoff
is_before time (negsuc cutoff) = false

-- `p_before > CURRENT_TIMESTAMP`
abbrev pub is_after : ℤ → ℕ → Bool
is_after (pos cutoff) time = ltb time cutoff
is_after (negsuc cutoff) time = false

-- `WHERE retention_class = p_retention_class AND occurred_at < p_before`
abbrev pub expired : RetentionClass → ℤ → AuditEvent → Bool
expired retention_class before event =
    same_class event.retention_class retention_class && is_before event.occurred_at before

-- The statement: it deletes the first `limit` rows that pass the test, and counts them.
unfoldable pub delete_rows : (AuditEvent → Bool) → ℕ → List AuditEvent → ℕ × List AuditEvent
delete_rows test limit [] = (0, [])
delete_rows test zero (row ∷ rows) = (0, row ∷ rows)
delete_rows test (suc limit) (row ∷ rows) =
    let (deleted, rest) = delete_rows test (if test row then limit else suc limit) rows in
    if test row then (suc deleted, rest) else (deleted, row ∷ rest)

-- The table and the number of calls
pub record AuditTable : Type 0 where
  pub rows : List AuditEvent
  pub calls : ℕ

abbrev pub called : AuditTable → AuditTable
called t = record t { calls = t.calls + 1 }

-- What the service calls outside: the clock and AddDate(0, 0, n) of Go's time, and the database with its own
-- clock and the times that it takes.
pub record Outside : Type 0 where
  pub now : ℕ
  pub add_date : ℕ → Int64 → ℤ
  pub database_up : ℕ → Bool
  pub current_timestamp : ℕ → ℕ
  pub timestamp_fits : ℤ → Bool
  pub cancelled : ℕ → Bool

-- 24 hours in microseconds
abbrev pub day : ℕ
day = 86400000000

abbrev pub row_count : List AuditEvent → ℕ
row_count [] = 0
row_count (row ∷ rows) = suc (row_count rows)

-- What purgeClass returns: the total, with an error or without
abbrev pub Purged : Type 0
Purged = (ℕ × Option RetentionError) × AuditTable

-- What Cleanup returns: the result, beside an error too
abbrev pub Cleaned : Type 0
Cleaned = (AuditRetentionResult × Option RetentionError) × AuditTable

-- The end of a round: `rounds` are the later ones.
unfoldable pub after_purge :
    ℕ → ℕ → Outcome RetentionError ℕ × AuditTable → (ℕ → AuditTable → Purged) → Purged
after_purge batch total (err e, t) rounds = ((total, some e), t)
after_purge batch total (ok deleted, t) rounds =
    if ltb deleted batch then ((total + deleted, none), t) else rounds (total + deleted) t

unfoldable pub after_critical : ℕ → Purged → Cleaned
after_critical normals ((total, some e), t) =
    ((record { normal_deleted = normals; critical_deleted = 0 }, some e), t)
after_critical normals ((total, none), t) =
    ((record { normal_deleted = normals; critical_deleted = total }, none), t)

module _ (out : Outside) where
  -- PurgeExpired, with the tests of the function in the database
  unfoldable pub purge_expired :
      RetentionClass → ℤ → ℕ → AuditTable → Outcome RetentionError ℕ × AuditTable
  unfolding delete_rows
  purge_expired retention_class before limit t =
      if not (out.database_up t.calls && out.timestamp_fits before)
        || (is_after before (out.current_timestamp t.calls)
            || (ltb limit 1 || ltb max_audit_cleanup_batch_size limit))
      then (err database, called t)
      else (
        ok (delete_rows (expired retention_class before) limit t.rows).0,
        called (record t { rows = (delete_rows (expired retention_class before) limit t.rows).1 }),
      )

  -- The loop of purgeClass. A full batch takes rows off the table, so one more than the number of its rows
  -- is fuel enough; a loop that ran out would look cancelled.
  unfoldable pub purge_loop : ℕ → RetentionClass → ℤ → ℕ → ℕ → AuditTable → Purged
  unfolding after_purge purge_expired
  purge_loop zero retention_class before batch total t = ((total, some context_done), t)
  purge_loop (suc fuel) retention_class before batch total t =
      if out.cancelled t.calls
      then ((total, some context_done), t)
      else after_purge batch total (purge_expired retention_class before batch t)
          (purge_loop fuel retention_class before batch)

  -- `now.AddDate(0, 0, -days)`
  abbrev pub cutoff : Int64 → ℤ
  cutoff days = out.add_date out.now (negated days)

  -- purgeClass on the cutoff that Cleanup gives it
  unfoldable pub purge_class : RetentionClass → Int64 → Int64 → AuditTable → Purged
  unfolding purge_loop
  purge_class retention_class days batch t =
      purge_loop (suc (row_count t.rows)) retention_class (cutoff days) (magnitude batch) 0 t

  -- `if s.config.… > 0 { … }`
  unfoldable pub purge_if : Bool → RetentionClass → Int64 → Int64 → AuditTable → Purged
  unfolding purge_class
  purge_if true retention_class days batch t = purge_class retention_class days batch t
  purge_if false retention_class days batch t = ((0, none), t)

  unfoldable pub after_normal : AuditRetentionConfig → Purged → Cleaned
  unfolding after_critical purge_if
  after_normal config ((total, some e), t) =
      ((record { normal_deleted = 0; critical_deleted = 0 }, some e), t)
  after_normal config ((total, none), t) = after_critical total (
      purge_if (is_positive config.critical_retention_days) critical config.critical_retention_days
        config.batch_size t)

  -- Cleanup
  unfoldable pub cleanup : AuditRetentionConfig → AuditTable → Cleaned
  unfolding after_normal purge_if
  cleanup config t =
      if not (enabled config)
      then ((record { normal_deleted = 0; critical_deleted = 0 }, none), t)
      else after_normal config (
          purge_if (is_positive config.normal_retention_days) normal config.normal_retention_days
            config.batch_size t)
