-- ===== src/Retention/Due.antt =====
-- Cleanup deletes the rows that are due, and no others.
use sigryx.Base.{
  ℕ, suc, ◌+◌, ◌≤◌, ◌≡◌, refl, sym, ap, ◌∙◌, Bool, true, false, not, ◌&&◌, ◌||◌, Option, none, some,
  List, arith, ltb, Bool-cases, inl, inr, subst,
}
use sigryx.Base.Outcome.{ok, refuse_ok}
use sigryx.Retention.{
  Int64, cutoff, RetentionError, RetentionClass, normal, critical, AuditEvent, AuditTable,
  AuditRetentionConfig, total_deleted, is_negative, is_positive, invalid_audit_retention_days,
  invalid_audit_cleanup_interval, invalid_audit_cleanup_batch, magnitude, Outside,
  max_audit_cleanup_batch_size, new_audit_retention_service, expired, Purged, row_count,
  purge_class, purge_if, Cleaned, after_critical, after_normal, enabled, cleanup,
}
use sigryx.Retention.Batches.{
  keep, count, count-le, keep_none, count_none, keep_both, count_both, idle, keep_same, count_same,
}
use sigryx.Retention.Cleanup.{
  IsTaken, IsAnswered, AllPurged, purge_loop-AllPurged, purge_loop_keeps,
}
use sigryx.Retention.Calendar.{IsCalendar, InReach, due, cut_for, cut, cut-due, cutoff-IsTaken}

left_or : (a b : Bool) → a ≡ true → (a || b) ≡ true
left_or true b h = refl
left_or false b h = cc

right_or : (a b : Bool) → b ≡ true → (a || b) ≡ true
right_or true b h = refl
right_or false b h = h

batch_size_fits :
    (batch : Int64)
    → (not (is_positive batch) || ltb max_audit_cleanup_batch_size (magnitude batch)) ≡ false
    → (1 ≤ magnitude batch) × (magnitude batch ≤ max_audit_cleanup_batch_size)
batch_size_fits batch h = (ground (arith, h), ground (arith, h))

-- What NewAuditRetentionService accepts of a batch size
accepted_batch :
    (config : AuditRetentionConfig)
    → new_audit_retention_service config ≡ ok config
    → (1 ≤ magnitude config.batch_size)
      × (magnitude config.batch_size ≤ max_audit_cleanup_batch_size)
unfolding new_audit_retention_service
accepted_batch config h =
    let negative =
      is_negative config.normal_retention_days || is_negative config.critical_retention_days in
    let too_many =
      not (is_positive config.batch_size)
      || ltb max_audit_cleanup_batch_size (magnitude config.batch_size) in
    let (_, h1) = refuse_ok negative invalid_audit_retention_days _ h in
    let (_, h2) =
      refuse_ok (not (is_positive config.cleanup_interval)) invalid_audit_cleanup_interval _ h1 in
    let (batch, _) = refuse_ok too_many invalid_audit_cleanup_batch (ok config) h2 in
    batch_size_fits config.batch_size batch

module _ (out : Outside) where
  purge_if-AllPurged :
      (flag : Bool) (retention_class : RetentionClass) (days batch : Int64) (t : AuditTable)
      → IsAnswered out
      → (flag ≡ true → IsTaken out (cutoff out days))
      → 1 ≤ magnitude batch
      → magnitude batch ≤ max_audit_cleanup_batch_size
      → AllPurged
          (λ r. flag && expired retention_class (cutoff out days) r)
          0
          t
          (purge_if out flag retention_class days batch t)
  unfolding purge_if purge_class
  purge_if-AllPurged false retention_class days batch t a taken h k = record {
    counted = ap (λ n. (n, none)) (omega (arith, count_none t.rows));
    purged = sym (keep_none t.rows);
  }
  purge_if-AllPurged true retention_class days batch t a taken h k =
      let before = cutoff out days in
      purge_loop-AllPurged out retention_class before (magnitude batch) (suc (row_count t.rows)) 0 t
        a (taken refl) h k (omega (arith, count-le (expired retention_class before) t.rows))

  purge_if_keeps :
      (test : AuditEvent → Bool) (flag : Bool) (retention_class : RetentionClass)
      (days batch : Int64) (t : AuditTable)
      → ((row : AuditEvent)
          → (flag && expired retention_class (cutoff out days) row) ≡ true
          → test row ≡ true)
      → keep test (purge_if out flag retention_class days batch t).1.rows ≡ keep test t.rows
  unfolding purge_if purge_class
  purge_if_keeps test false retention_class days batch t h = refl
  purge_if_keeps test true retention_class days batch t h =
      purge_loop_keeps out retention_class (cutoff out days) (magnitude batch) test
        (suc (row_count t.rows)) 0 t h

  after_critical-rows : (n : ℕ) (purged : Purged) → (after_critical n purged).1.rows ≡ purged.1.rows
  unfolding after_critical
  after_critical-rows n ((total, some e), t) = refl
  after_critical-rows n ((total, none), t) = refl

  after_normal_keeps :
      (config : AuditRetentionConfig) (purged : Purged)
      → keep (cut out config) (after_normal out config purged).1.rows
        ≡ keep (cut out config) purged.1.rows
  unfolding after_normal
  after_normal_keeps config ((total, some e), t) = refl
  after_normal_keeps config ((total, none), t) =
      let flag = is_positive config.critical_retention_days in
      ap (keep (cut out config)) (
        after_critical-rows total
          (purge_if out flag critical config.critical_retention_days config.batch_size t))
      ∙ purge_if_keeps (cut out config) flag critical config.critical_retention_days
          config.batch_size t
          (λ row e. right_or (cut_for out normal config.normal_retention_days row) _ e)

  cleanup_keeps_cut :
      (config : AuditRetentionConfig) (t : AuditTable)
      → keep (cut out config) (cleanup out config t).1.rows ≡ keep (cut out config) t.rows
  unfolding cleanup
  cleanup_keeps_cut config t = elim (Bool-cases (not (enabled config))) [
    | inl e ↦ rw e refl
    | inr e ↦
        let flag = is_positive config.normal_retention_days in
        rw e (
          after_normal_keeps config
            (purge_if out flag normal config.normal_retention_days config.batch_size t)
          ∙ purge_if_keeps (cut out config) flag normal config.normal_retention_days
              config.batch_size t
              (λ row q. left_or _ (cut_for out critical config.critical_retention_days row) q))
  ]

  -- What Cleanup returns of two complete purges.
  unfoldable CleanedAll : (AuditEvent → Bool) → List AuditEvent → Cleaned → Type 0
  CleanedAll test rows result =
      (result.0.1 ≡ none)
      × (total_deleted result.0.0 ≡ count test rows)
      × (result.1.rows ≡ keep test rows)

  after_critical-CleanedAll :
      (a b : AuditEvent → Bool) (rows : List AuditEvent) (t : AuditTable) (purged : Purged)
      → t.rows ≡ keep a rows
      → AllPurged b 0 t purged
      → CleanedAll (λ r. a r || b r) rows (after_critical (count a rows) purged)
  unfolding after_critical CleanedAll
  after_critical-CleanedAll a b rows t ((total, some e), t') h p =
      absurd (cc (ap (λ (x : ℕ × Option RetentionError). x.1) p.counted))
  after_critical-CleanedAll a b rows t ((total, none), t') h p =
      let sum : total ≡ count b (keep a rows) =
        ap (λ (x : ℕ × Option RetentionError). x.0) p.counted
        ∙ ap (λ n. 0 + n) (ap (count b) h)
        ∙ omega arith in
      (
        refl,
        ap (λ n. count a rows + n) sum ∙ count_both a b rows,
        p.purged ∙ ap (keep b) h ∙ keep_both a b rows,
      )

  after_normal-CleanedAll :
      (config : AuditRetentionConfig) (rows : List AuditEvent) (purged : Purged)
      → IsAnswered out
      → (is_positive config.critical_retention_days ≡ true
          → IsTaken out (cutoff out config.critical_retention_days))
      → 1 ≤ magnitude config.batch_size
      → magnitude config.batch_size ≤ max_audit_cleanup_batch_size
      → purged.0 ≡ (count (cut_for out normal config.normal_retention_days) rows, none)
      → purged.1.rows ≡ keep (cut_for out normal config.normal_retention_days) rows
      → CleanedAll (cut out config) rows (after_normal out config purged)
  unfolding after_normal
  after_normal-CleanedAll config rows ((total, some e), t) a taken h k p q =
      absurd (cc (ap (λ (x : ℕ × Option RetentionError). x.1) p))
  after_normal-CleanedAll config rows ((total, none), t) a taken h k p q =
      let critical_purge =
        purge_if out (is_positive config.critical_retention_days) critical
          config.critical_retention_days config.batch_size t in
      let normals : total ≡ count (cut_for out normal config.normal_retention_days) rows =
        ap (λ (x : ℕ × Option RetentionError). x.0) p in
      subst (λ n. CleanedAll (cut out config) rows (after_critical n critical_purge)) (sym normals)
        (after_critical-CleanedAll (cut_for out normal config.normal_retention_days)
          (cut_for out critical config.critical_retention_days) rows t critical_purge q
          (purge_if-AllPurged (is_positive config.critical_retention_days) critical
            config.critical_retention_days config.batch_size t a taken h k))

  cleanup-CleanedAll :
      (config : AuditRetentionConfig) (t : AuditTable)
      → IsAnswered out
      → IsCalendar out
      → InReach out config
      → new_audit_retention_service config ≡ ok config
      → CleanedAll (cut out config) t.rows (cleanup out config t)
  unfolding cleanup CleanedAll
  cleanup-CleanedAll config t a c reach accepted =
      let (h, k) = accepted_batch config accepted in
      let flag = is_positive config.normal_retention_days in
      elim (Bool-cases (not (enabled config))) [
        | inl e ↦
            let (kept, counted) =
              idle flag (is_positive config.critical_retention_days)
                (expired normal (cutoff out config.normal_retention_days))
                (expired critical (cutoff out config.critical_retention_days)) t.rows e in
            rw e (refl, omega (arith, counted), sym kept)
        | inr e ↦
            let p =
              purge_if-AllPurged flag normal config.normal_retention_days config.batch_size t a
                (cutoff-IsTaken out config.normal_retention_days a c reach.normals) h k in
            rw e (
              after_normal-CleanedAll config t.rows
                (purge_if out flag normal config.normal_retention_days config.batch_size t) a
                (cutoff-IsTaken out config.critical_retention_days a c reach.criticals) h k
                (p.counted ∙ ap (λ n. (n, none)) (omega arith)) p.purged)
      ]

  -- If AddDate keeps what it documents and the retention days reach back to the year 1 at most, then, whatever
  -- calls fail and whenever the context is done, Cleanup leaves all the rows that are not due, in their order.
  pub cleanup_keeps :
      (config : AuditRetentionConfig) (t : AuditTable)
      → IsCalendar out
      → InReach out config
      → keep (due out config) (cleanup out config t).1.rows ≡ keep (due out config) t.rows
  cleanup_keeps config t c reach =
      let rows = (cleanup out config t).1.rows in
      let same = cut-due out config c reach in
      sym (keep_same (cut out config) (due out config) rows same)
      ∙ cleanup_keeps_cut config t
      ∙ keep_same (cut out config) (due out config) t.rows same

  -- If AddDate keeps what it documents, every call is answered, the context is not done, the clock of the database is
  -- at most a day behind, NewAuditRetentionService accepts the configuration and its days reach back to the year 1 at
  -- most, then Cleanup returns no error, leaves exactly the rows that are not due, in their order, and its total
  -- is the number of those that were due.
  pub cleanup_all :
      (config : AuditRetentionConfig) (t : AuditTable)
      → IsAnswered out
      → IsCalendar out
      → InReach out config
      → new_audit_retention_service config ≡ ok config
      → ((cleanup out config t).0.1 ≡ none)
        × (total_deleted (cleanup out config t).0.0 ≡ count (due out config) t.rows)
        × ((cleanup out config t).1.rows ≡ keep (due out config) t.rows)
  unfolding CleanedAll
  cleanup_all config t a c reach accepted =
      let (no_error, total, rows) = cleanup-CleanedAll config t a c reach accepted in
      let same = cut-due out config c reach in
      (
        no_error,
        total ∙ count_same (cut out config) (due out config) t.rows same,
        rows ∙ keep_same (cut out config) (due out config) t.rows same,
      )
