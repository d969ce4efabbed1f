-- ===== src/Retention/Cleanup.antt =====
-- What Cleanup deletes: the rows that are due and, where every call is answered, all of them.
use sigryx.Base.{
  ℕ, zero, suc, ◌+◌, ◌<◌, ◌≤◌, ◌≡◌, refl, sym, ap, ◌∙◌, Bool, true, false, not, ◌&&◌, ◌||◌, none,
  List, arith, ltb, if◌then◌else◌, Bool-cases, inl, inr,
}
use sigryx.Base.Outcome.{Outcome, ok, err}
use sigryx.Retention.{
  ℤ, pos, is_after, day, RetentionError, database, RetentionClass, AuditEvent, AuditTable, called,
  Outside, max_audit_cleanup_batch_size, expired, delete_rows, purge_expired, Purged, after_purge,
  purge_loop,
}
use sigryx.Retention.Batches.{keep, count, keep_all, delete_rows-Deleted, keep-delete_rows}

-- Every call is answered, the context is not done, the clock of the database is at most a day behind that
-- of the service, and the database takes the times from the year 1 to now.
pub record IsAnswered (out : Outside) : Type 0 where
  pub up : (n : ℕ) → out.database_up n ≡ true
  pub live : (n : ℕ) → out.cancelled n ≡ false
  pub clock : (n : ℕ) → out.now ≤ out.current_timestamp n + day
  pub fits : (t : ℕ) → t ≤ out.now → out.timestamp_fits (pos t) ≡ true

-- The database takes a cutoff.
pub record IsTaken (out : Outside) (before : ℤ) : Type 0 where
  pub fits : out.timestamp_fits before ≡ true
  pub past : (n : ℕ) → is_after before (out.current_timestamp n) ≡ false

-- All rows that pass the test are gone and counted, the others are there.
pub record AllPurged (test : AuditEvent → Bool) (total : ℕ) (t : AuditTable) (result : Purged)
    : Type 0 where
  pub counted : result.0 ≡ (total + count test t.rows, none)
  pub purged : result.1.rows ≡ keep test t.rows

pub lt_not : (n m : ℕ) → n ≤ m → ltb m n ≡ false
lt_not n m h = ground arith

full_batch : (n m : ℕ) → ltb n m ≡ false → n ≤ m → n ≡ m
full_batch n m h k = ground (arith, h)

few_rows : (n m : ℕ) → ltb n m ≡ true → n < m
few_rows n m h = ground (arith, h)

module _ (out : Outside) (retention_class : RetentionClass) (before : ℤ) (batch : ℕ) where
  abbrev test : AuditEvent → Bool
  test = expired retention_class before

  abbrev deletion : AuditTable → ℕ × List AuditEvent
  deletion t = delete_rows test batch t.rows

  purge_expired_ok :
      (t : AuditTable)
      → IsAnswered out
      → IsTaken out before
      → 1 ≤ batch
      → batch ≤ max_audit_cleanup_batch_size
      → purge_expired out retention_class before batch t
        ≡ (ok (deletion t).0, called (record t { rows = (deletion t).1 }))
  unfolding purge_expired
  purge_expired_ok t a cutoff h k =
      rw
        (
          a.up t.calls,
          cutoff.fits,
          cutoff.past t.calls,
          lt_not 1 batch h,
          lt_not batch max_audit_cleanup_batch_size k,
        )
        refl

  pub purge_loop-AllPurged :
      (fuel total : ℕ) (t : AuditTable)
      → IsAnswered out
      → IsTaken out before
      → 1 ≤ batch
      → batch ≤ max_audit_cleanup_batch_size
      → count test t.rows < fuel
      → AllPurged test total t (purge_loop out fuel retention_class before batch total t)
  unfolding purge_loop after_purge
  purge_loop-AllPurged zero total t a cutoff h k enough = absurd (omega arith)
  purge_loop-AllPurged (suc fuel) total t a cutoff h k enough =
      let d = delete_rows-Deleted test batch t.rows in
      let k0 = (deletion t).0 in
      let rest = (deletion t).1 in
      let t' = called (record t { rows = rest }) in
      elim (Bool-cases (ltb k0 batch)) [
        | inl e ↦
            let few : k0 < batch = few_rows k0 batch e in
            let none_left : count test rest ≡ 0 = d.emptied few in
            rw (a.live t.calls, purge_expired_ok t a cutoff h k, e)
              (record {
                counted = ap (λ n. (total + n, none)) (omega (arith, d.counted, none_left));
                purged = sym (keep_all test rest none_left) ∙ d.kept;
              })
        | inr e ↦
            let full : k0 ≡ batch = full_batch k0 batch e d.bounded in
            let fewer : count test rest < fuel = omega (arith, d.counted, full) in
            let later = purge_loop-AllPurged fuel (total + k0) t' a cutoff h k fewer in
            rw (a.live t.calls, purge_expired_ok t a cutoff h k, e)
              (record {
                counted = later.counted ∙ ap (λ n. (n, none)) (omega (arith, d.counted));
                purged = later.purged ∙ d.kept;
              })
      ]

  -- Whatever fails, a row that is not due stays, if what is deleted is due.
  after_purge_keeps :
      (due : AuditEvent → Bool) (total : ℕ) (result : Outcome RetentionError ℕ × AuditTable)
      (rounds : ℕ → AuditTable → Purged) (rows : List AuditEvent)
      → keep due result.1.rows ≡ rows
      → ((n : ℕ) → keep due (rounds n result.1).1.rows ≡ rows)
      → keep due (after_purge batch total result rounds).1.rows ≡ rows
  unfolding after_purge
  after_purge_keeps due total (err e, t) rounds rows h k = h
  after_purge_keeps due total (ok n, t) rounds rows h k = elim (Bool-cases (ltb n batch)) [
    | inl e ↦ rw e h
    | inr e ↦ rw e (k (total + n))
  ]

  purge_expired_keeps :
      (due : AuditEvent → Bool) (t : AuditTable)
      → ((row : AuditEvent) → test row ≡ true → due row ≡ true)
      → keep due (purge_expired out retention_class before batch t).1.rows ≡ keep due t.rows
  unfolding purge_expired
  purge_expired_keeps due t h =
      either_table
        (not (out.database_up t.calls && out.timestamp_fits before)
          || (is_after before (out.current_timestamp t.calls)
              || (ltb batch 1 || ltb max_audit_cleanup_batch_size batch)))
        (err database, called t) (ok (deletion t).0, called (record t { rows = (deletion t).1 }))
        refl (keep-delete_rows due test batch t.rows h)
    where
      either_table :
          (b : Bool) (x y : Outcome RetentionError ℕ × AuditTable)
          → keep due x.1.rows ≡ keep due t.rows
          → keep due y.1.rows ≡ keep due t.rows
          → keep due (if b then x else y).1.rows ≡ keep due t.rows
      either_table true x y p q = p
      either_table false x y p q = q

  pub purge_loop_keeps :
      (due : AuditEvent → Bool) (fuel total : ℕ) (t : AuditTable)
      → ((row : AuditEvent) → test row ≡ true → due row ≡ true)
      → keep due (purge_loop out fuel retention_class before batch total t).1.rows ≡ keep due t.rows
  unfolding purge_loop
  purge_loop_keeps due zero total t h = refl
  purge_loop_keeps due (suc fuel) total t h = elim (Bool-cases (out.cancelled t.calls)) [
    | inl e ↦ rw e refl
    | inr e ↦
        let result = purge_expired out retention_class before batch t in
        rw e (
          after_purge_keeps due total result (purge_loop out fuel retention_class before batch)
            (keep due t.rows) (purge_expired_keeps due t h)
            (λ n. purge_loop_keeps due fuel n result.1 h ∙ purge_expired_keeps due t h))
  ]
