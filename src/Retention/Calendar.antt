-- ===== src/Retention/Calendar.antt =====
-- The cutoffs of Cleanup as dates: the rows that are due, and AddDate.
use sigryx.Base.{
  ℕ, ◌^◌, ◌<◌, ◌+◌, ◌-◌, ◌*◌, ◌≤◌, ◌≡◌, refl, ap, ◌∙◌, Bool, true, ◌&&◌, ◌||◌, arith, ltb,
  Bool-cases, inl, inr,
}
use sigryx.Retention.{
  pos, Int64, word, negated, cutoff, same_class, RetentionClass, normal, critical, AuditEvent,
  AuditRetentionConfig, is_positive, magnitude, Outside, day, expired,
}
use sigryx.Retention.Cleanup.{lt_not, IsTaken, IsAnswered}

positive_word : (n : Int64) → is_positive n ≡ true → (1 ≤ word n) × (word n < 2 ^ 63)
positive_word n h = (ground (arith, h), ground (arith, h))

positive-magnitude : (n : Int64) → is_positive n ≡ true → magnitude n ≡ word n
positive-magnitude n h = ground (arith, h)

-- What the documentation of AddDate promises of the days that lie between the year 1 and now: AddDate(0, 0, -d) is d
-- days earlier.
pub record IsCalendar (out : Outside) : Type 0 where
  pub back :
      (n : Int64) (d : ℕ)
      → n.bits ≡ 2 ^ 64 - d
      → 1 ≤ d
      → d < 2 ^ 63
      → d * day ≤ out.now
      → out.add_date out.now n ≡ pos (out.now - d * day)

-- The retention days reach back to the year 1 at most.
pub record InReach (out : Outside) (config : AuditRetentionConfig) : Type 0 where
  pub normals : magnitude config.normal_retention_days * day ≤ out.now
  pub criticals : magnitude config.critical_retention_days * day ≤ out.now

module _ (out : Outside) where
  -- The row is of the class and older than that many days, where these are more than none.
  abbrev pub due_for : RetentionClass → Int64 → AuditEvent → Bool
  due_for retention_class days row =
      is_positive days
      && (same_class row.retention_class retention_class
          && ltb (row.occurred_at + magnitude days * day) out.now)

  -- The row is older than the days that its class is kept for.
  abbrev pub due : AuditRetentionConfig → AuditEvent → Bool
  due config row =
      due_for normal config.normal_retention_days row
      || due_for critical config.critical_retention_days row

  -- The cutoff is so many days ago.
  cutoff_back :
      (days : Int64)
      → IsCalendar out
      → magnitude days * day ≤ out.now
      → is_positive days ≡ true
      → cutoff out days ≡ pos (out.now - magnitude days * day)
  cutoff_back days c reach h =
      let same = positive-magnitude days h in
      let (some_day, small) = positive_word days h in
      rw same (c.back (negated days) (word days) refl some_day small (omega (arith, reach, same)))

  -- The database deletes the row.
  abbrev pub cut_for : RetentionClass → Int64 → AuditEvent → Bool
  cut_for retention_class days row =
      is_positive days && expired retention_class (cutoff out days) row

  abbrev pub cut : AuditRetentionConfig → AuditEvent → Bool
  cut config row =
      cut_for normal config.normal_retention_days row
      || cut_for critical config.critical_retention_days row

  before_moved : (x y z : ℕ) → y ≤ z → ltb x (z - y) ≡ ltb (x + y) z
  before_moved x y z h = ground arith

  cut_for-due_for :
      (retention_class : RetentionClass) (days : Int64) (row : AuditEvent)
      → IsCalendar out
      → magnitude days * day ≤ out.now
      → cut_for retention_class days row ≡ due_for retention_class days row
  cut_for-due_for retention_class days row c reach = elim (Bool-cases (is_positive days)) [
    | inl e ↦
        rw (e, cutoff_back days c reach e)
          (ap (λ b. same_class row.retention_class retention_class && b)
            (before_moved row.occurred_at (magnitude days * day) out.now reach))
    | inr e ↦ rw e refl
  ]

  pub cut-due :
      (config : AuditRetentionConfig)
      → IsCalendar out
      → InReach out config
      → (row : AuditEvent) → cut config row ≡ due config row
  cut-due config c reach row =
      ap (λ b. b || cut_for critical config.critical_retention_days row)
        (cut_for-due_for normal config.normal_retention_days row c reach.normals)
      ∙ ap (λ b. due_for normal config.normal_retention_days row || b)
          (cut_for-due_for critical config.critical_retention_days row c reach.criticals)

  pub cutoff-IsTaken :
      (days : Int64)
      → IsAnswered out
      → IsCalendar out
      → magnitude days * day ≤ out.now
      → is_positive days ≡ true
      → IsTaken out (cutoff out days)
  cutoff-IsTaken days a c reach h =
      let back = cutoff_back days c reach h in
      let (some_day, _) = positive_word days h in
      let same = positive-magnitude days h in
      record {
        fits = rw back (a.fits (out.now - magnitude days * day) (omega arith));
        past = λ n. rw back (lt_not _ _ (omega (arith, a.clock n, some_day, same)));
      }
