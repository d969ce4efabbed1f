-- ===== src/Retention/Batches.antt =====
-- What the batches of purgeClass delete.
use sigryx.Base.{
  ℕ, zero, suc, ◌+◌, ◌<◌, ◌≤◌, ◌≡◌, refl, ap, Bool, true, false, not, ◌&&◌, ◌||◌, List, [], ◌∷◌,
  arith, if◌then◌else◌, Bool-cases, inl, inr,
}
use sigryx.Retention.{AuditEvent, delete_rows, row_count}

-- The rows that do not pass a test, in their order
unfoldable pub keep : (AuditEvent → Bool) → List AuditEvent → List AuditEvent
keep test [] = []
keep test (row ∷ rows) = let rest = keep test rows in if test row then rest else row ∷ rest

unfoldable pub count : (AuditEvent → Bool) → List AuditEvent → ℕ
count test [] = 0
count test (row ∷ rows) = let rest = count test rows in if test row then suc rest else rest

pub count-le :
    (test : AuditEvent → Bool) (rows : List AuditEvent) → count test rows ≤ row_count rows
unfolding count
count-le test [] = omega arith
count-le test (row ∷ rows) = elim (Bool-cases (test row)) [
  | inl e ↦ rw e (omega (arith, count-le test rows))
  | inr e ↦ rw e (omega (arith, count-le test rows))
]

-- Where no row passes, all are kept.
pub keep_all :
    (test : AuditEvent → Bool) (rows : List AuditEvent)
    → count test rows ≡ 0
    → keep test rows ≡ rows
unfolding count keep
keep_all test [] h = refl
keep_all test (row ∷ rows) h = elim (Bool-cases (test row)) [
  | inl e ↦ let some_row : suc (count test rows) ≡ 0 = rw e at h in absurd (omega arith)
  | inr e ↦ rw e (ap (λ l. row ∷ l) (keep_all test rows (rw e at h)))
]

-- The result of the statement.
pub record Deleted (test : AuditEvent → Bool) (limit : ℕ) (rows : List AuditEvent)
    (result : ℕ × List AuditEvent) : Type 0 where
  pub kept : keep test result.1 ≡ keep test rows
  pub counted : result.0 + count test result.1 ≡ count test rows
  pub bounded : result.0 ≤ limit
  pub emptied : result.0 < limit → count test result.1 ≡ 0

pub delete_rows-Deleted :
    (test : AuditEvent → Bool) (limit : ℕ) (rows : List AuditEvent)
    → Deleted test limit rows (delete_rows test limit rows)
unfolding delete_rows keep count
delete_rows-Deleted test limit [] = record {
  kept = refl;
  counted = refl;
  bounded = omega arith;
  emptied = λ h. refl;
}
delete_rows-Deleted test zero (row ∷ rows) = record {
  kept = refl;
  counted = omega arith;
  bounded = omega arith;
  emptied = λ h. absurd (omega (arith, h));
}
delete_rows-Deleted test (suc limit) (row ∷ rows) = elim (Bool-cases (test row)) [
  | inl e ↦
      let d = delete_rows-Deleted test limit rows in
      rw e (record {
        kept = rw e d.kept;
        counted = rw e (omega (arith, d.counted));
        bounded = omega (arith, d.bounded);
        emptied = λ h. d.emptied (omega (arith, h));
      })
  | inr e ↦
      let d = delete_rows-Deleted test (suc limit) rows in
      rw e (record {
        kept = rw e (ap (λ l. row ∷ l) d.kept);
        counted = rw e d.counted;
        bounded = d.bounded;
        emptied = λ h. rw e (d.emptied h);
      })
]

-- A test that includes another one keeps what the other one's statement keeps.
pub keep-delete_rows :
    (due test : AuditEvent → Bool) (limit : ℕ) (rows : List AuditEvent)
    → ((row : AuditEvent) → test row ≡ true → due row ≡ true)
    → keep due (delete_rows test limit rows).1 ≡ keep due rows
unfolding delete_rows keep
keep-delete_rows due test limit [] h = refl
keep-delete_rows due test zero (row ∷ rows) h = refl
keep-delete_rows due test (suc limit) (row ∷ rows) h = elim (Bool-cases (test row)) [
  | inl e ↦ rw (e, h row e) (keep-delete_rows due test limit rows h)
  | inr e ↦
      rw e (ap (λ l. if due row then l else row ∷ l) (keep-delete_rows due test (suc limit) rows h))
]

pub keep_none : (rows : List AuditEvent) → keep (λ r. false) rows ≡ rows
unfolding keep
keep_none [] = refl
keep_none (row ∷ rows) = ap (λ l. row ∷ l) (keep_none rows)

pub count_none : (rows : List AuditEvent) → count (λ r. false) rows ≡ 0
unfolding count
count_none [] = refl
count_none (row ∷ rows) = count_none rows

-- One test after another keeps what passes neither.
pub keep_both :
    (a b : AuditEvent → Bool) (rows : List AuditEvent)
    → keep b (keep a rows) ≡ keep (λ r. a r || b r) rows
unfolding keep
keep_both a b [] = refl
keep_both a b (row ∷ rows) = elim (Bool-cases (a row)) [
  | inl e ↦ rw e (keep_both a b rows)
  | inr e ↦ rw e (ap (λ l. if b row then l else row ∷ l) (keep_both a b rows))
]

pub count_both :
    (a b : AuditEvent → Bool) (rows : List AuditEvent)
    → count a rows + count b (keep a rows) ≡ count (λ r. a r || b r) rows
unfolding keep count
count_both a b [] = refl
count_both a b (row ∷ rows) = elim (Bool-cases (a row)) [
  | inl e ↦ rw e (omega (arith, count_both a b rows))
  | inr e ↦ rw e (elim (Bool-cases (b row)) [
    | inl f ↦ rw f (omega (arith, count_both a b rows))
    | inr f ↦ rw f (count_both a b rows)
  ])
]

-- Where nothing is purged, nothing is due.
pub idle :
    (a c : Bool) (p q : AuditEvent → Bool) (rows : List AuditEvent)
    → not (a || c) ≡ true
    → (keep (λ r. (a && p r) || (c && q r)) rows ≡ rows)
      × (count (λ r. (a && p r) || (c && q r)) rows ≡ 0)
idle false false p q rows h = (keep_none rows, count_none rows)
idle false true p q rows h = cc
idle true c p q rows h = cc

-- Tests that agree keep and count the same.
pub keep_same :
    (a b : AuditEvent → Bool) (rows : List AuditEvent)
    → ((row : AuditEvent) → a row ≡ b row)
    → keep a rows ≡ keep b rows
unfolding keep
keep_same a b [] h = refl
keep_same a b (row ∷ rows) h =
    rw (h row) (ap (λ l. if b row then l else row ∷ l) (keep_same a b rows h))

pub count_same :
    (a b : AuditEvent → Bool) (rows : List AuditEvent)
    → ((row : AuditEvent) → a row ≡ b row)
    → count a rows ≡ count b rows
unfolding count
count_same a b [] h = refl
count_same a b (row ∷ rows) h =
    rw (h row) (ap (λ n. if b row then suc n else n) (count_same a b rows h))
