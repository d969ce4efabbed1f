-- ===== src/Access/Closed.antt =====
-- A revoked session in the table, and the changes of rows that leave it revoked.
use sigryx.Base.{
  ℕ, ◌≡◌, refl, sym, ap, ◌∙◌, Bool, true, false, not, ◌&&◌, ◌||◌, Option, none, some, List, [], ◌∷◌,
  eqb, Bool-cases, inl, inr,
}
use sigryx.Base.Bytes.{Bytes}
use sigryx.SecretStore.{is_some}
use sigryx.Access.{Session, Access, World, first_row}
use sigryx.Access.Sessions.{update_rows, coalesce, revoked_now}

abbrev pub of_id : Bytes → Session → Bool
of_id id s = eqb s.id id

abbrev pub present : Bytes → List Session → Bool
present id sessions = is_some (first_row (of_id id) sessions)

abbrev pub closed_row : Bytes → Session → Bool
closed_row id s = not (eqb s.id id) || is_some s.revoked_at

unfoldable pub all_closed : Bytes → List Session → Bool
all_closed id [] = true
all_closed id (s ∷ ss) = closed_row id s && all_closed id ss

-- The session is in the table, and revoked.
pub record Closed (id : Bytes) (sessions : List Session) : Type 0 where
  pub here : present id sessions ≡ true
  pub closed : all_closed id sessions ≡ true

and_parts : (x y : Bool) → (x && y) ≡ true → (x ≡ true) × (y ≡ true)
and_parts true true h = (refl, refl)
and_parts true false h = absurd (let e : false ≡ true = h in cc)
and_parts false y h = absurd (let e : false ≡ true = h in cc)

and_true : {x y : Bool} → x ≡ true → y ≡ true → (x && y) ≡ true
and_true h k = rw (h, k) refl

or_true : (x : Bool) {y : Bool} → y ≡ true → (x || y) ≡ true
or_true true h = refl
or_true false h = h

pub first_row-closed :
    (id : Bytes) (ss : List Session) (s : Session)
    → all_closed id ss ≡ true
    → first_row (of_id id) ss ≡ some s
    → is_some s.revoked_at ≡ true
unfolding all_closed first_row
first_row-closed id [] s h f = absurd (cc f)
first_row-closed id (r ∷ ss) s h f =
    let (row, rest) = and_parts (closed_row id r) (all_closed id ss) h in
    elim (Bool-cases (eqb r.id id)) [
      | inl e ↦
          let same : r ≡ s = (let g : some r ≡ some s = rw e at f in cc) in
          let open_row : (not true || is_some r.revoked_at) ≡ true = rw e at row in
          ap (λ (t : Session). is_some t.revoked_at) (sym same) ∙ open_row
      | inr e ↦ first_row-closed id ss s rest (rw e at f)
    ]

-- A change of rows that keeps the identifiers and what is revoked
pub record IsMild (change : Session → Session) : Type 0 where
  pub same_id : (s : Session) → (change s).id ≡ s.id
  pub still : (s : Session) → is_some s.revoked_at ≡ true → is_some (change s).revoked_at ≡ true

closed_row-change :
    (id : Bytes) (change : Session → Session)
    → IsMild change
    → (s : Session) → closed_row id s ≡ true
    → closed_row id (change s) ≡ true
closed_row-change id change mild s h = elim (Bool-cases (eqb s.id id)) [
  | inl e ↦ rw (mild.same_id s, e) (mild.still s (rw e at h))
  | inr e ↦ rw (mild.same_id s, e) refl
]

module _ (id : Bytes) (test : Session → Bool) (change : Session → Session)
    (mild : IsMild change) where
  pub present-update : (ss : List Session) → present id (update_rows test change ss) ≡ present id ss
  unfolding first_row update_rows
  present-update [] = refl
  present-update (s ∷ ss) = elim (Bool-cases (test s)) [
    | inl t ↦ elim (Bool-cases (eqb s.id id)) [
      | inl e ↦ rw (t, mild.same_id s, e) refl
      | inr e ↦ rw (t, mild.same_id s, e) (present-update ss)
    ]
    | inr t ↦ elim (Bool-cases (eqb s.id id)) [
      | inl e ↦ rw (t, e) refl
      | inr e ↦ rw (t, e) (present-update ss)
    ]
  ]

  closed-update :
      (ss : List Session)
      → all_closed id ss ≡ true
      → all_closed id (update_rows test change ss) ≡ true
  unfolding all_closed update_rows
  closed-update [] h = refl
  closed-update (s ∷ ss) h =
      let (row, rest) = and_parts (closed_row id s) (all_closed id ss) h in
      elim (Bool-cases (test s)) [
        | inl t ↦ rw t (and_true (closed_row-change id change mild s row) (closed-update ss rest))
        | inr t ↦ rw t (and_true row (closed-update ss rest))
      ]

  pub update-Closed : (ss : List Session) → Closed id ss → Closed id (update_rows test change ss)
  update-Closed ss c = record {
    here = present-update ss ∙ c.here;
    closed = closed-update ss c.closed;
  }

coalesce_some : (r : Option ℕ) (t : ℕ) → is_some (coalesce r t) ≡ true
coalesce_some none t = refl
coalesce_some (some x) t = refl

pub revoked-IsMild : (world : World) (a : Access) → IsMild (revoked_now world a)
revoked-IsMild world a = record {
  same_id = λ s. refl;
  still = λ s h. coalesce_some s.revoked_at (world.now a.queries);
}

pub revoke_closes :
    (world : World) (id : Bytes) (a : Access) (ss : List Session)
    → all_closed id (update_rows (of_id id) (revoked_now world a) ss) ≡ true
unfolding all_closed update_rows
revoke_closes world id a [] = refl
revoke_closes world id a (s ∷ ss) =
    let set = coalesce_some s.revoked_at (world.now a.queries) in
    elim (Bool-cases (eqb s.id id)) [
      | inl e ↦ rw e (and_true (or_true (not (eqb s.id id)) set) (revoke_closes world id a ss))
      | inr e ↦ rw (e, e) (revoke_closes world id a ss)
    ]
