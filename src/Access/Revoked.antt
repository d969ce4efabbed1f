-- ===== src/Access/Revoked.antt =====
-- What becomes of a session that was revoked.
use sigryx.Base.{
  ◌≡◌, refl, sym, ap, subst, ◌∙◌, Bool, true, false, not, ◌&&◌, ◌||◌, Option, none, some, List, [],
  ◌∷◌, eqb, eqb→eq, Bool-cases, inl, inr,
}
use sigryx.Base.Bytes.{Bytes}
use sigryx.SecretStore.{is_some}
use sigryx.Access.{
  AccessError, invalid_credentials, Session, User, Principal, Access, World, no_principal, counted,
  first_row, found_row, select_row,
}
use sigryx.Access.Sessions.{
  update_rows, change_sessions, revoked_now, rotates, revoke_session, revoke_user_sessions,
  rotate_session, create_session, is_user, logout,
}
use sigryx.Access.Authorize.{session_found, authorize_user}
use sigryx.Access.Closed.{
  of_id, present, all_closed, Closed, first_row-closed, revoked-IsMild, revoke_closes,
  present-update, update-Closed,
}

-- What can happen to the tables between two requests: the statements on sessions, which may fail, and
-- anything that leaves the sessions alone.
pub data Call : Type 0 where
  create_call : Session → Call
  rotate_call : Bytes → Bytes → Bytes → Call
  revoke_call : Bytes → Call
  revoke_user_call : Bytes → Call
  other_call : Access → Call

abbrev pub run_call : World → Call → Access → Access
run_call world (create_call s) a = (create_session world s a).1
run_call world (rotate_call id current fresh) a = (rotate_session world id current fresh a).1
run_call world (revoke_call id) a = (revoke_session world id a).1
run_call world (revoke_user_call user) a = (revoke_user_sessions world user a).1
run_call world (other_call b) a = record b { sessions = a.sessions }

unfoldable pub run_calls : World → List Call → Access → Access
unfolding create_session rotate_session revoke_session revoke_user_sessions
run_calls world [] a = a
run_calls world (call ∷ calls) a = run_calls world calls (run_call world call a)

module _ (world : World) (id : Bytes) where
  added-Closed :
      (s : Session) (ss : List Session)
      → present s.id ss ≡ false
      → Closed id ss
      → Closed id (record s { revoked_at = none } ∷ ss)
  unfolding all_closed first_row
  added-Closed s ss f c = elim (Bool-cases (eqb s.id id)) [
    | inl e ↦
        let gone : present id ss ≡ false = subst (λ i. present i ss ≡ false) (eqb→eq s.id id e) f in
        absurd (let clash : true ≡ false = sym c.here ∙ gone in cc)
    | inr e ↦ record { here = rw e c.here; closed = rw e c.closed }
  ]

  create-Closed :
      (s : Session) (a : Access)
      → Closed id a.sessions
      → Closed id (create_session world s a).1.sessions
  unfolding create_session
  create-Closed s a c = elim (Bool-cases (not (world.database_up a.queries))) [
    | inl e ↦ rw e c
    | inr e ↦ elim (Bool-cases (present s.id a.sessions)) [
      | inl f ↦ rw (e, f) c
      | inr f ↦
          elim (Bool-cases (
            is_some (
              first_row (λ (t : Session). eqb t.refresh_token_hash s.refresh_token_hash)
                a.sessions))) [
                  | inl g ↦ rw (e, f, g) c
                  | inr g ↦
                      elim (Bool-cases
                        (not (is_some (first_row (λ (u : User). eqb u.id s.user_id) a.users)))) [
                          | inl h ↦ rw (e, f, g, h) c
                          | inr h ↦ rw (e, f, g, h) (added-Closed s a.sessions f c)
                        ]
                ]
    ]
  ]

  rotate-Closed :
      (session current fresh : Bytes) (a : Access)
      → Closed id a.sessions
      → Closed id (rotate_session world session current fresh a).1.sessions
  unfolding rotate_session
  rotate-Closed session current fresh a c = elim (Bool-cases (not (world.database_up a.queries))) [
    | inl e ↦ rw e c
    | inr e ↦ elim (Bool-cases (not (is_some (first_row (rotates session current) a.sessions)))) [
      | inl f ↦ rw (e, f) c
      | inr f ↦
          elim (Bool-cases (
            is_some (
              first_row
                (λ (s : Session). eqb s.refresh_token_hash fresh && not (rotates session current s))
                a.sessions))) [
                  | inl g ↦ rw (e, f, g) c
                  | inr g ↦
                      rw (e, f, g)
                        (update-Closed id (rotates session current)
                          (λ s. record s { refresh_token_hash = fresh })
                          (record { same_id = λ s. refl; still = λ s h. h }) a.sessions c)
                ]
    ]
  ]

  revoke-Closed :
      (test : Session → Bool) (a : Access)
      → Closed id a.sessions
      → Closed id (change_sessions world test (revoked_now world a) a).1.sessions
  revoke-Closed test a c = elim (Bool-cases (world.database_up a.queries)) [
    | inl e ↦
        rw e (update-Closed id test (revoked_now world a) (revoked-IsMild world a) a.sessions c)
    | inr e ↦ rw e c
  ]

  call-Closed :
      (call : Call) (a : Access) → Closed id a.sessions → Closed id (run_call world call a).sessions
  unfolding revoke_session revoke_user_sessions
  call-Closed (create_call s) a c = create-Closed s a c
  call-Closed (rotate_call session current fresh) a c = rotate-Closed session current fresh a c
  call-Closed (revoke_call session) a c = revoke-Closed (of_id session) a c
  call-Closed (revoke_user_call user) a c = revoke-Closed (λ s. eqb s.user_id user) a c
  call-Closed (other_call b) a c = c

  calls-Closed :
      (calls : List Call) (a : Access)
      → Closed id a.sessions
      → Closed id (run_calls world calls a).sessions
  unfolding run_calls
  calls-Closed [] a c = c
  calls-Closed (call ∷ calls) a c =
      calls-Closed calls (run_call world call a) (call-Closed call a c)

  session_found-Closed :
      (user ip permission : Bytes) (a : Access) (row : Option Session)
      → first_row (of_id id) a.sessions ≡ row
      → Closed id a.sessions
      → (session_found world user ip permission (found_row row, counted a)).0
        ≡ (no_principal, some invalid_credentials)
  unfolding session_found
  session_found-Closed user ip permission a none f c = refl
  session_found-Closed user ip permission a (some s) f c =
      let r = first_row-closed id a.sessions s c.closed f in
      elim (Bool-cases (eqb s.user_id user)) [ inl e ↦ rw (e, r) refl | inr e ↦ rw e refl ]

  authorize-Closed :
      (user ip permission : Bytes) (a : Access)
      → Closed id a.sessions
      → (authorize_user world user id ip permission a).0 ≡ (no_principal, some invalid_credentials)
  unfolding authorize_user session_found select_row
  authorize-Closed user ip permission a c = elim (Bool-cases (eqb id [])) [
    | inl e ↦ rw e refl
    | inr e ↦ elim (Bool-cases (world.database_up a.queries)) [
      | inl u ↦
          rw (e, u)
            (session_found-Closed user ip permission a (first_row (of_id id) a.sessions) refl c)
      | inr u ↦ rw (e, u) refl
    ]
  ]

some_ne_none :
    {e : AccessError} {a b : Access} → Path (Option AccessError × Access) (some e, a) (none, b) → ⊥
some_ne_none h = cc (ap (λ (t : Option AccessError × Access). t.0) h)

-- Logout without an error has revoked the session of the principal.
logout-Closed :
    (world : World) (p : Principal) (a b : Access)
    → present p.session_id a.sessions ≡ true
    → logout world p a ≡ (none, b)
    → Closed p.session_id b.sessions
unfolding logout revoke_session
logout-Closed world p a b here out =
    elim (Bool-cases (not (is_user p.kind) || eqb p.session_id [])) [
      | inl e ↦ absurd (some_ne_none (rw e at out))
      | inr e ↦ elim (Bool-cases (world.database_up a.queries)) [
        | inl u ↦
            let id = p.session_id in
            let left : Path (Option AccessError × Access)
                (
                  none,
                  record (counted a) {
                    sessions = update_rows (of_id id) (revoked_now world a) a.sessions;
                  },
                )
                (none, b) =
              rw (e, u) at out in
            subst (Closed id) (ap (λ (t : Option AccessError × Access). t.1.sessions) left)
              (record {
                here =
                    present-update id (of_id id) (revoked_now world a) (revoked-IsMild world a)
                      a.sessions
                    ∙ here;
                closed = revoke_closes world id a a.sessions;
              })
        | inr u ↦ absurd (some_ne_none (rw (e, u) at out))
      ]
    ]

-- Where Logout returns no error, and the session of the principal was in the table, no later request is
-- let in by that session: whatever statements on sessions and whatever other changes of the tables come
-- between, and whatever calls of the database fail, authorizeUser answers with ErrInvalidCredentials and
-- no principal.
pub authorize_user-logout :
    (world : World) (p : Principal) (a b : Access)
    → present p.session_id a.sessions ≡ true
    → logout world p a ≡ (none, b)
    → (calls : List Call) (user ip permission : Bytes)
    → (authorize_user world user p.session_id ip permission (run_calls world calls b)).0
      ≡ (no_principal, some invalid_credentials)
authorize_user-logout world p a b here out calls user ip permission =
    authorize-Closed world p.session_id user ip permission (run_calls world calls b)
      (calls-Closed world p.session_id calls b (logout-Closed world p a b here out))
