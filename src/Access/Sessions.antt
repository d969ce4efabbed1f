-- ===== src/Access/Sessions.antt =====
-- The statements on sessions and Logout: internal/adapter/out/persistence/postgres/access_repository.go and
-- internal/core/service/auth.go.
use sigryx.Base.{
  ℕ, Bool, true, false, not, ◌&&◌, ◌||◌, Option, none, some, List, [], ◌∷◌, eqb, if◌then◌else◌,
}
use sigryx.Base.Bytes.{Bytes}
use sigryx.SecretStore.{is_some}
use sigryx.Access.{
  AccessError, user_principal_only, row_not_found, access_already_exists, database, User, Session,
  PrincipalKind, no_kind, user_kind, service_kind, Principal, Access, World, counted, first_row,
}

-- `UPDATE sessions SET ... WHERE ...`
unfoldable pub update_rows : (Session → Bool) → (Session → Session) → List Session → List Session
update_rows test change [] = []
update_rows test change (s ∷ ss) = (if test s then change s else s) ∷ update_rows test change ss

-- `revoked_at = COALESCE(revoked_at, now())`
abbrev pub coalesce : Option ℕ → ℕ → Option ℕ
coalesce none time = some time
coalesce (some t) time = some t

abbrev pub rotates : Bytes → Bytes → Session → Bool
rotates id current s =
    eqb s.id id && (eqb s.refresh_token_hash current && not (is_some s.revoked_at))

abbrev pub is_user : PrincipalKind → Bool
is_user user_kind = true
is_user no_kind = false
is_user service_kind = false

module _ (world : World) where
  abbrev pub change_sessions :
      (Session → Bool) → (Session → Session) → Access → Option AccessError × Access
  change_sessions test change a =
      if world.database_up a.queries
      then (none, record (counted a) { sessions = update_rows test change a.sessions })
      else (some database, counted a)

  abbrev pub revoked_now : Access → Session → Session
  revoked_now a s = record s { revoked_at = coalesce s.revoked_at (world.now a.queries) }

  -- AccessRepository.RevokeSession
  unfoldable pub revoke_session : Bytes → Access → Option AccessError × Access
  unfolding update_rows
  revoke_session id a = change_sessions (λ s. eqb s.id id) (revoked_now a) a

  -- AccessRepository.RevokeUserSessions
  unfoldable pub revoke_user_sessions : Bytes → Access → Option AccessError × Access
  unfolding update_rows
  revoke_user_sessions user a = change_sessions (λ s. eqb s.user_id user) (revoked_now a) a

  -- AccessRepository.RotateSession. The unique index on the hashes refuses one that a row has.
  unfoldable pub rotate_session : Bytes → Bytes → Bytes → Access → Option AccessError × Access
  unfolding update_rows first_row
  rotate_session id current fresh a =
      if not (world.database_up a.queries)
      then (some database, counted a)
      else if not (is_some (first_row (rotates id current) a.sessions))
      then (some row_not_found, counted a)
      else if is_some (
          first_row (λ (s : Session). eqb s.refresh_token_hash fresh && not (rotates id current s))
            a.sessions)
      then (some access_already_exists, counted a)
      else (
        none,
        record (counted a) {
          sessions =
              update_rows (rotates id current) (λ s. record s { refresh_token_hash = fresh })
                a.sessions;
        },
      )

  -- AccessRepository.CreateSession, with the key, the unique index and the reference of the table
  unfoldable pub create_session : Session → Access → Option AccessError × Access
  unfolding first_row
  create_session session a =
      if not (world.database_up a.queries)
      then (some database, counted a)
      else if is_some (first_row (λ (s : Session). eqb s.id session.id) a.sessions)
      then (some access_already_exists, counted a)
      else if is_some (
          first_row (λ (s : Session). eqb s.refresh_token_hash session.refresh_token_hash)
            a.sessions)
      then (some access_already_exists, counted a)
      else if not (is_some (first_row (λ (u : User). eqb u.id session.user_id) a.users))
      then (some database, counted a)
      else (
        none,
        record (counted a) { sessions = record session { revoked_at = none } ∷ a.sessions },
      )

  -- AuthService.Logout
  unfoldable pub logout : Principal → Access → Option AccessError × Access
  unfolding revoke_session
  logout p a =
      if not (is_user p.kind) || eqb p.session_id []
      then (some user_principal_only, a)
      else revoke_session p.session_id a
