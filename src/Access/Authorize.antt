-- ===== src/Access/Authorize.antt =====
-- authorizeUser and authorizeService of internal/core/service/auth.go, with ipAllowed and hasPermission of access.go.
use sigryx.Base.{
  ℕ, Bool, true, false, not, ◌&&◌, ◌||◌, Option, none, some, List, [], ◌∷◌, ltb, eqb, if◌then◌else◌,
}
use sigryx.Base.Bytes.{Bytes}
use sigryx.Base.Outcome.{Outcome, ok, err}
use sigryx.SecretStore.{is_some}
use sigryx.Access.{
  AccessError, invalid_credentials, permission_denied, ip_not_allowed, Role, User, Session,
  ServiceAccount, user_kind, service_kind, Principal, Access, World, Decision, no_principal,
  select_row, get_session_by_id, get_user_by_id, get_role_by_id, get_account_by_id,
}

unfoldable pub lists_permission : List Bytes → Bytes → Bool
lists_permission [] target = false
lists_permission (value ∷ values) target = eqb value target || lists_permission values target

-- hasPermission
unfoldable pub has_permission : List Bytes → Bytes → Bool
unfolding lists_permission
has_permission values target = eqb target [] || lists_permission values target

-- The guard of authorizeUser on a session
abbrev pub session_live : Bytes → ℕ → Session → Bool
session_live user time s =
    eqb s.user_id user && (not (is_some s.revoked_at) && ltb time s.expires_at)

-- authorizeUser behind GetRoleByID
unfoldable pub user_role : Bytes → Principal → Outcome AccessError Role × Access → Decision × Access
unfolding has_permission
user_role permission p (err e, a) = ((p, some permission_denied), a)
user_role permission p (ok role, a) = (
  (
    record p { permissions = role.permissions },
    (if has_permission role.permissions permission then none else some permission_denied),
  ),
  a,
)

-- authorizeService behind GetRoleByID
unfoldable pub service_role :
    Bytes → Principal → Outcome AccessError Role × Access → Decision × Access
unfolding has_permission
service_role permission p (err e, a) = ((p, some permission_denied), a)
service_role permission p (ok role, a) =
    if not (has_permission role.permissions permission)
    then ((p, some permission_denied), a)
    else ((record p { permissions = role.permissions }, none), a)

module _ (world : World) where
  abbrev pub prefix_has : Option Bytes → Bytes → Bool
  prefix_has none addr = false
  prefix_has (some prefix) addr = world.contains prefix addr

  -- The loop of ipAllowed
  unfoldable pub in_some_prefix : Bytes → List Bytes → Bool
  in_some_prefix addr [] = false
  in_some_prefix addr (value ∷ values) =
      prefix_has (world.parse_prefix value) addr || in_some_prefix addr values

  abbrev pub addr_allowed : Option Bytes → List Bytes → Bool
  addr_allowed none cidrs = false
  addr_allowed (some addr) cidrs = in_some_prefix (world.unmap addr) cidrs

  -- ipAllowed
  unfoldable pub ip_allowed : Bytes → List Bytes → Bool
  unfolding in_some_prefix
  ip_allowed ip [] = true
  ip_allowed ip (value ∷ values) = addr_allowed (world.parse_addr ip) (value ∷ values)

  -- authorizeUser behind GetUserByID
  unfoldable pub user_found :
      Bytes → Bytes → Session → Outcome AccessError User × Access → Decision × Access
  unfolding user_role ip_allowed select_row
  user_found ip permission s (err e, a) = ((no_principal, some invalid_credentials), a)
  user_found ip permission s (ok user, a) =
      let p : Principal = record {
        id = user.id;
        kind = user_kind;
        session_id = s.id;
        root_admin = user.is_root_admin;
        permissions = [];
      } in
      if not user.active
      then ((no_principal, some invalid_credentials), a)
      else if not (ip_allowed ip user.allowed_cidrs)
      then ((p, some ip_not_allowed), a)
      else if user.is_root_admin || eqb permission []
      then ((p, none), a)
      else user_role permission p (get_role_by_id world user.role_id a)

  -- authorizeUser behind GetSessionByID
  unfoldable pub session_found :
      Bytes → Bytes → Bytes → Outcome AccessError Session × Access → Decision × Access
  unfolding user_found select_row
  session_found user ip permission (err e, a) = ((no_principal, some invalid_credentials), a)
  session_found user ip permission (ok s, a) =
      if not (session_live user (world.now a.queries) s)
      then ((no_principal, some invalid_credentials), a)
      else user_found ip permission s (get_user_by_id world user a)

  -- authorizeUser
  unfoldable pub authorize_user : Bytes → Bytes → Bytes → Bytes → Access → Decision × Access
  unfolding session_found select_row
  authorize_user user session ip permission a =
      if eqb session []
      then ((no_principal, some invalid_credentials), a)
      else session_found user ip permission (get_session_by_id world session a)

  -- authorizeService behind GetServiceAccountByID
  unfoldable pub account_found :
      Bytes → Bytes → Outcome AccessError ServiceAccount × Access → Decision × Access
  unfolding service_role ip_allowed select_row
  account_found ip permission (err e, a) = ((no_principal, some invalid_credentials), a)
  account_found ip permission (ok account, a) =
      let p : Principal = record no_principal { id = account.id; kind = service_kind } in
      if not account.active
      then ((no_principal, some invalid_credentials), a)
      else if not (ip_allowed ip account.allowed_cidrs)
      then ((p, some ip_not_allowed), a)
      else if eqb permission []
      then ((p, none), a)
      else service_role permission p (get_role_by_id world account.role_id a)

  -- authorizeService
  unfoldable pub authorize_service : Bytes → Bytes → Bytes → Access → Decision × Access
  unfolding account_found select_row
  authorize_service account ip permission a =
      account_found ip permission (get_account_by_id world account a)
