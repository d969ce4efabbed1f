-- ===== src/Access.antt =====
-- authorizeUser, authorizeService and Logout of internal/core/service/auth.go, ipAllowed and hasPermission of
-- access.go, and the statements on sessions of internal/adapter/out/persistence/postgres/access_repository.go.
-- A call of the database fails where `database_up` says so, by the number of calls made before, and `now` gives the
-- time by the same number. An address and a prefix of net/netip stand as lists of bytes.
pub mod Sessions
pub mod Authorize
pub mod Closed
pub mod Revoked
pub mod Tests
use sigryx.Base.{
  ℕ, ◌+◌, Bool, true, false, not, ◌&&◌, ◌||◌, Option, none, some, List, [], ◌∷◌, ltb, eqb,
  if◌then◌else◌,
}
use sigryx.Base.Bytes.{Bytes}
use sigryx.Base.Outcome.{Outcome, ok, err}
use sigryx.SecretStore.{is_some}

pub data AccessError : Type 0 where
  -- internal/core/service/auth.go
  invalid_credentials permission_denied ip_not_allowed user_principal_only : AccessError
  -- internal/core/port/out, and any other error of the database
  row_not_found access_already_exists database : AccessError

-- domain.Role
pub record Role : Type 0 where
  pub id : Bytes
  pub permissions : List Bytes

-- domain.User, less its name and password
pub record User : Type 0 where
  pub id : Bytes
  pub is_root_admin : Bool
  pub active : Bool
  pub role_id : Bytes
  pub allowed_cidrs : List Bytes

-- domain.Session
pub record Session : Type 0 where
  pub id : Bytes
  pub user_id : Bytes
  pub refresh_token_hash : Bytes
  pub expires_at : ℕ
  pub revoked_at : Option ℕ

-- domain.ServiceAccount, less its name and credentials
pub record ServiceAccount : Type 0 where
  pub id : Bytes
  pub active : Bool
  pub role_id : Bytes
  pub allowed_cidrs : List Bytes

pub data PrincipalKind : Type 0 where
  no_kind user_kind service_kind : PrincipalKind

-- domain.Principal
pub record Principal : Type 0 where
  pub id : Bytes
  pub kind : PrincipalKind
  pub session_id : Bytes
  pub root_admin : Bool
  pub permissions : List Bytes

-- The tables, and the number of calls
pub record Access : Type 0 where
  pub users : List User
  pub roles : List Role
  pub accounts : List ServiceAccount
  pub sessions : List Session
  pub queries : ℕ

-- net/netip, the database and the clock
pub record World : Type 0 where
  pub parse_addr : Bytes → Option Bytes
  pub unmap : Bytes → Bytes
  pub parse_prefix : Bytes → Option Bytes
  pub contains : Bytes → Bytes → Bool
  pub database_up : ℕ → Bool
  pub now : ℕ → ℕ

-- What authorizeUser and authorizeService return.
abbrev pub Decision : Type 0
Decision = Principal × Option AccessError

abbrev pub no_principal : Principal
no_principal = record {
  id = [];
  kind = no_kind;
  session_id = [];
  root_admin = false;
  permissions = [];
}

abbrev pub counted : Access → Access
counted a = record a { queries = a.queries + 1 }

-- The row with an identifier
unfoldable pub first_row : {A : Type 0} → (A → Bool) → List A → Option A
first_row test [] = none
first_row test (row ∷ rows) = if test row then some row else first_row test rows

abbrev pub found_row : {A : Type 0} → Option A → Outcome AccessError A
found_row none = err row_not_found
found_row (some row) = ok row

module _ (world : World) where
  -- A `SELECT` of one row
  unfoldable pub select_row :
      {A : Type 0} → (A → Bool) → List A → Access → Outcome AccessError A × Access
  unfolding first_row
  select_row test rows a =
      if world.database_up a.queries
      then (found_row (first_row test rows), counted a)
      else (err database, counted a)

  -- AccessRepository.GetSessionByID
  abbrev pub get_session_by_id : Bytes → Access → Outcome AccessError Session × Access
  get_session_by_id id a = select_row (λ (s : Session). eqb s.id id) a.sessions a

  -- AccessRepository.GetUserByID
  abbrev pub get_user_by_id : Bytes → Access → Outcome AccessError User × Access
  get_user_by_id id a = select_row (λ (u : User). eqb u.id id) a.users a

  -- AccessRepository.GetRoleByID
  abbrev pub get_role_by_id : Bytes → Access → Outcome AccessError Role × Access
  get_role_by_id id a = select_row (λ (r : Role). eqb r.id id) a.roles a

  -- AccessRepository.GetServiceAccountByID
  abbrev pub get_account_by_id : Bytes → Access → Outcome AccessError ServiceAccount × Access
  get_account_by_id id a = select_row (λ (c : ServiceAccount). eqb c.id id) a.accounts a
