-- ===== src/Access/Tests.antt =====
-- A session that is let in, and is not after its logout.
use sigryx.Base.{List, false, ◌≡◌, refl, true, none, some, [], ◌∷◌, eqb}
use sigryx.Base.Text.{codes}
use sigryx.Access.{
  Session, Principal, user_kind, Access, World, no_principal, counted, invalid_credentials,
  ip_not_allowed, permission_denied, user_principal_only, row_not_found, first_row,
}
use sigryx.Access.Sessions.{logout, rotate_session}
use sigryx.Access.Authorize.{authorize_user, authorize_service}
use sigryx.Access.Closed.{present}
use sigryx.Access.Revoked.{Call, create_call, rotate_call, run_calls, authorize_user-logout}

-- The only prefix is "10.", of the address "10.1".
abbrev world : World
world = record {
  parse_addr = λ text. some text;
  unmap = λ addr. addr;
  parse_prefix = λ text. some text;
  contains = λ prefix addr. eqb addr (codes "10.1");
  database_up = λ n. true;
  now = λ n. 5;
}

abbrev session : Session
session = record {
  id = codes "s";
  user_id = codes "u";
  refresh_token_hash = codes "h";
  expires_at = 6;
  revoked_at = none;
}

abbrev start : Access
start = record {
  users =
      record {
        id = codes "u";
        is_root_admin = false;
        active = true;
        role_id = codes "r";
        allowed_cidrs = codes "10." ∷ [];
      }
      ∷ [];
  roles = record { id = codes "r"; permissions = codes "audit.read" ∷ [] } ∷ [];
  accounts = record { id = codes "c"; active = true; role_id = codes "q"; allowed_cidrs = [] } ∷ [];
  sessions = session ∷ [];
  queries = 0;
}

abbrev principal : Principal
principal = record {
  id = codes "u";
  kind = user_kind;
  session_id = codes "s";
  root_admin = false;
  permissions = codes "audit.read" ∷ [];
}

let_in :
    (authorize_user world (codes "u") (codes "s") (codes "10.1") (codes "audit.read") start).0
    ≡ (principal, none)
unfolding authorize_user
let_in = refl

other_address :
    (authorize_user world (codes "u") (codes "s") (codes "11.1") (codes "audit.read") start).0.1
    ≡ some ip_not_allowed
unfolding authorize_user
other_address = refl

other_permission :
    (authorize_user world (codes "u") (codes "s") (codes "10.1") (codes "vault.seal") start).0.1
    ≡ some permission_denied
unfolding authorize_user
other_permission = refl

no_role :
    (authorize_service world (codes "c") (codes "1") (codes "vault.seal") start).0.1
    ≡ some permission_denied
unfolding authorize_service
no_role = refl

-- A refresh token works once.
old_token :
    (rotate_session world
      (codes "s")
      (codes "h")
      (codes "j")
      (rotate_session world (codes "s") (codes "h") (codes "i") start).1).0
    ≡ some row_not_found
unfolding rotate_session
old_token = refl

no_user : (logout world no_principal start).0 ≡ some user_principal_only
unfolding logout
no_user = refl

abbrev left : Access
left = record (counted start) { sessions = record session { revoked_at = some 5 } ∷ [] }

out : logout world principal start ≡ (none, left)
unfolding logout
out = refl

abbrev calls : List Call
calls =
    create_call (record session { id = codes "t"; refresh_token_hash = codes "i" })
    ∷ (rotate_call (codes "s") (codes "h") (codes "j") ∷ [])

here : present (codes "s") start.sessions ≡ true
unfolding first_row
here = refl

authorize_user-logout_example :
    (authorize_user world
      (codes "u")
      (codes "s")
      (codes "10.1")
      (codes "audit.read")
      (run_calls world calls left)).0
    ≡ (no_principal, some invalid_credentials)
authorize_user-logout_example =
    authorize_user-logout world principal start left here out calls (codes "u") (codes "10.1")
      (codes "audit.read")
