-- ===== src/Sqlite/AuthRepository.antt =====
-- auth_repository.go
pub mod Reads
pub mod AuthContract
use air_cover.Base.{ℤ, String, Option, none, some, List, map, if◌then◌else◌}
use air_cover.Errors.{Exec, Result, ok, err, fail, not_found, opaque, pure, lift, ◌>>=◌}
use air_cover.Domain.{User, MagicLink, Session, Time, before}
use air_cover.Auth.Ports.{Repository}
use air_cover.Sqlite.Tables.{Db, UserRow, user_from_sql}
use air_cover.Sqlite.Queries.Users
use air_cover.Sqlite.Queries.Auth

abbrev pub found_user : Option UserRow → Result User
found_user none = fail not_found
found_user (some row) = ok (user_from_sql row)

unfoldable pub get_user_by_email : String → Exec Db User
get_user_by_email email = do row ← Users.get_user_by_email email; lift (found_user row)

unfoldable pub get_user_by_id : ℤ → Exec Db User
get_user_by_id id = do row ← Users.get_user_by_id id; lift (found_user row)

unfoldable pub list_active_users : Exec Db (List User)
list_active_users = do rows ← Users.list_active_users; pure (map user_from_sql rows)

-- `magicLinkFromSQL` copies every column, and is the identity here.
abbrev pub found_link : Option MagicLink → Result MagicLink
found_link none = fail not_found
found_link (some l) = ok l

unfoldable pub use_magic_link : String → Time → Exec Db MagicLink
use_magic_link hash now = do row ← Auth.use_magic_link hash now; lift (found_link row)

unfoldable pub create_session : String → String → ℤ → Time → Exec Db (Unit {0})
create_session id hash user expires_at =
    Auth.create_session
      (record { id = id; user_id = user; token_hash = hash; expires_at = expires_at })

-- `sessionFromSQL` is the identity, too.
abbrev pub current_session : Time → Option Session → Result Session
current_session now none = fail not_found
current_session now (some s) =
    if before s.expires_at now then err (opaque "session expired") else ok s

unfoldable pub get_session_by_token : String → Time → Exec Db Session
get_session_by_token hash now = do
  row ← Auth.get_session_by_token hash
  lift (current_session now row)

-- The port of the auth service.
abbrev pub auth_repository : Repository Db
auth_repository = record {
  get_user_by_email = get_user_by_email;
  get_user_by_id = get_user_by_id;
  create_magic_link = Auth.create_magic_link;
  use_magic_link = use_magic_link;
  create_session = create_session;
  get_session_by_token = get_session_by_token;
  delete_sessions_by_user_id = Auth.delete_sessions_by_user_id;
}
