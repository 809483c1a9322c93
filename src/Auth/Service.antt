-- ===== src/Auth/Service.antt =====
-- internal/app/auth/service.go, method by method.
use air_cover.Base.{ℕ, ◌+◌, ◌*◌, ℤ, String, Bool, true, false, ◌<>◌, Option, none, some}
use air_cover.Errors.{
  Error, sentinel, opaque, wrap, message, invalid_magic_link, Exec, pure, raise, map_error, ◌>>=◌,
  ◌>>◌,
}
use air_cover.Domain.{User, CurrentUser, minute, hour}
use air_cover.Auth.Ports.{LoginInput, LoginResult, VerifiedSession, Service, clock}

abbrev pub login_token_bytes : ℕ
login_token_bytes = 32

abbrev pub session_token_bytes : ℕ
session_token_bytes = 32

abbrev pub magic_link_ttl : ℕ
magic_link_ttl = 15 * minute

abbrev pub session_ttl : ℕ
session_ttl = 24 * hour

-- `fmt.Errorf("%w: %v", ErrInvalidMagicLink, err)`
abbrev pub magic_link_error : Error → Error
magic_link_error e = wrap "" (sentinel invalid_magic_link) (": " <> message e)

abbrev pub current_user_of : User → CurrentUser
current_user_of u = record { id = u.id; email = u.email; role = u.role }

module _ {W : Type 0} (s : Service W) where
  -- The end of `RequestLogin`: the link goes out, if there is a sender.
  abbrev pub deliver :
      String
      → String
      → Option (String → String)
      → Option (String → String → Exec W (Unit {0}))
      → Exec W LoginResult
  deliver email raw_token url none = pure (record { sent = true })
  deliver email raw_token none (some send) = raise (opaque "magic link URL builder is required")
  deliver email raw_token (some url) (some send) =
      send email (url raw_token) >> pure (record { sent = true })

  unfoldable pub issue : LoginInput → User → Exec W LoginResult
  issue input user = do
    raw_token ← s.token_generator login_token_bytes
    now ← clock s
    s.repo.create_magic_link user.id (s.hash_token raw_token) (now + magic_link_ttl)
    deliver user.email raw_token input.magic_link_url s.sender

  abbrev pub issue_if : LoginInput → User → Bool → Exec W LoginResult
  issue_if input user true = issue input user
  issue_if input user false = pure (record { sent = false })

  -- `RequestLogin`: nothing is sent to a user who is disabled.
  unfoldable pub request_login : LoginInput → Exec W LoginResult
  request_login input = do
    user ← s.repo.get_user_by_email input.email
    issue_if input user user.is_enabled

  -- `VerifyMagicLink`, after the link was used.
  unfoldable pub start_session : ℤ → ℕ → Exec W VerifiedSession
  start_session user_id expires_at = do
    session_id ← s.token_generator session_token_bytes
    session_token ← s.token_generator session_token_bytes
    s.repo.create_session session_id (s.hash_token session_token) user_id expires_at
    pure (record { token = session_token; expires_at = expires_at })

  -- `VerifyMagicLink`
  unfoldable pub verify_magic_link : String → Exec W VerifiedSession
  verify_magic_link raw_token = do
    now ← clock s
    ml ← map_error magic_link_error (s.repo.use_magic_link (s.hash_token raw_token) now)
    start_session ml.user_id (now + session_ttl)

  -- `Logout`
  unfoldable pub logout : ℤ → Exec W (Unit {0})
  logout user_id = s.repo.delete_sessions_by_user_id user_id

  abbrev pub if_enabled : User → Bool → Exec W CurrentUser
  if_enabled user true = pure (current_user_of user)
  if_enabled user false = raise (opaque "user is disabled")

  -- `AuthenticateSession`
  unfoldable pub authenticate_session : String → Exec W CurrentUser
  authenticate_session session_token = do
    now ← clock s
    sess ← s.repo.get_session_by_token (s.hash_token session_token) now
    user ← s.repo.get_user_by_id sess.user_id
    if_enabled user user.is_enabled
