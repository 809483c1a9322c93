-- ===== src/Auth/Ports.antt =====
-- internal/app/auth/ports.go and the types of service.go, over a state `W` of the world. The hash
-- of a token, which is the hexadecimal text of its SHA-256 digest (`HashToken`), is a parameter.
use air_cover.Base.{ℕ, ℤ, String, Bool, Option}
use air_cover.Errors.{Exec, ok}
use air_cover.Domain.{User, MagicLink, Session, Time}

pub record LoginInput : Type 0 where
  pub email : String
  pub magic_link_url : Option (String → String)

-- `LoginResult`
pub record LoginResult : Type 0 where
  pub sent : Bool

pub record VerifiedSession : Type 0 where
  pub token : String
  pub expires_at : Time

pub record Repository (W : Type 0) : Type 0 where
  pub get_user_by_email : String → Exec W User
  pub get_user_by_id : ℤ → Exec W User
  pub create_magic_link : ℤ → String → Time → Exec W (Unit {0})
  pub use_magic_link : String → Time → Exec W MagicLink
  pub create_session : String → String → ℤ → Time → Exec W (Unit {0})
  pub get_session_by_token : String → Time → Exec W Session
  pub delete_sessions_by_user_id : ℤ → Exec W (Unit {0})

-- `Service`, with a nil sender as `none`.
pub record Service (W : Type 0) : Type 0 where
  pub repo : Repository W
  pub sender : Option (String → String → Exec W (Unit {0}))
  pub token_generator : ℕ → Exec W String
  pub now_func : W → Time × W
  pub hash_token : String → String

-- `Service.now`
unfoldable pub clock : {W : Type 0} → Service W → Exec W Time
clock s w = let (t, w') = s.now_func w in (ok t, w')
