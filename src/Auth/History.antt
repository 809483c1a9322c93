-- ===== src/Auth/History.antt =====
-- Sequences of calls of the auth service.
pub mod SingleUse
use air_cover.Base.{ℤ, String, ◌≡◌, Bool, false, List, [], ◌∷◌, ◌==◌, string_eq}
use air_cover.Errors.{ok}
use air_cover.Auth.Ports.{LoginInput, Service}
use air_cover.Auth.Service.{
  login_token_bytes, request_login, verify_magic_link, logout, authenticate_session,
}

pub data Call : Type 0 where
  logs_in : LoginInput → Call
  verifies : String → Call
  logs_out : ℤ → Call
  authenticates : String → Call

module _ {W : Type 0} (s : Service W) where
  -- The world after the call, whatever it returns.
  abbrev pub call : Call → W → W
  call (logs_in input) w = (request_login s input w).1
  call (verifies raw) w = (verify_magic_link s raw w).1
  call (logs_out user) w = (logout s user w).1
  call (authenticates token) w = (authenticate_session s token w).1

  abbrev pub run : List Call → W → W
  run [] w = w
  run (c ∷ calls) w = run calls (call c w)

  -- No login among the calls draws a token with this hash.
  abbrev pub DrawsOther : String → Call → W → Type 0
  DrawsOther hash (logs_in input) w =
      (raw : String)
      → (s.token_generator login_token_bytes (s.repo.get_user_by_email input.email w).1).0 ≡ ok raw
      → (s.hash_token raw == hash) ≡ false
  DrawsOther hash (verifies raw) w = Unit
  DrawsOther hash (logs_out user) w = Unit
  DrawsOther hash (authenticates token) w = Unit

  abbrev pub DrawOther : String → List Call → W → Type 0
  DrawOther hash [] w = Unit
  DrawOther hash (c ∷ calls) w = DrawsOther hash c w × DrawOther hash calls (call c w)
