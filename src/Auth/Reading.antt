-- ===== src/Auth/Reading.antt =====
-- Reading a session changes nothing that can be seen of users, links and sessions.
use air_cover.Base.{String, Bool, true, false}
use air_cover.Errors.{Exec}
use air_cover.Errors.Steps.{Stable, pure-Stable, raise-Stable, >>=-Stable}
use air_cover.Domain.{User}
use air_cover.Auth.Ports.{Service, clock}
use air_cover.Auth.Service.{if_enabled, authenticate_session}
use air_cover.Auth.Spec.{View, Same, Keeps, RepositoryContract, Environment}

module _ {W : Type 0} (view : View W) (s : Service W) (contract : RepositoryContract view s.repo)
    (env : Environment view s) (P : W → Type 0) (seen : (a b : W) → Same view a b → P a → P b) where
  pub Keeps-Stable : {A : Type 0} (m : Exec W A) → Keeps view m → Stable P m
  Keeps-Stable m keeps = record { at = λ w h. seen w (m w).1 (keeps.at w) h }

  pub clock-Stable : Stable P (clock s)
  unfolding clock
  clock-Stable = record { at = λ w h. seen w (s.now_func w).1 (env.clock_keeps w) h }

  if_enabled-Stable : (user : User) (b : Bool) → Stable P (if_enabled s user b)
  if_enabled-Stable user true = pure-Stable P _
  if_enabled-Stable user false = raise-Stable P _

  pub authenticate_session-Stable : (token : String) → Stable P (authenticate_session s token)
  unfolding authenticate_session
  authenticate_session-Stable token = >>=-Stable P (clock s) _ clock-Stable λ now.
      >>=-Stable P (s.repo.get_session_by_token _ now) _
        (Keeps-Stable (s.repo.get_session_by_token _ now) (contract.session_keeps _ now))
        λ sess.
          >>=-Stable P (s.repo.get_user_by_id sess.user_id) _
            (Keeps-Stable (s.repo.get_user_by_id sess.user_id) (contract.user_keeps sess.user_id))
            λ user. if_enabled-Stable user user.is_enabled
