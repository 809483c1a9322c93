-- ===== src/Http/Denials.antt =====
-- Without a session no route behind one is reached, for any services behind the routes.
use air_cover.Base.{
  String, ◌≡◌, refl, Bool, true, false, List, string_eq, ◌⊎◌, inl, inr, Option, none, some,
}
use air_cover.Errors.{Error, err}
use air_cover.Errors.Steps.{Stable}
use air_cover.Http.Message.{Request, Context, Response, Handler}
use air_cover.Http.Ports.{Server, Prefix, Platform, AuthService}
use air_cover.Http.AuthHandler.{
  session_cookie_name, handle_auth_error, auth_middleware, with_session,
}
use air_cover.Http.Router.{
  Route, home, health, login, verify, app, logout, create, detail, delete, patch, admin,
  create_user, import_users, update_user, nowhere, route_of, passed, user_group, admin_group,
  handler_of, validated, serve,
}
use air_cover.Http.Access.{serve-validated}

-- The routes behind a session.
abbrev is_guarded : Route → Bool
is_guarded home = false
is_guarded health = false
is_guarded login = false
is_guarded verify = false
is_guarded nowhere = false
is_guarded _ = true

-- The request carries no session, or none that stands for a user.
abbrev IsSignedOut : {W : Type 0} → AuthService W → Request → W → Type 0
IsSignedOut auth r w =
    (token : String)
    → r.cookie session_cookie_name ≡ some token
    → (e : Error) × ((auth.authenticate_session token w).0 ≡ err e)

module _ {W : Type 0} (platform : Platform W) (server : Server W) (P : W → Type 0)
    (reads : (token : String) → Stable P (server.auth.authenticate_session token)) where
  -- The response to a request without a session, if it got past the validation.
  abbrev Denied : Request → W → Response × W → Type 0
  Denied r w p = (p.0 ≡ handle_auth_error r "Unauthorized" 401) × P p.1

  middleware-Denied :
      (next : Handler W) (c : Context) (r : Request) (w : W)
      → IsSignedOut server.auth r w
      → P w
      → Denied r w (auth_middleware server.auth next c r w)
  unfolding auth_middleware
  middleware-Denied next c r w out p = go (r.cookie session_cookie_name) refl
    where
      go :
          (o : Option String)
          → r.cookie session_cookie_name ≡ o
          → Denied r w (with_session server.auth next c r o w)
      go none e = (refl, p)
      go (some token) e = let (x, failed) = out token e in rw failed (refl, (reads token).at w p)

  guarded-Denied :
      (route : Route) (c : Context) (r : Request) (w : W)
      → is_guarded route ≡ true
      → ((next : Handler W) → Denied r w (auth_middleware server.auth next c r w))
      → Denied r w (handler_of platform server route c r w)
  unfolding handler_of user_group admin_group
  guarded-Denied home c r w e d = cc e
  guarded-Denied health c r w e d = cc e
  guarded-Denied login c r w e d = cc e
  guarded-Denied verify c r w e d = cc e
  guarded-Denied nowhere c r w e d = cc e
  guarded-Denied app c r w e d = d _
  guarded-Denied (detail id) c r w e d = d _
  guarded-Denied logout c r w e d = d _
  guarded-Denied create c r w e d = d _
  guarded-Denied (delete id) c r w e d = d _
  guarded-Denied (patch id) c r w e d = d _
  guarded-Denied admin c r w e d = d _
  guarded-Denied create_user c r w e d = d _
  guarded-Denied import_users c r w e d = d _
  guarded-Denied (update_user id) c r w e d = d _

  -- On every route behind a session, a request without a session that stands for a user is answered
  -- by the refusal, or by the validation, and reaches no service but the reading of its session:
  -- what that keeps is kept.
  pub signed_out-Denied :
      (proxies : List Prefix) (r : Request) (w : W)
      → is_guarded (route_of r.method r.path) ≡ true
      → IsSignedOut server.auth r w
      → P w
      → let p = serve platform server proxies r w in
        ((p.0 ≡ handle_auth_error r "Unauthorized" 401) ⊎ (platform.validate r ≡ some p.0)) × P p.1
  unfolding validated
  signed_out-Denied proxies r w guarded out p =
      let (c, e) = serve-validated platform proxies r in
      let denied =
        guarded-Denied (route_of r.method r.path) c r w guarded
          (λ next. middleware-Denied next c r w out p) in
      rw (e server) (go (platform.validate r) refl _ denied)
    where
      go :
          (o : Option Response)
          → platform.validate r ≡ o
          → (m : W → Response × W) → Denied r w (m w)
          → (((passed platform server o m w).0 ≡ handle_auth_error r "Unauthorized" 401)
              ⊎ (platform.validate r ≡ some (passed platform server o m w).0))
            × P (passed platform server o m w).1
      go none v m d = (inl d.0, d.1)
      go (some x) v m d = (inr v, p)
