-- ===== src/Http/Admins.antt =====
-- Only administrators reach the admin service.
use air_cover.Base.{String, ◌≡◌, refl, false, List, string_eq, Option, none, some}
use air_cover.Errors.{Result, ok, err}
use air_cover.Domain.{CurrentUser, is_admin}
use air_cover.Http.Message.{Request, Context, Response, Handler}
use air_cover.Http.Ports.{Server, Prefix, Platform, AdminService, AuthService}
use air_cover.Http.Origin.{require_same_origin_mutation}
use air_cover.Http.AuthHandler.{
  session_cookie_name, auth_middleware, require_admin, with_session, go_on,
}
use air_cover.Http.Router.{
  Route, admin, create_user, import_users, update_user, route_of, passed, limited, user_group,
  admin_group, handler_of, validated, serve,
}
use air_cover.Http.Access.{serve-validated}

-- The session of the request, if it has one, is not an administrator's.
abbrev IsNoAdmin : {W : Type 0} → AuthService W → Request → W → Type 0
IsNoAdmin auth r w =
    (token : String) (user : CurrentUser)
    → r.cookie session_cookie_name ≡ some token
    → (auth.authenticate_session token w).0 ≡ ok user
    → is_admin user ≡ false

module _ {W : Type 0} (platform : Platform W) (server : Server W) (other : AdminService W) where
  abbrev with_other : Server W
  with_other = record server { admin = other }

  -- Behind the guard the handler does not count.
  group-other :
      (h k : Handler W) (c : Context) (r : Request) (w : W)
      → IsNoAdmin server.auth r w
      → admin_group platform server h c r w ≡ admin_group platform with_other k c r w
  unfolding admin_group auth_middleware require_admin
  group-other h k c r w none_of = go (r.cookie session_cookie_name) refl
    where
      guard : Handler W → Handler W
      guard next = require_admin (require_same_origin_mutation platform next)

      on_user :
          (user : Result CurrentUser) (v : W)
          → ((u : CurrentUser) → user ≡ ok u → is_admin u ≡ false)
          → go_on server.auth (guard h) c r user v ≡ go_on server.auth (guard k) c r user v
      on_user (err e) v f = refl
      on_user (ok u) v f = rw (f u refl) refl

      go :
          (o : Option String)
          → r.cookie session_cookie_name ≡ o
          → with_session server.auth (guard h) c r o w ≡ with_session server.auth (guard k) c r o w
      go none e = refl
      go (some token) e =
          let step = server.auth.authenticate_session token w in
          on_user step.0 step.1 (λ u f. none_of token u e f)

  route-other :
      (route : Route) (c : Context) (r : Request) (w : W)
      → IsNoAdmin server.auth r w
      → handler_of platform server route c r w ≡ handler_of platform with_other route c r w
  unfolding handler_of limited user_group
  route-other admin c r w none_of = group-other _ _ c r w none_of
  route-other create_user c r w none_of = group-other _ _ c r w none_of
  route-other import_users c r w none_of = group-other _ _ c r w none_of
  route-other (update_user id) c r w none_of = group-other _ _ c r w none_of
  route-other _ c r w none_of = refl

  -- To a request that is not an administrator's the admin service makes no difference: with any
  -- other admin service behind the same routes, the response and all that happens are the same.
  pub serve-other_admin :
      (proxies : List Prefix) (r : Request) (w : W)
      → IsNoAdmin server.auth r w
      → serve platform server proxies r w ≡ serve platform with_other proxies r w
  unfolding validated
  serve-other_admin proxies r w none_of =
      let (c, e) = serve-validated platform proxies r in
      rw (e server, e with_other) (go c (platform.validate r))
    where
      go :
          (c : Context) (o : Option Response)
          → passed platform server o (handler_of platform server (route_of r.method r.path) c r) w
            ≡ passed platform with_other o
                (handler_of platform with_other (route_of r.method r.path) c r)
                w
      go c none = route-other (route_of r.method r.path) c r w none_of
      go c (some x) = refl
