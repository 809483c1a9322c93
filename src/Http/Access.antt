-- ===== src/Http/Access.antt =====
-- Who reaches a handler: the guards in front of the routes, for any services behind them.
use air_cover.Base.{
  String, ◌≡◌, refl, Bool, true, false, List, ◌==◌, string_eq, is_empty, lower, Bool-cases, inl,
  inr, Option, none, some,
}
use air_cover.Errors.{Result, ok, err}
use air_cover.Errors.Steps.{Stable}
use air_cover.Domain.{CurrentUser}
use air_cover.Http.Message.{Request, Context, Response, Handler, empty_context, give}
use air_cover.Http.Ports.{Server, Prefix, Platform}
use air_cover.Http.Origin.{
  remote_addr_trusted, trust_forwarded_headers, is_mutation, is_same_origin_request,
  require_same_origin_mutation,
}
use air_cover.Http.AuthHandler.{
  session_cookie_name, with_user, auth_middleware, is_admin_role, require_admin, go_on,
  with_session, authenticates,
}
use air_cover.Http.AdminHandlers.{get_home, home_for}
use air_cover.Http.Router.{
  Route, home, health, login, verify, app, logout, create, detail, delete, patch, admin,
  create_user, import_users, update_user, nowhere, route_of, passed, user_group, admin_group,
  handler_of, validated, serve,
}

-- What is true of the world stays true while a request is handled.
pub record Leaves {W : Type 0} (P : W → Type 0) (m : W → Response × W) : Type 0 where
  pub at : (w : W) → P w → P (m w).1

-- The two routes that a visitor without a session uses to get one.
abbrev opens_session : Route → Bool
opens_session login = true
opens_session verify = true
opens_session _ = false

-- What the first middleware makes of a request is its context.
pub serve-validated :
    {W : Type 0} (platform : Platform W) (proxies : List Prefix) (r : Request)
    → (c : Context) × ((server : Server W)
        → serve platform server proxies r ≡ validated platform server c r)
unfolding serve trust_forwarded_headers
serve-validated platform proxies r = elim (Bool-cases (is_empty proxies)) [
  | inl e ↦ (empty_context, λ server. rw e refl)
  | inr e ↦ elim (Bool-cases (remote_addr_trusted platform r.remote_addr proxies)) [
    | inl t ↦ (record empty_context { trusted_proxy = true }, λ server. rw (e, t) refl)
    | inr t ↦ (empty_context, λ server. rw (e, t) refl)
  ]
]

module _ {W : Type 0} (platform : Platform W) (server : Server W) (P : W → Type 0)
    (reads : (token : String) → Stable P (server.auth.authenticate_session token)) where
  give-Leaves : (x : Response) → Leaves P (give x)
  give-Leaves x = record { at = λ w h. h }

  passed-Leaves :
      (o : Option Response) (next : W → Response × W)
      → Leaves P next
      → Leaves P (passed platform server o next)
  passed-Leaves none next h = h
  passed-Leaves (some x) next h = record { at = λ w p. p }

  go_on-Leaves :
      (next : Handler W) (c : Context) (r : Request) (user : Result CurrentUser)
      → ((d : Context) → Leaves P (next d r))
      → Leaves P (go_on server.auth next c r user)
  go_on-Leaves next c r (ok user) h = h (with_user user c)
  go_on-Leaves next c r (err e) h = record { at = λ w p. p }

  auth_middleware-Leaves :
      (next : Handler W) (c : Context) (r : Request)
      → ((d : Context) → Leaves P (next d r))
      → Leaves P (auth_middleware server.auth next c r)
  unfolding auth_middleware
  auth_middleware-Leaves next c r h = record { at = λ w p. go (r.cookie session_cookie_name) w p }
    where
      go : (token : Option String) (w : W) → P w → P (with_session server.auth next c r token w).1
      go none w p = p
      go (some token) w p =
          let step = server.auth.authenticate_session token w in
          (go_on-Leaves next c r step.0 h).at step.1 ((reads token).at w p)

  home_for-Leaves :
      (c : Context) (r : Request) (token : Option String) (w : W)
      → P w
      → P (home_for server.auth c r token w).1
  unfolding authenticates
  home_for-Leaves c r none w p = p
  home_for-Leaves c r (some token) w p = elim (Bool-cases (token == "")) [
    | inl e ↦ rw e p
    | inr e ↦ rw e ((reads token).at w p)
  ]

  guarded-Leaves :
      (route : Route) (c : Context) (r : Request)
      → opens_session route ≡ false
      → ((h : Handler W) → Leaves P (user_group platform server h c r))
      → ((h : Handler W) → Leaves P (admin_group platform server h c r))
      → Leaves P (handler_of platform server route c r)
  unfolding handler_of get_home
  guarded-Leaves home c r e user admins = record {
    at = λ w p. home_for-Leaves c r (r.cookie session_cookie_name) w p;
  }
  guarded-Leaves health c r e user admins = record { at = λ w p. p }
  guarded-Leaves login c r e user admins = cc e
  guarded-Leaves verify c r e user admins = cc e
  guarded-Leaves app c r e user admins = user _
  guarded-Leaves (detail id) c r e user admins = user _
  guarded-Leaves logout c r e user admins = user _
  guarded-Leaves create c r e user admins = user _
  guarded-Leaves (delete id) c r e user admins = user _
  guarded-Leaves (patch id) c r e user admins = user _
  guarded-Leaves admin c r e user admins = admins _
  guarded-Leaves create_user c r e user admins = admins _
  guarded-Leaves import_users c r e user admins = admins _
  guarded-Leaves (update_user id) c r e user admins = admins _
  guarded-Leaves nowhere c r e user admins = record { at = λ w p. p }

  served-Leaves :
      (proxies : List Prefix) (r : Request)
      → ((c : Context) → Leaves P (handler_of platform server (route_of r.method r.path) c r))
      → Leaves P (serve platform server proxies r)
  unfolding validated
  served-Leaves proxies r h =
      let (c, e) = serve-validated platform proxies r in
      rw (e server) (passed-Leaves (platform.validate r) _ (h c))

  cross_site-refused :
      (c : Context) (r : Request)
      → lower (r.header "Sec-Fetch-Site") ≡ "cross-site"
      → is_same_origin_request platform c r ≡ false
  unfolding is_same_origin_request
  cross_site-refused c r e = rw e refl

  origin-Leaves :
      (next : Handler W) (c : Context) (r : Request)
      → is_mutation r.method ≡ true
      → lower (r.header "Sec-Fetch-Site") ≡ "cross-site"
      → Leaves P (require_same_origin_mutation platform next c r)
  unfolding require_same_origin_mutation
  origin-Leaves next c r m e = rw (m, cross_site-refused c r e) (record { at = λ w p. p })

  admin_or_denied-Leaves :
      (next : Handler W) (c : Context) (r : Request)
      → Leaves P (next c r)
      → Leaves P (require_admin next c r)
  unfolding require_admin
  admin_or_denied-Leaves next c r h = elim (Bool-cases (is_admin_role c.user_role)) [
    | inl e ↦ rw e h
    | inr e ↦ rw e (record { at = λ w p. p })
  ]

  -- A request that changes something and that the browser marks as coming from another site reaches
  -- no service but the reading of its own session, on every route behind a session, whoever is
  -- signed in: whatever reading sessions keeps is kept.
  pub cross_site-Leaves :
      (proxies : List Prefix) (r : Request)
      → is_mutation r.method ≡ true
      → lower (r.header "Sec-Fetch-Site") ≡ "cross-site"
      → opens_session (route_of r.method r.path) ≡ false
      → Leaves P (serve platform server proxies r)
  unfolding user_group admin_group
  cross_site-Leaves proxies r m e o = served-Leaves proxies r λ c.
      guarded-Leaves (route_of r.method r.path) c r o
        (λ h. auth_middleware-Leaves _ c r (λ d. origin-Leaves h d r m e))
        (λ h.
          auth_middleware-Leaves _ c r
            (λ d. admin_or_denied-Leaves _ d r (origin-Leaves h d r m e)))
