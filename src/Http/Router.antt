-- ===== src/Http/Router.antt =====
-- router.go and wrapper.go: the routes, with the groups of middleware around them. The logger and
-- the recovery from panics pass every request on.
use air_cover.Base.{ℤ, String, Option, none, some, List, ◌==◌, string_eq, if◌then◌else◌, not, ◌&&◌}
use air_cover.Base.Strings.{has_prefix, contains}
use air_cover.Http.Message.{Request, empty_context, Response, Handler, give}
use air_cover.Http.Ports.{Server, Prefix, Platform}
use air_cover.Http.Errors.{write_http_error}
use air_cover.Http.Origin.{trust_forwarded_headers, require_same_origin_mutation}
use air_cover.Http.AuthHandler.{
  handle_login, handle_verify, handle_logout, auth_middleware, require_admin,
}
use air_cover.Http.SubRequestHandlers.{
  get_app, get_sub_requests_id, post_sub_requests, delete_sub_requests_id, patch_sub_requests_id,
}
use air_cover.Http.AdminHandlers.{
  get_admin, post_users, post_users_id, post_users_import_spinitron, get_home, get_health,
}

-- The routes of `NewRouter`, with the text of a path parameter.
pub data Route : Type 0 where
  home health login verify : Route
  app logout create : Route
  detail delete patch : String → Route
  admin create_user import_users : Route
  update_user : String → Route
  nowhere : Route

-- What follows a prefix.
after_prefix : String → String → Option String
after_prefix String.[] s = some s
after_prefix (String.◌∷◌ c p) String.[] = none
after_prefix (String.◌∷◌ c p) (String.◌∷◌ d s) = after_prefix p s

-- The text that a pattern's last segment `{id}` stands for: a segment that is not empty.
abbrev parameter : String → String → Option String
parameter prefix path = elim (after_prefix prefix path) [
  | none ↦ none
  | some id ↦
      if has_prefix prefix path && not (id == "") && not (contains "/" id) then some id else none
]

abbrev with_id : (String → Route) → Option String → Route
with_id route none = nowhere
with_id route (some id) = route id

get_route : String → Route
unfolding after_prefix
get_route path =
    if path == "/"
    then home
    else if path == "/health"
    then health
    else if path == "/auth/verify"
    then verify
    else if path == "/app"
    then app
    else if path == "/admin"
    then admin
    else with_id detail (parameter "/sub-requests/" path)

post_route : String → Route
unfolding after_prefix
post_route path =
    if path == "/auth/login"
    then login
    else if path == "/auth/logout"
    then logout
    else if path == "/sub-requests"
    then create
    else if path == "/users"
    then create_user
    else if path == "/users/import/spinitron"
    then import_users
    else with_id update_user (parameter "/users/" path)

unfoldable pub route_of : String → String → Route
unfolding get_route post_route after_prefix
route_of method path =
    if method == "GET"
    then get_route path
    else if method == "POST"
    then post_route path
    else if method == "DELETE"
    then with_id delete (parameter "/sub-requests/" path)
    else if method == "PATCH"
    then with_id patch (parameter "/sub-requests/" path)
    else nowhere

module _ {W : Type 0} (platform : Platform W) (server : Server W) where
  abbrev pub bound : (ℤ → Handler W) → Option ℤ → Handler W
  bound handler none c r = give (write_http_error r 400 "Invalid request")
  bound handler (some id) c r = handler id c r

  -- The wrapper of a route with a path parameter, and the error handler of `NewWrapper`.
  abbrev bind_id : (ℤ → Handler W) → String → Handler W
  bind_id handler text = bound handler (platform.bind_id text)

  -- The wrapper of `GET /auth/verify`, whose parameter is required.
  abbrev bind_token : Handler W
  bind_token c r =
      if r.query "token" == ""
      then give (write_http_error r 400 "Invalid request")
      else handle_verify server.auth (r.query "token") c r

  -- `httprate.LimitByIP`
  abbrev pub passed : Option Response → (W → Response × W) → W → Response × W
  passed none next w = next w
  passed (some response) next w = (response, w)

  unfoldable pub limited : Handler W → Handler W
  limited next c r w = let (stopped, w') = platform.limit r w in passed stopped (next c r) w'

  -- The second group of routes.
  unfoldable pub user_group : Handler W → Handler W
  user_group handler = auth_middleware server.auth (require_same_origin_mutation platform handler)

  -- The third group of routes.
  unfoldable pub admin_group : Handler W → Handler W
  admin_group handler =
      auth_middleware server.auth (require_admin (require_same_origin_mutation platform handler))

  unfoldable pub handler_of : Route → Handler W
  handler_of home = get_home server.auth
  handler_of health = get_health
  handler_of login = limited (handle_login platform server.auth)
  handler_of verify = limited bind_token
  handler_of app = user_group (get_app server.sub_requests)
  handler_of (detail id) = user_group (bind_id (get_sub_requests_id server.sub_requests) id)
  handler_of logout = user_group (handle_logout server.auth)
  handler_of create = user_group (post_sub_requests server.sub_requests)
  handler_of (delete id) = user_group (bind_id (delete_sub_requests_id server.sub_requests) id)
  handler_of (patch id) = user_group (bind_id (patch_sub_requests_id server.sub_requests) id)
  handler_of admin = admin_group (get_admin server.admin)
  handler_of create_user = admin_group (post_users server.admin)
  handler_of import_users = admin_group (post_users_import_spinitron server.admin)
  handler_of (update_user id) = admin_group (bind_id (post_users_id server.admin) id)
  handler_of nowhere = λ c r. give (platform.unrouted r)

  -- The validation of the request against the OpenAPI document, and the routes behind it.
  unfoldable pub validated : Handler W
  validated c r = passed (platform.validate r) (handler_of (route_of r.method r.path) c r)

  -- `NewRouter`: what the server does with a request.
  unfoldable pub serve : List Prefix → Request → W → Response × W
  serve proxies r = trust_forwarded_headers platform proxies validated empty_context r
