-- ===== src/Http/Proxies.antt =====
-- What a request says about its own scheme counts only behind a proxy that is trusted.
use air_cover.Base.{
  String, ◌≡◌, refl, ap, false, List, ◌==◌, string_eq, is_empty, if◌then◌else◌, Bool-cases, inl,
  inr, ℤ, Option, none, some,
}
use air_cover.Http.Message.{Request, Response, Handler, empty_context, respond}
use air_cover.Http.Ports.{Server, Prefix, Platform}
use air_cover.Http.Errors.{wants_json_error, write_http_error, write_app_error, app_error_or}
use air_cover.Http.Origin.{
  remote_addr_trusted, trust_forwarded_headers, trusted_forwarded_proto, is_secure_request,
  request_scheme, request_origin_matches, is_same_origin_request, require_same_origin_mutation,
}
use air_cover.Http.AuthHandler.{
  require_current_user, session_cookie, cleared_cookie, handle_auth_error, send_login_response,
  login_email, handle_login, handle_verify, handle_logout, auth_middleware, require_admin,
}
use air_cover.Http.SubRequestHandlers.{
  get_app, get_sub_requests_id, post_sub_requests, delete_sub_requests_id, patch_sub_requests_id,
  parse_create_sub_request_input, parse_action, catalog_error_response, error_response,
}
use air_cover.Http.AdminHandlers.{
  get_admin, post_users, post_users_id, post_users_import_spinitron, get_home,
  parse_update_user_input,
}
use air_cover.Http.Router.{
  Route, home, health, login, verify, app, logout, create, detail, delete, patch, admin,
  create_user, import_users, update_user, nowhere, bound, route_of, passed, limited, user_group,
  admin_group, handler_of, validated, serve,
}

-- The request with another value of the header that names the scheme.
abbrev pub with_proto : String → Request → Request
with_proto value r = record r {
  header = λ name. if name == "X-Forwarded-Proto" then value else r.header name;
}

module _ {W : Type 0} (platform : Platform W) (server : Server W) where
  -- The libraries in front of the handlers do not read the header.
  pub record IgnoresProto : Type 0 where
    pub validate_lem :
        (v : String) (r : Request) → platform.validate (with_proto v r) ≡ platform.validate r
    pub limit_lem :
        (v : String) (r : Request) (w : W) → platform.limit (with_proto v r) w ≡ platform.limit r w
    pub unrouted_lem :
        (v : String) (r : Request) → platform.unrouted (with_proto v r) ≡ platform.unrouted r

  module _ (ignores : IgnoresProto) where
    abbrev SameOn : Handler W → String → Request → W → Type 0
    SameOn handler v r w = handler empty_context (with_proto v r) w ≡ handler empty_context r w

    abbrev with_bound : (Handler W → Handler W) → (ℤ → Handler W) → Option ℤ → Handler W
    with_bound group handler id = group (bound platform server handler id)

    route-proto :
        (route : Route) (v : String) (r : Request) (w : W)
        → SameOn (handler_of platform server route) v r w
    unfolding handler_of limited user_group admin_group auth_middleware require_admin
        require_same_origin_mutation is_same_origin_request request_origin_matches request_scheme
        is_secure_request trusted_forwarded_proto handle_login handle_verify handle_logout
        login_email send_login_response require_current_user session_cookie cleared_cookie
        handle_auth_error get_app get_sub_requests_id post_sub_requests delete_sub_requests_id
        patch_sub_requests_id parse_create_sub_request_input parse_action catalog_error_response
        error_response app_error_or write_app_error write_http_error wants_json_error get_admin
        post_users post_users_id post_users_import_spinitron get_home parse_update_user_input
        respond
    route-proto home v r w = refl
    route-proto health v r w = refl
    route-proto login v r w = rw (ignores.limit_lem v r w) refl
    route-proto verify v r w = rw (ignores.limit_lem v r w) refl
    route-proto app v r w = refl
    route-proto (detail id) v r w =
        elim (platform.bind_id id)
          as (λ o.
            SameOn
              (with_bound (user_group platform server) (get_sub_requests_id server.sub_requests) o)
              v r w) [ none ↦ refl | some i ↦ refl ]
    route-proto logout v r w = refl
    route-proto create v r w = refl
    route-proto (delete id) v r w =
        elim (platform.bind_id id)
          as (λ o.
            SameOn
              (with_bound (user_group platform server) (delete_sub_requests_id server.sub_requests)
                o)
              v r w) [ none ↦ refl | some i ↦ refl ]
    route-proto (patch id) v r w =
        elim (platform.bind_id id)
          as (λ o.
            SameOn
              (with_bound (user_group platform server) (patch_sub_requests_id server.sub_requests)
                o)
              v r w) [ none ↦ refl | some i ↦ refl ]
    route-proto admin v r w = refl
    route-proto create_user v r w = refl
    route-proto import_users v r w = refl
    route-proto (update_user id) v r w =
        elim (platform.bind_id id)
          as (λ o.
            SameOn (with_bound (admin_group platform server) (post_users_id server.admin) o) v r
              w) [ none ↦ refl | some i ↦ refl ]
    route-proto nowhere v r w = ap (λ (x : Response). (x, w)) (ignores.unrouted_lem v r)

    validated-proto : (v : String) (r : Request) (w : W) → SameOn (validated platform server) v r w
    unfolding validated
    validated-proto v r w =
        let next = handler_of platform server (route_of r.method r.path) empty_context in
        rw (ignores.validate_lem v r)
          (elim (platform.validate r)
            as (λ o.
              passed platform server o (next (with_proto v r)) w
              ≡ passed platform server o (next r) w) [
                | none ↦ route-proto (route_of r.method r.path) v r w
                | some stopped ↦ refl
              ])

    -- A client that is no trusted proxy cannot choose its scheme: whatever it puts into the header
    -- X-Forwarded-Proto, the server's response, its cookies and links included, and all that the
    -- services do are the same, on every route, if the libraries in front of the handlers do not
    -- read that header.
    pub serve-forwarded_proto :
        (proxies : List Prefix) (v : String) (r : Request) (w : W)
        → remote_addr_trusted platform r.remote_addr proxies ≡ false
        → serve platform server proxies (with_proto v r) w ≡ serve platform server proxies r w
    unfolding serve trust_forwarded_headers
    serve-forwarded_proto proxies v r w untrusted = elim (Bool-cases (is_empty proxies)) [
      | inl e ↦ rw e (validated-proto v r w)
      | inr e ↦ rw e (rw untrusted (validated-proto v r w))
    ]
