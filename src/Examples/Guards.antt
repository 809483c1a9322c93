-- ===== src/Examples/Guards.antt =====
-- The routes of the server over the SQLite repository, with a validation that lets every request
-- pass, no rate limit, and one prefix of trusted proxies.
use air_cover.Base.{
  pos, String, ◌≡◌, refl, sym, ◌∙◌, ap, ◌⊎◌, true, false, none, some, Option, List, [], ◌∷◌, ◌==◌,
  string_eq, if◌then◌else◌, lower, to_int?, int_beq,
}
use air_cover.Errors.{Result, ok, err, raise, not_found, sentinel, ◌>>=◌}
use air_cover.Errors.Steps.{Stable}
use air_cover.Domain.{CurrentUser, is_admin}
use air_cover.Auth.Service.{authenticate_session}
use air_cover.Auth.Ports.{clock}
use air_cover.Auth.Reading.{authenticate_session-Stable}
use air_cover.Sqlite.Tables.{Db, driver}
use air_cover.Sqlite.Queries.Users
use air_cover.Sqlite.Queries.Auth
use air_cover.Sqlite.AuthRepository.{get_session_by_token, get_user_by_id}
use air_cover.Sqlite.AuthRepository.Reads.{view}
use air_cover.Sqlite.AuthRepository.AuthContract.{auth-contract}
use air_cover.Sqlite.AdminRepository.Calls.{admin_service}
use air_cover.Http.Message.{Request, plain, text_error}
use air_cover.Http.Ports.{Platform, Server, AdminService, Prefix, v4, prefix_contains}
use air_cover.Http.Origin.{remote_addr_trusted}
use air_cover.Http.AuthHandler.{handle_auth_error}
use air_cover.Http.Router.{route_of, serve}
use air_cover.Http.Services.{auth_of, sub_requests_of, admin_of}
use air_cover.Http.Access.{Leaves, cross_site-Leaves}
use air_cover.Http.Denials.{signed_out-Denied}
use air_cover.Http.Admins.{serve-other_admin}
use air_cover.Http.Proxies.{with_proto, serve-forwarded_proto}
use air_cover.Examples.Auth.{auth_service, auth-Environment, held, database}
use air_cover.Examples.SubRequests.{service}
use air_cover.Examples.Admin.{parity}

abbrev platform : Platform Db
platform = record {
  split_host_port = λ s. none;
  parse_addr = λ s. some (v4 3232235777);
  parse_url = λ s. none;
  is_email = λ s. true;
  bind_id = to_int?;
  validate = λ r. none;
  limit = λ r db. (none, db);
  unrouted = λ r. plain (text_error 404 "404 page not found");
}

abbrev server : Server Db
server = record {
  auth = auth_of auth_service;
  sub_requests = sub_requests_of service;
  admin = admin_of (admin_service none parity);
}

abbrev closed : AdminService Db
closed = record {
  list_users = λ viewer. raise (sentinel not_found);
  create_user = λ viewer input. raise (sentinel not_found);
  update_user = λ viewer input. raise (sentinel not_found);
  import_catalog_users = λ viewer. raise (sentinel not_found);
}

abbrev proxies : List Prefix
proxies = record { addr = v4 167772160; bits = 8 } ∷ []

abbrev request : String → String → Option String → Request
request method path token = record {
  method = method;
  path = path;
  host = "air.example.org";
  tls = false;
  remote_addr = "192.168.1.1";
  header = λ name. if name == "Sec-Fetch-Site" then "cross-site" else "";
  cookie = λ name. token;
  query = λ name. "";
  body_bytes = 0;
  form = some [];
  json = none;
}

abbrev signed_in_db : Db
signed_in_db = database [] (held ∷ [])

abbrev Holds : Db → Type 0
Holds db = view.sessions db ≡ held ∷ []

reading-Stable : (token : String) → Stable Holds (authenticate_session auth_service token)
reading-Stable =
    authenticate_session-Stable view auth_service auth-contract auth-Environment Holds
      λ a b same h. same.sessions ∙ h

cross_site-Leaves_example :
    Leaves Holds (serve platform server proxies (request "POST" "/auth/logout" (some "held")))
unfolding route_of lower
cross_site-Leaves_example =
    cross_site-Leaves platform server Holds reading-Stable proxies
      (request "POST" "/auth/logout" (some "held")) refl refl refl

no_session : (token : String) → ◌≡◌ {A = Option String} none (some token) → ⊥
no_session token e = cc e

signed_out-Denied_example :
    let r = request "GET" "/admin" none in
    let p = serve platform server proxies r signed_in_db in
    ((p.0 ≡ handle_auth_error r "Unauthorized" 401) ⊎ (platform.validate r ≡ some p.0)) × Holds p.1
unfolding route_of
signed_out-Denied_example =
    signed_out-Denied platform server Holds reading-Stable proxies (request "GET" "/admin" none)
      signed_in_db refl (λ token e. absurd (no_session token e)) refl

held_test :
    (authenticate_session auth_service "held" signed_in_db).0
    ≡ ok (record { id = pos 1; email = "alice@example.org"; role = "member" })
unfolding ◌>>=◌ clock authenticate_session get_session_by_token get_user_by_id Users.get_user_by_id
    Auth.get_session_by_token int_beq driver
held_test = refl

is_no_admin :
    (token : String) (user : CurrentUser)
    → ◌≡◌ {A = Option String} (some "held") (some token)
    → (authenticate_session auth_service token signed_in_db).0 ≡ ok user
    → is_admin user ≡ false
is_no_admin token user e h =
    let same : "held" ≡ token = cc e in
    ap (λ (r : Result CurrentUser). elim r [ ok u ↦ is_admin u | err x ↦ false ])
      (sym h
        ∙ ap (λ t. (authenticate_session auth_service t signed_in_db).0) (sym same)
        ∙ held_test)

serve-other_admin_example :
    let r = request "GET" "/admin" (some "held") in
    serve platform server proxies r signed_in_db
    ≡ serve platform (record server { admin = closed }) proxies r signed_in_db
serve-other_admin_example =
    serve-other_admin platform server closed proxies (request "GET" "/admin" (some "held"))
      signed_in_db is_no_admin

untrusted_test : remote_addr_trusted platform "192.168.1.1" proxies ≡ false
unfolding remote_addr_trusted prefix_contains
untrusted_test = refl

serve-forwarded_proto_example :
    let r = request "GET" "/auth/verify" none in
    serve platform server proxies (with_proto "https" r) signed_in_db
    ≡ serve platform server proxies r signed_in_db
serve-forwarded_proto_example =
    serve-forwarded_proto platform server
      (record { validate_lem = λ v r. refl; limit_lem = λ v r w. refl; unrouted_lem = λ v r. refl })
      proxies "https" (request "GET" "/auth/verify" none) signed_in_db untrusted_test
