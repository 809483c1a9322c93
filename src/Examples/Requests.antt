-- ===== src/Examples/Requests.antt =====
-- Single requests at concrete inputs: what they are answered, and what is read from their forms.
use air_cover.Base.{
  ◌==◌, if◌then◌else◌, lower, trim, ◌+◌, pos, String, ◌≡◌, refl, ◌⊎◌, true, none, some, Option,
  List, [], ◌∷◌, string_eq, to_int?, find_by, arith,
}
use air_cover.Base.Strings.{equal_fold, until}
use air_cover.Errors.{Error, ◌>>=◌}
use air_cover.Domain.{CurrentUser, MagicLink, Time}
use air_cover.Json.{Json, str, obj, field, end, struct_field}
use air_cover.Calendar.{parse_local, scan_clock, instant}
use air_cover.SubRequests.Ports.{CreateInput}
use air_cover.SubRequests.Spec.{use_action}
use air_cover.Auth.Ports.{clock}
use air_cover.Auth.Service.{session_ttl, verify_magic_link, start_session, authenticate_session}
use air_cover.Auth.Spec.{is_live}
use air_cover.Auth.Sessions.{viewer_of}
use air_cover.Sqlite.Driver.{IsPending}
use air_cover.Sqlite.Tables.{Db, driver}
use air_cover.Sqlite.Queries.Auth
use air_cover.Sqlite.AuthRepository.{use_magic_link, create_session}
use air_cover.Sqlite.AuthRepository.Reads as AuthReads
use air_cover.Sqlite.AuthRepository.AuthContract.{auth-contract}
use air_cover.Sqlite.SubRequestRepository.Landing as Landing
use air_cover.Sqlite.SubRequestRepository.Contract.{repository-contract}
use air_cover.Http.Message.{
  Request, Context, Cookie, Handler, empty_context, empty, give, respond, form_value, parsed_form,
  good,
}
use air_cover.Http.Origin.{is_secure_request}
use air_cover.Http.AuthHandler.{
  session_cookie_name, session_cookie, with_user, handle_verify, auth_middleware, handle_auth_error,
  user_from_context,
}
use air_cover.Http.SubRequestHandlers.{
  parse_action, parse_create_sub_request_input, patch_sub_requests_id,
}
use air_cover.Http.Services.{auth_of, sub_requests_of}
use air_cover.Http.Outcomes.{Answered, patch-Answered}
use air_cover.Http.SignIn.{Reached, sign_in-Reached}
use air_cover.Http.Forms.{Reads, parse_create-Reads}
use air_cover.Examples.Auth.{auth_service, auth-Environment, mailed_db, mail}
use air_cover.Examples.SubRequests.{service, environment, bob, row, database}

abbrev request : String → List (String × String) → Option Json → Request
request path form json = record {
  method = "POST";
  path = path;
  host = "air.example.org";
  tls = true;
  remote_addr = "192.168.1.1";
  header = λ name. if name == "Content-Type" then "application/x-www-form-urlencoded" else "";
  cookie = λ name. none;
  query = λ name. "";
  body_bytes = 100;
  form = some form;
  json = json;
}

abbrev taking : Request
taking = request "/sub-requests/1" [] (some (obj (field "Action" (str "take") end)))

taking_test : parse_action taking ≡ good "take"
unfolding parse_action struct_field equal_fold
taking_test = refl

abbrev signed_in : CurrentUser → Context
signed_in user = with_user user empty_context

bob_test : user_from_context (signed_in bob) ≡ some bob
unfolding user_from_context
bob_test = refl

patch-Answered_example :
    (t : Time) × Answered Landing.view IsPending
      (pos 1)
      (use_action bob "take" t)
      (Landing.view (database (row none ∷ [])))
      (IsPending (database (row none ∷ [])))
      (patch_sub_requests_id
        (sub_requests_of service)
        (pos 1)
        (signed_in bob)
        taking
        (database (row none ∷ [])))
patch-Answered_example =
    patch-Answered Landing.view IsPending service repository-contract environment (pos 1)
      (signed_in bob) taking (database (row none ∷ [])) "take" bob taking_test bob_test

abbrev cookie : Cookie
cookie = record {
  name = session_cookie_name;
  value = "drawn";
  expires = some (1000 + session_ttl);
  max_age = pos 0;
  http_only = true;
  secure = true;
}

abbrev clicked : Request
clicked = request "/auth/verify" [] none

abbrev returning : Request
returning = record clicked { cookie = λ name. some "drawn" }

abbrev welcome : Handler Db
welcome c r = give (empty 204)

set_cookie_test :
    (handle_verify (auth_of auth_service) "mailed" empty_context clicked mailed_db).0.cookies
    ≡ cookie ∷ []
unfolding handle_verify respond session_cookie is_secure_request verify_magic_link clock ◌>>=◌
    start_session use_magic_link Auth.use_magic_link driver create_session Auth.create_session
set_cookie_test = refl

abbrev verified_db : Db
verified_db = (handle_verify (auth_of auth_service) "mailed" empty_context clicked mailed_db).1

clock_test : (auth_service.now_func verified_db).0 ≡ 1000
unfolding handle_verify respond verify_magic_link clock ◌>>=◌ start_session use_magic_link
    Auth.use_magic_link driver create_session Auth.create_session
clock_test = refl

sign_in-Reached_example :
    let w₂ = (authenticate_session auth_service "drawn" verified_db).1 in
    let p = auth_middleware (auth_of auth_service) welcome empty_context returning verified_db in
    (l : MagicLink) × (find_by (is_live "mailed" 1000) (mail ∷ []) ≡ some l)
    × (cookie ≡ session_cookie empty_context clicked "drawn" (1000 + session_ttl))
    × (Reached AuthReads.view auth_service auth-contract auth-Environment
          (viewer_of (AuthReads.view.users verified_db l.user_id))
          welcome
          empty_context
          returning
          w₂
          p
        ⊎ ((p ≡ (handle_auth_error returning "Unauthorized" 401, w₂))
            × ((e : Error) × IsPending verified_db e)))
sign_in-Reached_example =
    sign_in-Reached AuthReads.view auth_service auth-contract auth-Environment "mailed"
      empty_context empty_context clicked returning mailed_db cookie (1000 + session_ttl) welcome
      set_cookie_test refl refl (rw clock_test (omega arith))

abbrev filled_in : List (String × String)
filled_in =
    ("show", "7")
    ∷ ("start_time", "1970-01-21T13:05")
    ∷ ("end_time", "1970-01-21T14:05")
    ∷ ("notes", "cover me")
    ∷ []

abbrev posted : Request
posted = request "/sub-requests" filled_in none

abbrev read_input : CreateInput
read_input = record {
  show_id = pos 7;
  start_time = 62168994300000000000;
  end_time = 62168997900000000000;
  notes = "cover me";
}

posted_test : parse_create_sub_request_input posted ≡ good read_input
unfolding parse_create_sub_request_input form_value to_int? parse_local scan_clock instant
    air_cover.Calendar.in_range air_cover.Calendar.Counting.days_of equal_fold until lower trim
posted_test = refl

parse_create-Reads_example :
    (fields : List (String × String)) × (parsed_form posted ≡ some fields) × Reads fields read_input
parse_create-Reads_example = parse_create-Reads posted read_input posted_test
