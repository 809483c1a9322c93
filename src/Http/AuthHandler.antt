-- ===== src/Http/AuthHandler.antt =====
-- auth.go and user_context.go: logins, sessions and the guards in front of the other handlers.
use air_cover.Base.{
  ◌≡◌, ap, ℕ, ℤ, pos, negsuc, String, ◌<>◌, Bool, true, false, Option, none, some, List, [], ◌∷◌,
  ◌==◌, string_eq, if◌then◌else◌,
}
use air_cover.Base.Strings.{has_prefix, contains}
use air_cover.Errors.{Error, is, not_found, invalid_magic_link, Result, ok, err}
use air_cover.Domain.{CurrentUser, Role, role_admin, Time}
use air_cover.Auth.Ports.{LoginInput, VerifiedSession}
use air_cover.Json.{Json, null, str, Fields, struct_field, as_struct}
use air_cover.Http.Message.{
  Request, Context, Cookie, json_message, Response, plain, http_error, redirected, Handler, give,
  respond, parsed_form, form_value, Parsed, bad, good, with_parsed,
}
use air_cover.Http.Ports.{Platform, AuthService}
use air_cover.Http.Origin.{is_secure_request, request_scheme}

abbrev pub session_cookie_name : String
session_cookie_name = "session_id"

-- `setSessionCookie`
unfoldable pub session_cookie : Context → Request → String → Time → Cookie
session_cookie c r value expires_at = record {
  name = session_cookie_name;
  value = value;
  expires = some expires_at;
  max_age = pos 0;
  http_only = true;
  secure = is_secure_request c r;
}

-- `clearSessionCookie`
unfoldable pub cleared_cookie : Context → Request → Cookie
cleared_cookie c r = record {
  name = session_cookie_name;
  value = "";
  expires = none;
  max_age = negsuc 0;
  http_only = true;
  secure = is_secure_request c r;
}

abbrev pub with_cookie : Cookie → Response → Response
with_cookie cookie response = record response { cookies = cookie ∷ [] }

-- `userFromContext`
abbrev or_empty : Option String → String
or_empty none = ""
or_empty (some s) = s

unfoldable pub user_from_context : Context → Option CurrentUser
user_from_context c = elim c.user_id [
  | none ↦ none
  | some id ↦ some (record { id = id; email = or_empty c.user_email; role = or_empty c.user_role })
]

abbrev or_nobody : Option CurrentUser → CurrentUser
or_nobody none = record { id = pos 0; email = ""; role = "" }
or_nobody (some user) = user

-- `currentUser`
unfoldable pub current_user : Context → CurrentUser
current_user c = or_nobody (user_from_context c)

-- `requireCurrentUser`
abbrev required : Option CurrentUser → Parsed CurrentUser
required none = bad (http_error 401 "Unauthorized")
required (some user) = good user

unfoldable pub require_current_user : Context → Parsed CurrentUser
require_current_user c = required (user_from_context c)

pub require_current_user-some :
    (c : Context) (viewer : CurrentUser)
    → user_from_context c ≡ some viewer
    → require_current_user c ≡ good viewer
unfolding require_current_user
require_current_user-some c viewer e = ap required e

-- `handleAuthError`
unfoldable pub handle_auth_error : Request → String → ℕ → Response
handle_auth_error r message code =
    if contains "application/json" (r.header "Accept")
    then http_error code message
    else redirected 302 "/"

abbrev is_json : Request → Bool
is_json r = has_prefix "application/json" (r.header "Content-Type")

-- `sendLoginResponse`
unfoldable pub send_login_response : Request → String → Response
send_login_response r message =
    if is_json r then plain (json_message message) else redirected 303 "/?submitted=true"

abbrev login_message : String
login_message = "If an account exists, an email has been sent."

module _ {W : Type 0} (platform : Platform W) (auth : AuthService W) where
  -- The field of a `LoginRequest`, whose type refuses what is no email address.
  read_email : Json → String → Option String
  read_email (str s) old = if platform.is_email s then some s else none
  read_email null old = if platform.is_email "" then some "" else none
  read_email v old = none

  email_of : Fields → Option String
  unfolding read_email
  email_of fields = struct_field read_email "email" fields ""

  json_email : Option Json → Parsed String
  unfolding email_of
  json_email none = bad (http_error 400 "Invalid request body")
  json_email (some j) = elim (as_struct j) [
    | none ↦ bad (http_error 400 "Invalid request body")
    | some fields ↦ elim (email_of fields) [
      | none ↦ bad (http_error 400 "Invalid request body")
      | some email ↦ good email
    ]
  ]

  form_email : Option (List (String × String)) → Parsed String
  form_email none = bad (http_error 400 "Invalid form data")
  form_email (some fields) = good (form_value "email" fields)

  abbrev required_email : Parsed String → Parsed String
  required_email (bad response) = bad response
  required_email (good email) =
      if email == "" then bad (http_error 400 "Email is required") else good email

  -- What `HandleLogin` reads of the request.
  unfoldable pub login_email : Request → Parsed String
  unfolding json_email form_email
  login_email r =
      required_email (if is_json r then json_email r.json else form_email (parsed_form r))

  abbrev login_input : Context → Request → String → LoginInput
  login_input c r email = record {
    email = email;
    magic_link_url =
        some (λ raw_token.
          request_scheme c r <> "://" <> r.host <> "/auth/verify?token=" <> raw_token);
  }

  abbrev login_failed : Request → Error → Response
  login_failed r e =
      if is e not_found
      then send_login_response r login_message
      else http_error 500 "Internal server error"

  -- `HandleLogin`
  unfoldable pub handle_login : Handler W
  handle_login c r = with_parsed (login_email r) λ email.
      respond (auth.request_login (login_input c r email)) (login_failed r)
        (λ result. send_login_response r login_message)

-- The context of a request whose session stands for a user.
abbrev pub with_user : CurrentUser → Context → Context
with_user user c = record c {
  user_id = some user.id;
  user_email = some user.email;
  user_role = some user.role;
}

abbrev pub is_admin_role : Option Role → Bool
is_admin_role none = false
is_admin_role (some role) = role == role_admin

-- `RequireAdmin`
unfoldable pub require_admin : {W : Type 0} → Handler W → Handler W
require_admin next c r =
    if is_admin_role c.user_role then next c r else give (handle_auth_error r "Forbidden" 403)

abbrev pub succeeded : {A : Type 0} → Result A → Bool
succeeded (ok a) = true
succeeded (err e) = false

abbrev pub verify_failed : Error → Response
verify_failed e =
    if is e invalid_magic_link
    then http_error 401 "Invalid or expired link"
    else http_error 500 "Internal server error"

abbrev pub signed_in : Context → Request → VerifiedSession → Response
signed_in c r session =
    with_cookie (session_cookie c r session.token session.expires_at) (redirected 302 "/")

module _ {W : Type 0} (auth : AuthService W) where
  -- `HandleVerify`
  unfoldable pub handle_verify : String → Handler W
  handle_verify raw_token c r =
      if raw_token == ""
      then give (http_error 400 "Token is required")
      else respond (auth.verify_magic_link raw_token) verify_failed (signed_in c r)

  abbrev log_out : Option ℤ → Handler W
  log_out none c r = give (http_error 401 "Unauthorized")
  log_out (some user_id) c r =
      respond (auth.logout user_id) (λ e. http_error 500 "Internal server error")
        (λ done. with_cookie (cleared_cookie c r) (redirected 302 "/"))

  -- `HandleLogout`
  unfoldable pub handle_logout : Handler W
  handle_logout c r = log_out c.user_id c r

  abbrev pub go_on : Handler W → Context → Request → Result CurrentUser → W → Response × W
  go_on next c r (ok user) = next (with_user user c) r
  go_on next c r (err e) = give (handle_auth_error r "Unauthorized" 401)

  abbrev pub with_session : Handler W → Context → Request → Option String → W → Response × W
  with_session next c r none w = give (handle_auth_error r "Unauthorized" 401) w
  with_session next c r (some token) w =
      let (user, w') = auth.authenticate_session token w in go_on next c r user w'

  -- `AuthMiddleware`
  unfoldable pub auth_middleware : Handler W → Handler W
  auth_middleware next c r = with_session next c r (r.cookie session_cookie_name)

  -- `AuthHandler.AuthenticateSession`
  unfoldable pub authenticates : String → W → Bool × W
  authenticates token w = let (user, w') = auth.authenticate_session token w in (succeeded user, w')
