-- ===== src/Http/AdminHandlers.antt =====
-- admin_handlers.go, and the two handlers of handler.go that no session guards.
use air_cover.Base.{
  ℤ, String, Bool, true, false, Option, none, some, List, ◌==◌, string_eq, if◌then◌else◌,
}
use air_cover.Base.Strings.{has_prefix}
use air_cover.Errors.{Error, is, invalid, user_already_exists}
use air_cover.Admin.Ports.{CreateUserInput, UpdateUserInput}
use air_cover.Json.{Json, Fields, struct_field, as_struct, read_string_pointer, read_bool_pointer}
use air_cover.Presenter.{admin_users}
use air_cover.Http.Message.{
  Request, Context, page, admin, unauthenticated, text_reply, Response, plain, http_error,
  redirected, empty, Handler, give, respond, parsed_form, form_value, Parsed, bad, good,
  with_parsed,
}
use air_cover.Http.Ports.{AuthService, AdminService}
use air_cover.Http.Errors.{app_error_or}
use air_cover.Http.AuthHandler.{
  session_cookie_name, cleared_cookie, with_cookie, current_user, require_current_user,
  authenticates,
}

abbrev admin_error : Request → String → Error → Response
admin_error r text e = app_error_or r e (http_error 500 text)

abbrev create_form : Option (List (String × String)) → Parsed CreateUserInput
create_form none = bad (http_error 400 "Invalid form data")
create_form (some fields) =
    good (record { email = form_value "email" fields; role = form_value "role" fields })

abbrev filled : String → Option String
filled s = if s == "" then none else some s

abbrev filled_flag : String → Option Bool
filled_flag s = if s == "" then none else some (s == "true")

abbrev update_form : ℤ → Option (List (String × String)) → Parsed UpdateUserInput
update_form id none = bad (http_error 400 "Invalid form data")
update_form id (some fields) = good (record {
  id = id;
  role = filled (form_value "role" fields);
  is_enabled = filled_flag (form_value "is_enabled" fields);
})

abbrev both : ℤ → Option (Option Bool) → Option (Option String) → Parsed UpdateUserInput
both id none role = bad (http_error 400 "Invalid request body")
both id (some is_enabled) none = bad (http_error 400 "Invalid request body")
both id (some is_enabled) (some role) =
    good (record { id = id; role = role; is_enabled = is_enabled })

abbrev update_struct : ℤ → Option Fields → Parsed UpdateUserInput
update_struct id none = bad (http_error 400 "Invalid request body")
update_struct id (some fields) =
    both id (struct_field read_bool_pointer "is_enabled" fields none)
      (struct_field read_string_pointer "role" fields none)

abbrev update_json : ℤ → Option Json → Parsed UpdateUserInput
update_json id none = bad (http_error 400 "Invalid request body")
update_json id (some j) = update_struct id (as_struct j)

abbrev is_form : Request → Bool
is_form r = has_prefix "application/x-www-form-urlencoded" (r.header "Content-Type")

-- `parseUpdateUserInput`
unfoldable pub parse_update_user_input : ℤ → Request → Parsed UpdateUserInput
parse_update_user_input id r =
    if is_form r then update_form id (parsed_form r) else update_json id r.json

module _ {W : Type 0} (service : AdminService W) where
  -- `GetAdmin`
  unfoldable pub get_admin : Handler W
  get_admin c r =
      let viewer = current_user c in
      respond (service.list_users viewer) (admin_error r "Unable to load users")
        (λ users. plain (page (admin (admin_users users) viewer.email)))

  abbrev create_failed : Request → Error → Response
  create_failed r e =
      if is e user_already_exists
      then redirected 303 "/admin"
      else if is e invalid
      then http_error 400 "Invalid user"
      else admin_error r "Failed to create user" e

  -- `PostUsers`
  unfoldable pub post_users : Handler W
  post_users c r = with_parsed (create_form (parsed_form r)) λ input.
      respond (service.create_user (current_user c) input) (create_failed r)
        (λ done. redirected 303 "/admin")

  abbrev updated : Bool → Response
  updated form = if form then redirected 303 "/admin" else empty 204

  -- `PostUsersId`
  unfoldable pub post_users_id : ℤ → Handler W
  post_users_id id c r = with_parsed (parse_update_user_input id r) λ input.
      with_parsed (require_current_user c) λ viewer.
        respond (service.update_user viewer input) (admin_error r "Internal server error")
          (λ done. updated (is_form r))

  -- `PostUsersImportSpinitron`
  unfoldable pub post_users_import_spinitron : Handler W
  post_users_import_spinitron c r =
      respond (service.import_catalog_users (current_user c))
        (admin_error r "Failed to import users") (λ done. redirected 303 "/admin")

module _ {W : Type 0} (auth : AuthService W) where
  abbrev login_page : Request → Response
  login_page r = plain (page (unauthenticated (r.query "submitted" == "true")))

  abbrev landing : Context → Request → Bool → Response
  landing c r true = redirected 302 "/app"
  landing c r false = with_cookie (cleared_cookie c r) (login_page r)

  abbrev home_with : Context → Request → String → W → Response × W
  home_with c r token w = let (valid, w') = authenticates auth token w in (landing c r valid, w')

  abbrev pub home_for : Context → Request → Option String → W → Response × W
  home_for c r none w = give (login_page r) w
  home_for c r (some token) w = if token == "" then give (login_page r) w else home_with c r token w

  -- `Server.Get`, with `hasValidSession` of a server that has all its services.
  unfoldable pub get_home : Handler W
  get_home c r = home_for c r (r.cookie session_cookie_name)

-- `GetHealth`
abbrev pub get_health : {W : Type 0} → Handler W
get_health c r = give (plain (text_reply 200 "OK"))
