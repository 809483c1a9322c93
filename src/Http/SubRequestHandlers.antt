-- ===== src/Http/SubRequestHandlers.antt =====
-- subrequest_handlers.go
use air_cover.Base.{ℤ, String, Option, none, some, List, string_eq, to_int?, if◌then◌else◌}
use air_cover.Errors.{Error, is, catalog_failed}
use air_cover.Domain.{CurrentUser, is_admin, Time}
use air_cover.SubRequests.Ports.{CreateInput, Dashboard, Detail}
use air_cover.Json.{Json, Fields, struct_field, as_struct, read_string}
use air_cover.Calendar.{parse_local}
use air_cover.Presenter.{sub_request_dashboard, sub_request_detail}
use air_cover.Http.Message.{
  Request, page, authenticated, sub_request_details, Response, plain, http_error, redirected, empty,
  Handler, respond, parsed_form, form_value, Parsed, bad, good, with_parsed,
}
use air_cover.Http.Ports.{SubRequestService}
use air_cover.Http.Errors.{app_error_or}
use air_cover.Http.AuthHandler.{current_user, require_current_user}

-- The fields of the form of `POST /sub-requests`, up to the first that is no number or time.
abbrev pub with_end : List (String × String) → ℤ → Time → Option Time → Parsed CreateInput
with_end fields show_id start_time none = bad (http_error 400 "Invalid end time")
with_end fields show_id start_time (some end_time) = good (record {
  show_id = show_id;
  start_time = start_time;
  end_time = end_time;
  notes = form_value "notes" fields;
})

abbrev pub with_start : List (String × String) → ℤ → Option Time → Parsed CreateInput
with_start fields show_id none = bad (http_error 400 "Invalid start time")
with_start fields show_id (some start_time) =
    with_end fields show_id start_time (parse_local (form_value "end_time" fields))

abbrev pub with_show : List (String × String) → Option ℤ → Parsed CreateInput
with_show fields none = bad (http_error 400 "Invalid show ID")
with_show fields (some show_id) =
    with_start fields show_id (parse_local (form_value "start_time" fields))

abbrev pub create_input : Option (List (String × String)) → Parsed CreateInput
create_input none = bad (http_error 400 "Invalid form data")
create_input (some fields) = with_show fields (to_int? (form_value "show" fields))

-- `parseCreateSubRequestInput`
unfoldable pub parse_create_sub_request_input : Request → Parsed CreateInput
parse_create_sub_request_input r = create_input (parsed_form r)

abbrev action_from : Option Fields → Parsed String
action_from none = bad (http_error 400 "Invalid request body")
action_from (some fields) = elim (struct_field read_string "action" fields "") [
  | none ↦ bad (http_error 400 "Invalid request body")
  | some action ↦ good action
]

abbrev action_of : Option Json → Parsed String
action_of none = bad (http_error 400 "Invalid request body")
action_of (some j) = action_from (as_struct j)

-- The body of `PATCH /sub-requests/{id}`
unfoldable pub parse_action : Request → Parsed String
parse_action r = action_of r.json

-- An error where the catalog is asked, with the texts for the catalog and for the rest.
unfoldable pub catalog_error_response : Request → String → String → Error → Response
catalog_error_response r on_catalog otherwise e =
    app_error_or r e
      (if is e catalog_failed then http_error 502 on_catalog else http_error 500 otherwise)

unfoldable pub error_response : Request → Error → Response
error_response r e = app_error_or r e (http_error 500 "Internal server error")

module _ {W : Type 0} (service : SubRequestService W) where
  abbrev app_page : CurrentUser → Dashboard → Response
  app_page viewer dashboard =
      let (upcoming, past) = sub_request_dashboard dashboard in
      plain (page (authenticated dashboard.shows viewer.email upcoming past (is_admin viewer)))

  -- `GetApp`
  unfoldable pub get_app : Handler W
  get_app c r =
      let viewer = current_user c in
      respond (service.list_dashboard viewer)
        (catalog_error_response r "Unable to load shows" "Unable to load app") (app_page viewer)

  abbrev detail_page : CurrentUser → Detail → Response
  detail_page viewer detail =
      plain (page (sub_request_details viewer.email (sub_request_detail detail) (is_admin viewer)))

  -- `GetSubRequestsId`
  unfoldable pub get_sub_requests_id : ℤ → Handler W
  get_sub_requests_id id c r =
      let viewer = current_user c in
      respond (service.get viewer id)
        (catalog_error_response r "Unable to load show" "Unable to load sub request")
        (detail_page viewer)

  -- `PostSubRequests`
  unfoldable pub post_sub_requests : Handler W
  post_sub_requests c r = with_parsed (parse_create_sub_request_input r) λ input.
      with_parsed (require_current_user c) λ viewer.
        respond (service.create viewer input)
          (catalog_error_response r "Unable to validate show" "Internal server error")
          (λ done. redirected 303 "/app")

  -- `DeleteSubRequestsId`
  unfoldable pub delete_sub_requests_id : ℤ → Handler W
  delete_sub_requests_id id c r =
      with_parsed (require_current_user c)
        λ viewer. respond (service.delete viewer id) (error_response r) (λ done. empty 204)

  -- `PatchSubRequestsId`
  unfoldable pub patch_sub_requests_id : ℤ → Handler W
  patch_sub_requests_id id c r = with_parsed (parse_action r) λ action.
      with_parsed (require_current_user c) λ viewer.
        respond (service.apply_action viewer id action) (error_response r) (λ done. empty 204)
