-- ===== src/Http/Errors.antt =====
-- errors.go: the response to an error of a service.
use air_cover.Base.{ℕ, String, Bool, ◌||◌, Option, none, some, any_by, trim, if◌then◌else◌}
use air_cover.Base.Strings.{equal_fold, split_on, until}
use air_cover.Errors.{Error, is, not_found, conflict, forbidden, invalid}
use air_cover.Http.Message.{Request, Response, plain, json_error, http_error}

abbrev media_type_of : String → String
media_type_of part = trim (until b';' (trim part))

-- `headerContainsMediaType`
unfoldable pub header_contains_media_type : String → String → Bool
header_contains_media_type header media_type =
    any_by (λ part. equal_fold (media_type_of part) media_type) (split_on b',' header)

-- `wantsJSONError`
unfoldable pub wants_json_error : Request → Bool
wants_json_error r =
    header_contains_media_type (r.header "Accept") "application/json"
    || header_contains_media_type (r.header "Content-Type") "application/json"

-- `writeHTTPError`
unfoldable pub write_http_error : Request → ℕ → String → Response
write_http_error r status message =
    if wants_json_error r then plain (json_error status message) else http_error status message

-- `writeAppError`, `none` where it returns false.
unfoldable pub write_app_error : Request → Error → Option Response
write_app_error r e =
    if is e not_found
    then some (write_http_error r 404 "Not found")
    else if is e conflict
    then some (write_http_error r 409 "Conflict")
    else if is e forbidden
    then some (write_http_error r 403 "Forbidden")
    else if is e invalid
    then some (write_http_error r 400 "Invalid request")
    else none

abbrev or_response : Option Response → Response → Response
or_response none other = other
or_response (some response) other = response

-- The response of `writeAppError`, or else another.
unfoldable pub app_error_or : Request → Error → Response → Response
app_error_or r e other = or_response (write_app_error r e) other
