-- ===== src/Http/Message.antt =====
-- Requests and responses of `net/http`, as far as the handlers of internal/adapters/inbound/api read
-- and write them. The body is what `ParseForm` and the JSON decoder make of it, `none` for their
-- errors; a parameter stands in the query once at most; a page is what its template is given.
use air_cover.Base.{
  ℕ, ◌*◌, ℤ, String, Bool, false, ◌&&◌, List, [], ◌∷◌, Option, none, ◌==◌, string_eq, ltb, trim,
  if◌then◌else◌,
}
use air_cover.Base.Strings.{equal_fold, until}
use air_cover.Errors.{Error, Result, ok, err, Exec}
use air_cover.Domain.{Role, Time}
use air_cover.SubRequests.Ports.{Show}
use air_cover.Json.{Json}
use air_cover.Presenter.{UserView, SubRequestView}

pub record Request : Type 0 where
  pub method : String
  pub path : String
  pub host : String
  pub tls : Bool
  pub remote_addr : String
  pub header : String → String
  pub cookie : String → Option String
  pub query : String → String
  pub body_bytes : ℕ
  pub form : Option (List (String × String))
  pub json : Option Json

-- The values in the context of a request: the keys of auth.go and the mark of proxy.go.
pub record Context : Type 0 where
  pub user_id : Option ℤ
  pub user_email : Option String
  pub user_role : Option Role
  pub trusted_proxy : Bool

abbrev pub empty_context : Context
empty_context = record {
  user_id = none;
  user_email = none;
  user_role = none;
  trusted_proxy = false;
}

-- `http.Cookie`; every cookie of the program has the path "/" and SameSite=Lax.
pub record Cookie : Type 0 where
  pub name : String
  pub value : String
  pub expires : Option Time
  pub max_age : ℤ
  pub http_only : Bool
  pub secure : Bool

pub data Page : Type 0 where
  unauthenticated : Bool → Page
  authenticated : List Show → String → List SubRequestView → List SubRequestView → Bool → Page
  sub_request_details : String → SubRequestView → Bool → Page
  admin : List UserView → String → Page

pub data Reply : Type 0 where
  page : Page → Reply
  text_error json_error : ℕ → String → Reply
  redirect : ℕ → String → Reply
  json_message : String → Reply
  text_reply : ℕ → String → Reply
  empty_reply : ℕ → Reply

pub record Response : Type 0 where
  pub reply : Reply
  pub cookies : List Cookie

abbrev pub plain : Reply → Response
plain reply = record { reply = reply; cookies = [] }

-- `http.Error` and `http.Redirect`
abbrev pub http_error : ℕ → String → Response
http_error status message = plain (text_error status message)

abbrev pub redirected : ℕ → String → Response
redirected status url = plain (redirect status url)

abbrev pub empty : ℕ → Response
empty status = plain (empty_reply status)

abbrev pub Handler : Type 0 → Type 0
Handler W = Context → Request → W → Response × W

abbrev pub give : {W : Type 0} → Response → W → Response × W
give response w = (response, w)

abbrev pub answer : {A : Type 0} → (Error → Response) → (A → Response) → Result A → Response
answer failed done (ok a) = done a
answer failed done (err e) = failed e

-- A handler's call of a service, with what it writes on an error and on a success.
unfoldable pub respond :
    {W A : Type 0} → Exec W A → (Error → Response) → (A → Response) → W → Response × W
respond m failed done w = let (r, w') = m w in (answer failed done r, w')

abbrev max_form_body_bytes : ℕ
max_form_body_bytes = 1024 * 1024

-- A body that `ParseForm` reads.
abbrev is_url_encoded : Request → Bool
is_url_encoded r =
    equal_fold (trim (until b';' (r.header "Content-Type"))) "application/x-www-form-urlencoded"

-- `ParseForm` behind `MaxBytesReader`
abbrev pub parsed_form : Request → Option (List (String × String))
parsed_form r = if is_url_encoded r && ltb max_form_body_bytes r.body_bytes then none else r.form

-- `FormValue`: the first value of a key.
unfoldable pub form_value : String → List (String × String) → String
form_value key [] = ""
form_value key ((k, v) ∷ fields) = if k == key then v else form_value key fields

-- What a handler reads before it calls a service, or the response that ends it.
pub data Parsed (A : Type 0) : Type 0 where
  bad : Response → Parsed A
  good : A → Parsed A

abbrev pub with_parsed : {W A : Type 0} → Parsed A → (A → W → Response × W) → W → Response × W
with_parsed (bad response) next w = (response, w)
with_parsed (good a) next w = next a w
