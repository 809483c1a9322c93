-- ===== src/Spinitron/Client.antt =====
-- `Client` of spinitron.go: the requests for a page. `send` is the HTTP client with the reading and
-- the JSON decoding of the body; a query is the list of its parameters, as `url.Values` holds them.
use air_cover.Base.{
  ℕ, ℤ, pos, String, ◌<>◌, ◌||◌, Option, none, some, List, [], ◌∷◌, ◌==◌, string_eq, ltb, ltb_ℤ,
  leb, trim, of_int, if◌then◌else◌,
}
use air_cover.Base.Text.{trim_slashes_left, trim_slashes_right}
use air_cover.Errors.{opaque, Result, ok, err, Exec, lift, ◌>>=◌}
use air_cover.Domain.{Time}
use air_cover.Calendar.{show_rfc3339}
use air_cover.Json.{Json}
use air_cover.Spinitron.Pages.{ShowsPage, PersonasPage, PageClient}
use air_cover.Spinitron.Parsing.{parse_shows_page, parse_personas_page}

abbrev default_base_url : String
default_base_url = "https://spinitron.com/api"

abbrev default_shows_page_size : ℤ
default_shows_page_size = pos 200

pub record ApiRequest : Type 0 where
  pub endpoint : String
  pub query : List (String × String)
  pub authorization : Option String

pub record ApiResponse : Type 0 where
  pub status : ℕ
  pub link : String
  pub body : Option Json

-- `Client`, with its HTTP client and clock.
pub record Client (W : Type 0) : Type 0 where
  pub base_url : String
  pub api_key : String
  pub send : ApiRequest → Exec W ApiResponse
  pub now_func : W → Time × W

-- The base URL of `NewClient`
unfoldable pub base_url_from : String → String
base_url_from base_url =
    trim_slashes_right (if trim base_url == "" then default_base_url else trim base_url)

-- `NewClient`
unfoldable pub new_client :
    {W : Type 0} → String → String → (ApiRequest → Exec W ApiResponse) → (W → Time × W) → Client W
new_client api_key base_url send now_func = record {
  base_url = base_url_from base_url;
  api_key = api_key;
  send = send;
  now_func = now_func;
}

abbrev at_least_one : ℤ → ℤ
at_least_one page = if ltb_ℤ page (pos 1) then pos 1 else page

abbrev checked : ApiResponse → Result ApiResponse
checked response =
    if ltb response.status 200 || leb 300 response.status
    then err (opaque "unexpected status code")
    else ok response

module _ {W : Type 0} (query_of : String → Option (String → String)) (client : Client W) where
  -- `Client.get`
  unfoldable pub get : String → List (String × String) → Exec W ApiResponse
  get route query = do
    response ← client.send (record {
      endpoint = client.base_url <> "/" <> trim_slashes_left route;
      query = query;
      authorization = if client.api_key == "" then none else some ("Bearer " <> client.api_key);
    })
    lift (checked response)

  abbrev paged : ℤ → List (String × String)
  paged page = ("page", of_int (at_least_one page)) ∷ ("count", of_int default_shows_page_size) ∷ []

  abbrev clock : Exec W Time
  clock w = let (t, w') = client.now_func w in (ok t, w')

  -- `GetShowsPage`
  unfoldable pub get_shows_page : ℤ → Exec W ShowsPage
  get_shows_page page = do
    now ← clock
    response ← get "/shows" (
        ("page", of_int (at_least_one page))
        ∷ ("count", of_int default_shows_page_size)
        ∷ ("start", show_rfc3339 now)
        ∷ [])
    lift (parse_shows_page query_of response.body response.link)

  -- `GetPersonasPage`
  unfoldable pub get_personas_page : ℤ → Exec W PersonasPage
  get_personas_page page = do
    response ← get "/personas" (paged page)
    lift (parse_personas_page query_of response.body response.link)

  -- The client as the source of the catalog.
  abbrev pub page_client : PageClient W
  page_client = record { get_shows_page = get_shows_page; get_personas_page = get_personas_page }
