-- ===== src/Spinitron/Parsing/NextPages.antt =====
-- Every page that is read names a page next, or none.
use air_cover.Base.{String, Option, none, some, List, string_eq}
use air_cover.Errors.{Result, ok, err, Error}
use air_cover.Json.{Json, Fields}
use air_cover.Spinitron.Pages.{Page}
use air_cover.Spinitron.NextPage.Positive.{IsPage, find_next_page-IsPage}
use air_cover.Spinitron.Parsing.{
  page_with, page_of_items, page_of_payload, raw_items, payload_of, item_list, parse_shows_page,
  parse_personas_page, shows_of, personas_of,
}

module _ (query_of : String → Option (String → String)) where
  -- A page that was read names a page next, or none.
  abbrev pub NamesPage : {A : Type 0} → Result (Page A) → Type 0
  NamesPage (ok p) = IsPage p.next_page
  NamesPage (err e) = Unit

  payload-NamesPage :
      {A : Type 0} (read : List Fields → List A) (body_error list_error : Error) (link : String)
      (o : Option Fields)
      → NamesPage (page_of_payload query_of read body_error list_error link o)
  payload-NamesPage read body_error list_error link none = tt
  payload-NamesPage read body_error list_error link (some payload) = go (raw_items payload)
    where
      listed :
          (o : Option (List Fields))
          → NamesPage (page_with query_of read body_error list_error payload link o)
      listed none = tt
      listed (some items) = find_next_page-IsPage query_of payload link

      go :
          (o : Option Json)
          → NamesPage (page_of_items query_of read body_error list_error payload link o)
      go none = tt
      go (some raw) = listed (item_list raw)

  -- Whatever JSON and whatever Link header the service sends, the page that a list of shows or of
  -- personas names next is a positive number, or there is none: `pageFromGeneric` goes through
  -- nested objects and arrays of any depth and lets no other number out, so the test of the fetching
  -- loops for a positive page never ends them.
  pub parsed-NamesPage :
      (body : Option Json) (link : String)
      → NamesPage (parse_shows_page query_of body link)
        × NamesPage (parse_personas_page query_of body link)
  unfolding parse_shows_page parse_personas_page
  parsed-NamesPage body link = (
    payload-NamesPage shows_of _ _ link (payload_of body),
    payload-NamesPage personas_of _ _ link (payload_of body),
  )
