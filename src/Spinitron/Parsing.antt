-- ===== src/Spinitron/Parsing.antt =====
-- The readers of spinitron.go: a page of shows or personas from a JSON body. `query_of` is `url.Parse`
-- with `Query`.
pub mod NextPages
use air_cover.Base.{
  ℤ, pos, String, Bool, true, false, not, ◌||◌, Option, none, some, List, [], ◌∷◌, ◌==◌, string_eq,
  ltb_ℤ, of_int, to_int?, trim, if◌then◌else◌,
}
use air_cover.Base.Strings.{contains, split_on, until, behind}
use air_cover.Errors.{Error, opaque, Result, ok, err}
use air_cover.SubRequests.Ports.{Show, Persona}
use air_cover.Json.{
  Json, null, bool, num, str, arr, obj, Elems, nil, cons, Fields, end, field, get_field,
}
use air_cover.Spinitron.Pages.{Page, ShowsPage, PersonasPage}
use air_cover.Spinitron.NextPage.{find_next_page}

-- `normalizeID`, on a value that may be missing.
unfoldable pub normalize_id : Option Json → String
normalize_id none = ""
normalize_id (some (str s)) = s
normalize_id (some (num n)) = of_int n
normalize_id (some v) = ""

abbrev text_or : String → Option Json → String
text_or other (some (str s)) = if s == "" then other else s
text_or other v = other

abbrev id_or_unknown : String → String
id_or_unknown id = if id == "" then "Unknown show" else id

-- `normalizeTitle`
unfoldable pub normalize_title : Fields → String
normalize_title item =
    text_or
      (text_or
        (text_or (id_or_unknown (normalize_id (get_field "id" item)))
          (get_field "display_name" item))
        (get_field "name" item))
      (get_field "title" item)

-- The elements of a list of objects; `null` is an object without fields.
abbrev as_item : Json → Option Fields
as_item null = some end
as_item (obj fields) = some fields
as_item v = none

abbrev and_items : Option Fields → Option (List Fields) → Option (List Fields)
and_items none rest = none
and_items (some item) none = none
and_items (some item) (some items) = some (item ∷ items)

unfoldable pub item_fields : Elems → Option (List Fields)
item_fields nil = some []
item_fields (cons v elems) = and_items (as_item v) (item_fields elems)

abbrev item_list : Json → Option (List Fields)
item_list null = some []
item_list (arr elems) = item_fields elems
item_list v = none

-- The loops over the items: an entry without an identifier is left out, a persona also where the
-- identifier is no number.
unfoldable pub shows_of : List Fields → List Show
shows_of [] = []
shows_of (item ∷ items) =
    let id = normalize_id (get_field "id" item) in
    let rest = shows_of items in
    if id == "" then rest else record { id = id; title = normalize_title item } ∷ rest

abbrev email_or_empty : Option Json → String
email_or_empty (some (str email)) = email
email_or_empty v = ""

abbrev persona_and : Fields → Option ℤ → List Persona → List Persona
persona_and item none rest = rest
persona_and item (some id) rest =
    record { id = id; name = normalize_title item; email = email_or_empty (get_field "email" item) }
    ∷ rest

unfoldable pub personas_of : List Fields → List Persona
personas_of [] = []
personas_of (item ∷ items) =
    let id = normalize_id (get_field "id" item) in
    let rest = personas_of items in if id == "" then rest else persona_and item (to_int? id) rest

-- `payload["items"]`, or else `payload["data"]`
abbrev raw_items : Fields → Option Json
raw_items payload = elim (get_field "items" payload) [
  | none ↦ get_field "data" payload
  | some items ↦ some items
]

abbrev payload_of : Option Json → Option Fields
payload_of none = none
payload_of (some v) = as_item v

module _ (query_of : String → Option (String → String)) where
  module _ {A : Type 0} (read : List Fields → List A) (body_error list_error : Error) where
    abbrev page_with : Fields → String → Option (List Fields) → Result (Page A)
    page_with payload link none = err list_error
    page_with payload link (some items) =
        ok (record { items = read items; next_page = find_next_page query_of payload link })

    abbrev page_of_items : Fields → String → Option Json → Result (Page A)
    page_of_items payload link none = ok (record { items = []; next_page = none })
    page_of_items payload link (some raw) = page_with payload link (item_list raw)

    abbrev page_of_payload : String → Option Fields → Result (Page A)
    page_of_payload link none = err body_error
    page_of_payload link (some payload) = page_of_items payload link (raw_items payload)

  -- `parseShowsPage`
  unfoldable pub parse_shows_page : Option Json → String → Result ShowsPage
  parse_shows_page body link =
      page_of_payload shows_of (opaque "failed to decode shows response")
        (opaque "failed to decode show list") link (payload_of body)

  -- `parsePersonasPage`
  unfoldable pub parse_personas_page : Option Json → String → Result PersonasPage
  parse_personas_page body link =
      page_of_payload personas_of (opaque "failed to decode personas response")
        (opaque "failed to decode persona list") link (payload_of body)
