-- ===== src/Spinitron/NextPage.antt =====
-- The number of the next page in spinitron.go, from wherever the service may put it. `query_of` is
-- `url.Parse` with `Query`.
pub mod Positive
use air_cover.Base.{
  ℤ, pos, String, Bool, true, false, not, ◌||◌, Option, none, some, List, [], ◌∷◌, ◌==◌, string_eq,
  ltb_ℤ, of_int, to_int?, trim, if◌then◌else◌,
}
use air_cover.Base.Strings.{contains, split_on, until, behind}
use air_cover.Errors.{Error, opaque, Result, ok, err}
use air_cover.SubRequests.Ports.{Show, Persona}
use air_cover.Json.{
  Json, null, bool, num, str, arr, obj, Elems, nil, cons, Fields, end, field, get_field,
}
use air_cover.Spinitron.Pages.{Page, ShowsPage, PersonasPage}

abbrev or_page : Option ℤ → Option ℤ → Option ℤ
or_page none other = other
or_page (some page) other = some page

-- A number that is a page.
abbrev positive : ℤ → Option ℤ
positive page = if ltb_ℤ (pos 0) page then some page else none

abbrev positive_of : Option ℤ → Option ℤ
positive_of none = none
positive_of (some page) = positive page

-- Of two fields with one key the later counts.
abbrev later_field : Option (Option ℤ) → Option (Option ℤ) → Option (Option ℤ)
later_field none o = o
later_field (some page) o = some page

abbrev or_none : Option (Option ℤ) → Option ℤ
or_none none = none
or_none (some page) = page

module _ (query_of : String → Option (String → String)) where
  abbrev page_of_query : Option (String → String) → Option ℤ
  page_of_query none = none
  page_of_query (some query) =
      if query "page" == "" then none else positive_of (to_int? (query "page"))

  abbrev page_of_text : String → Option ℤ
  page_of_text raw =
      if raw == "" then none else or_page (positive_of (to_int? raw)) (page_of_query (query_of raw))

  -- `parsePageString`
  unfoldable pub parse_page_string : String → Option ℤ
  parse_page_string raw = page_of_text (trim raw)

  unfoldable mutual
    unfolding parse_page_string

    -- `pageFromGeneric`
    pub page_from_generic : Json → Option ℤ
    page_from_generic null = none
    page_from_generic (bool b) = none
    page_from_generic (num n) = positive n
    page_from_generic (str s) = parse_page_string s
    page_from_generic (arr parts) = page_from_parts parts
    page_from_generic (obj fields) = or_page (or_none (page_under "next" fields)) (
        or_page (or_none (page_under "next_page" fields)) (
          or_page (or_none (page_under "page" fields))
            (or_page (or_none (page_under "href" fields)) (or_none (page_under "url" fields)))))

    -- Its loop over an array.
    pub page_from_parts : Elems → Option ℤ
    page_from_parts nil = none
    page_from_parts (cons part parts) = or_page (page_from_generic part) (page_from_parts parts)

    -- What it makes of the value under a key, if there is one.
    pub page_under : String → Fields → Option (Option ℤ)
    page_under key end = none
    page_under key (field k v fields) =
        later_field (page_under key fields) (if k == key then some (page_from_generic v) else none)

  -- `parseNextPageValue`, on a field that may be missing.
  abbrev pub page_at : String → Fields → Option ℤ
  page_at key payload = elim (get_field key payload) [ none ↦ none | some v ↦ page_from_generic v ]

  abbrev page_in_meta : Option Json → Option ℤ
  page_in_meta (some (obj meta)) = or_page (page_at "next_page" meta) (page_at "next" meta)
  page_in_meta v = none

  abbrev between : String → Option String → Option ℤ
  between before none = none
  between before (some rest) =
      if contains ">" before || not (contains ">" rest) || until b'>' rest == ""
      then none
      else parse_page_string (until b'>' rest)

  -- The part of a Link header that names the next page: the text between `<` and `>`.
  abbrev page_of_link : String → Option ℤ
  page_of_link part =
      if contains "rel=\"next\"" part then between (until b'<' part) (behind b'<' part) else none

  pages_of_links : List String → Option ℤ
  pages_of_links [] = none
  pages_of_links (part ∷ parts) = or_page (page_of_link (trim part)) (pages_of_links parts)

  -- `parseNextPageFromLinkHeader`
  unfoldable pub parse_next_page_from_link_header : String → Option ℤ
  unfolding pages_of_links
  parse_next_page_from_link_header link =
      if link == "" then none else pages_of_links (split_on b',' link)

  -- `findNextPage`
  unfoldable pub find_next_page : Fields → String → Option ℤ
  find_next_page payload link = or_page (page_at "next_page" payload) (
      or_page (page_at "next" payload) (
        or_page (page_at "_links" payload) (
          or_page (page_at "links" payload) (
            or_page (page_in_meta (get_field "meta" payload))
              (parse_next_page_from_link_header link)))))
