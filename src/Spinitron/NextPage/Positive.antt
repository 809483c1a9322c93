-- ===== src/Spinitron/NextPage/Positive.antt =====
-- Every next page is a page.
use air_cover.Base.{
  ℤ, pos, String, ◌≡◌, Bool, true, false, Option, none, some, List, [], ◌∷◌, ◌==◌, string_eq, ltb_ℤ,
  Bool-cases, inl, inr, not, ◌||◌, to_int?, trim, if◌then◌else◌,
}
use air_cover.Base.Strings.{contains, split_on, until, behind}
use air_cover.Json.{
  Json, null, bool, num, str, arr, obj, Elems, nil, cons, Fields, end, field, get_field,
}
use air_cover.Spinitron.NextPage.{
  or_page, positive, positive_of, page_of_query, parse_page_string, later_field, or_none,
  page_from_generic, page_from_parts, page_under, page_at, page_in_meta, between, page_of_link,
  pages_of_links, parse_next_page_from_link_header, find_next_page,
}

-- A page has a positive number.
abbrev pub IsPage : Option ℤ → Type 0
IsPage none = Unit
IsPage (some page) = ltb_ℤ (pos 0) page ≡ true

or_page-IsPage : (a b : Option ℤ) → IsPage a → IsPage b → IsPage (or_page a b)
or_page-IsPage none b ha hb = hb
or_page-IsPage (some page) b ha hb = ha

positive-IsPage : (page : ℤ) → IsPage (positive page)
positive-IsPage page = elim (Bool-cases (ltb_ℤ (pos 0) page)) [ inl e ↦ rw e e | inr e ↦ rw e tt ]

positive_of-IsPage : (o : Option ℤ) → IsPage (positive_of o)
positive_of-IsPage none = tt
positive_of-IsPage (some page) = positive-IsPage page

if_none-IsPage : (b : Bool) (o : Option ℤ) → IsPage o → IsPage (if b then none else o)
if_none-IsPage true o h = tt
if_none-IsPage false o h = h

module _ (query_of : String → Option (String → String)) where
  page_of_query-IsPage : (o : Option (String → String)) → IsPage (page_of_query query_of o)
  page_of_query-IsPage none = tt
  page_of_query-IsPage (some query) =
      if_none-IsPage (query "page" == "") _ (positive_of-IsPage (to_int? (query "page")))

  parse_page_string-IsPage : (raw : String) → IsPage (parse_page_string query_of raw)
  unfolding parse_page_string
  parse_page_string-IsPage raw = if_none-IsPage (trim raw == "") _ (
      or_page-IsPage (positive_of (to_int? (trim raw))) _ (positive_of-IsPage (to_int? (trim raw)))
        (page_of_query-IsPage (query_of (trim raw))))

  abbrev IsField : Option (Option ℤ) → Type 0
  IsField o = IsPage (or_none o)

  later-IsField : (a b : Option (Option ℤ)) → IsField a → IsField b → IsField (later_field a b)
  later-IsField none b ha hb = hb
  later-IsField (some page) b ha hb = ha

  if-IsField : (b : Bool) (o : Option ℤ) → IsPage o → IsField (if b then some o else none)
  if-IsField true o h = h
  if-IsField false o h = tt

  mutual
    unfolding page_from_generic page_from_parts page_under

    generic-IsPage : (v : Json) → IsPage (page_from_generic query_of v)
    generic-IsPage null = tt
    generic-IsPage (bool b) = tt
    generic-IsPage (num n) = positive-IsPage n
    generic-IsPage (str s) = parse_page_string-IsPage s
    generic-IsPage (arr parts) = parts-IsPage parts
    generic-IsPage (obj fields) = or_page-IsPage _ _ (under-IsField "next" fields) (
        or_page-IsPage _ _ (under-IsField "next_page" fields) (
          or_page-IsPage _ _ (under-IsField "page" fields)
            (or_page-IsPage _ _ (under-IsField "href" fields) (under-IsField "url" fields))))

    parts-IsPage : (parts : Elems) → IsPage (page_from_parts query_of parts)
    parts-IsPage nil = tt
    parts-IsPage (cons part parts) =
        or_page-IsPage (page_from_generic query_of part) _ (generic-IsPage part)
          (parts-IsPage parts)

    under-IsField : (key : String) (fields : Fields) → IsField (page_under query_of key fields)
    under-IsField key end = tt
    under-IsField key (field k v fields) =
        later-IsField (page_under query_of key fields) _ (under-IsField key fields)
          (if-IsField (k == key) (page_from_generic query_of v) (generic-IsPage v))

  page_at-IsPage : (key : String) (payload : Fields) → IsPage (page_at query_of key payload)
  page_at-IsPage key payload = go (get_field key payload)
    where
      go :
          (o : Option Json)
          → IsPage (elim o [ none ↦ none | some v ↦ page_from_generic query_of v ])
      go none = tt
      go (some v) = generic-IsPage v

  page_in_meta-IsPage : (o : Option Json) → IsPage (page_in_meta query_of o)
  page_in_meta-IsPage (some (obj meta)) =
      or_page-IsPage (page_at query_of "next_page" meta) _ (page_at-IsPage "next_page" meta)
        (page_at-IsPage "next" meta)
  page_in_meta-IsPage none = tt
  page_in_meta-IsPage (some null) = tt
  page_in_meta-IsPage (some (bool b)) = tt
  page_in_meta-IsPage (some (num n)) = tt
  page_in_meta-IsPage (some (str s)) = tt
  page_in_meta-IsPage (some (arr parts)) = tt

  between-IsPage : (before : String) (o : Option String) → IsPage (between query_of before o)
  between-IsPage before none = tt
  between-IsPage before (some rest) =
      if_none-IsPage (contains ">" before || not (contains ">" rest) || until b'>' rest == "") _
        (parse_page_string-IsPage (until b'>' rest))

  page_of_link-IsPage : (part : String) → IsPage (page_of_link query_of part)
  page_of_link-IsPage part = elim (Bool-cases (contains "rel=\"next\"" part)) [
    | inl e ↦ rw e (between-IsPage (until b'<' part) (behind b'<' part))
    | inr e ↦ rw e tt
  ]

  pages_of_links-IsPage : (parts : List String) → IsPage (pages_of_links query_of parts)
  unfolding pages_of_links
  pages_of_links-IsPage [] = tt
  pages_of_links-IsPage (part ∷ parts) =
      or_page-IsPage (page_of_link query_of (trim part)) _ (page_of_link-IsPage (trim part))
        (pages_of_links-IsPage parts)

  header-IsPage : (link : String) → IsPage (parse_next_page_from_link_header query_of link)
  unfolding parse_next_page_from_link_header
  header-IsPage link = if_none-IsPage (link == "") _ (pages_of_links-IsPage (split_on b',' link))

  pub find_next_page-IsPage :
      (payload : Fields) (link : String) → IsPage (find_next_page query_of payload link)
  unfolding find_next_page
  find_next_page-IsPage payload link =
      or_page-IsPage (page_at query_of "next_page" payload) _ (page_at-IsPage "next_page" payload) (
        or_page-IsPage (page_at query_of "next" payload) _ (page_at-IsPage "next" payload) (
          or_page-IsPage (page_at query_of "_links" payload) _ (page_at-IsPage "_links" payload) (
            or_page-IsPage (page_at query_of "links" payload) _ (page_at-IsPage "links" payload) (
              or_page-IsPage (page_in_meta query_of (get_field "meta" payload)) _
                (page_in_meta-IsPage (get_field "meta" payload)) (header-IsPage link)))))
