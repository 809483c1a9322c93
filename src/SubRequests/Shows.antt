-- ===== src/SubRequests/Shows.antt =====
-- The show helpers of internal/app/subrequests/service.go.
use air_cover.Base.{
  ℤ, String, Bool, false, ◌||◌, Option, none, some, List, [], ◌∷◌, ◌==◌, ◌/=◌, if◌then◌else◌,
  string_eq, int_eq, lower, str_ltb, to_int?, sort_by,
}
use air_cover.SubRequests.Ports.{Show}

-- A Go map from identifiers to titles, the newest entry first.
abbrev pub TitleMap : Type 0
TitleMap = List (ℤ × String)

add_title : String → Option ℤ → TitleMap → TitleMap
add_title title none m = m
add_title title (some id) m = (id, title) ∷ m

titles_from : TitleMap → List Show → TitleMap
unfolding add_title
titles_from m [] = m
titles_from m (s ∷ shows) = titles_from (add_title s.title (to_int? s.id) m) shows

-- `showTitlesByID`: shows whose identifier is no number are skipped.
unfoldable pub show_titles_by_id : List Show → TitleMap
unfolding titles_from
show_titles_by_id shows = titles_from [] shows

-- `showMap[showID]`, with the zero value where the key is missing.
title_at : TitleMap → ℤ → String
title_at [] id = ""
title_at ((j, title) ∷ m) id = if j == id then title else title_at m id

-- `showTitle`
unfoldable pub show_title : TitleMap → ℤ → String
unfolding title_at
show_title m id = let title = title_at m id in if title /= "" then title else "Unknown Show"

names : Option ℤ → ℤ → Bool
names none id = false
names (some j) id = j == id

-- `showExists`
unfoldable pub show_exists : List Show → ℤ → Bool
unfolding names
show_exists [] id = false
show_exists (s ∷ shows) id = names (to_int? s.id) id || show_exists shows id

-- The order of the dashboard's shows, by title without case.
abbrev pub title_less : Show → Show → Bool
title_less a b = str_ltb (lower a.title) (lower b.title)

unfoldable pub sort_shows : List Show → List Show
sort_shows shows = sort_by title_less shows
