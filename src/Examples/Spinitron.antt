-- ===== src/Examples/Spinitron.antt =====
-- The catalog over a source of two pages of shows, and the readers on small bodies.
use air_cover.Base.{
  ℕ, suc, ◌+◌, ◌≤◌, pos, ℤ, String, ◌≡◌, refl, ◌↔◌, ◌⊎◌, Bool, true, false, none, some, Option,
  List, [], ◌∷◌, ◌==◌, string_eq, int_eq, arith,
}
use air_cover.Errors.{Result, ok, opaque, Exec, lift}
use air_cover.Domain.{Time}
use air_cover.Json.{Json, str, num, obj, arr, nil, cons, field, end}
use air_cover.SubRequests.Ports.{Show}
use air_cover.Spinitron.Pages.{Page, PageClient, max_catalog_pages, fetch, fetch_shows}
use air_cover.Spinitron.Pages.Chains.{Chain, fetch-iff-Chain}
use air_cover.Spinitron.Pages.Calls.{fetch-calls}
use air_cover.Spinitron.Cache.{CatalogState, empty_cache, list_shows}
use air_cover.Spinitron.Cache.Steps.{
  System, Event, quiet, both, idle, look, looks, stores, Reach, start, after,
}
use air_cover.Spinitron.Cache.SingleFlight.{IsSound, reach-IsSound}
use air_cover.Spinitron.Cache.Listing.{catalog, IsCached, IsFetched, list_shows-lands}
use air_cover.Spinitron.Parsing.{parse_shows_page, parse_personas_page}
use air_cover.Spinitron.Parsing.NextPages.{NamesPage, parsed-NamesPage}
use air_cover.Examples.SubRequests.{night_drive}

abbrev morning : Show
morning = record { id = "8"; title = "Morning" }

abbrev page_of : Bool → Page Show
page_of true = record { items = night_drive ∷ []; next_page = some (pos 2) }
page_of false = record { items = morning ∷ []; next_page = none }

abbrev two_pages : ℤ → Result (Page Show)
two_pages page = ok (page_of (page == pos 1))

fetch-iff-Chain_example :
    ((fetch {W = ℕ} (λ page. lift (two_pages page)) (opaque "too many") 0).0
      ≡ ok (night_drive ∷ morning ∷ []))
    ↔ ((n : ℕ) × (n ≤ max_catalog_pages) × Chain two_pages n (pos 1) (night_drive ∷ morning ∷ []))
fetch-iff-Chain_example =
    fetch-iff-Chain two_pages {W = ℕ} (opaque "too many") (night_drive ∷ morning ∷ []) 0

-- A source whose every page names a next one, and that counts its calls.
abbrev endless : ℤ → Exec ℕ (Page Show)
endless page n = (ok (page_of true), suc n)

fetch-calls_example : (fetch endless (opaque "too many") 5).1 ≤ 5 + max_catalog_pages
fetch-calls_example = fetch-calls endless (opaque "too many") (λ n. n) (λ page w. omega arith) 5

abbrev looked : System Show
looked = look 10 idle

abbrev events : List (Event Show)
events = both (night_drive ∷ []) ∷ quiet ∷ []

reach_events : Reach events (record {
  cache = record {
    items = night_drive ∷ [];
    loaded = true;
    expires_at = 900000000020;
    refreshing = false;
  };
  fetching = 0;
  refreshers = 0;
})
unfolding air_cover.Spinitron.Cache.cached air_cover.Spinitron.Cache.store
reach_events = after (after start (looks 10)) (stores 20 0 (night_drive ∷ []) refl)

reach-IsSound_example : IsSound events (record {
  cache = record {
    items = night_drive ∷ [];
    loaded = true;
    expires_at = 900000000020;
    refreshing = false;
  };
  fetching = 0;
  refreshers = 0;
})
reach-IsSound_example = reach-IsSound events _ reach_events

abbrev source : PageClient ℕ
source = record {
  get_shows_page = λ page n. (two_pages page, suc n);
  get_personas_page = λ page n. (ok (record { items = []; next_page = none }), suc n);
}

abbrev now_func : ℕ → Time × ℕ
now_func n = (1000, n)

abbrev fresh : CatalogState ℕ
fresh = record {
  shows = empty_cache;
  personas = empty_cache;
  show_refreshes = 0;
  persona_refreshes = 0;
  world = 0;
}

list_shows-lands_example :
    ((false ≡ true) × IsCached source now_func fresh (list_shows (catalog source now_func) fresh))
    ⊎ ((false ≡ false)
        × IsFetched source now_func fresh
            (fetch_shows source 0).0
            (list_shows (catalog source now_func) fresh))
list_shows-lands_example = list_shows-lands source now_func fresh

abbrev no_query : String → Option (String → String)
no_query s = none

abbrev body : Json
body = obj (
    field "items" (arr nil)
      (field "_links" (obj (field "next" (arr (cons (num (pos 0)) (cons (str "3") nil))) end)) end))

parsed-NamesPage_example :
    NamesPage no_query (parse_shows_page no_query (some body) "")
    × NamesPage no_query (parse_personas_page no_query (some body) "")
parsed-NamesPage_example = parsed-NamesPage no_query (some body) ""
