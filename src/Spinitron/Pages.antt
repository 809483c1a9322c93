-- ===== src/Spinitron/Pages.antt =====
-- The loops of catalog.go over the pages of a source, for shows and for personas.
pub mod Chains
pub mod Calls
use air_cover.Base.{
  ℕ, zero, suc, ℤ, pos, String, Bool, Option, none, some, List, [], ◌++◌, ltb_ℤ, if◌then◌else◌,
}
use air_cover.Errors.{Error, opaque, Exec, pure, raise, ◌>>=◌}
use air_cover.SubRequests.Ports.{Show, Persona}

-- `ShowsPage` and `PersonasPage`
pub record Page (A : Type 0) : Type 0 where
  pub items : List A
  pub next_page : Option ℤ

abbrev pub ShowsPage : Type 0
ShowsPage = Page Show

abbrev pub PersonasPage : Type 0
PersonasPage = Page Persona

-- `PageClient`
pub record PageClient (W : Type 0) : Type 0 where
  pub get_shows_page : ℤ → Exec W ShowsPage
  pub get_personas_page : ℤ → Exec W PersonasPage

abbrev pub max_catalog_pages : ℕ
max_catalog_pages = 100

-- After a page: the end, or the loop's next round.
abbrev pub advance : {W A : Type 0} → (ℤ → Exec W (List A)) → List A → Option ℤ → Exec W (List A)
advance later items none = pure items
advance later items (some next) = later next

module _ {W A : Type 0} (get_page : ℤ → Exec W (Page A)) (too_many : Error) where
  -- The loop from a page on, with the items so far. The number of rounds left is what
  -- `fetched >= maxCatalogPages` tests.
  unfoldable pub fetch_from : ℕ → ℤ → List A → Exec W (List A)
  fetch_from zero page items = if ltb_ℤ (pos 0) page then raise too_many else pure items
  fetch_from (suc rounds) page items =
      let round = get_page page >>= λ p.
      let all = items ++ p.items in advance (λ next. fetch_from rounds next all) all p.next_page in
      if ltb_ℤ (pos 0) page then round else pure items

  unfoldable pub fetch : Exec W (List A)
  fetch = fetch_from max_catalog_pages (pos 1) []

module _ {W : Type 0} (source : PageClient W) where
  -- `fetchShows`
  unfoldable pub fetch_shows : Exec W (List Show)
  fetch_shows = fetch source.get_shows_page (opaque "spinitron shows pagination exceeded 100 pages")

  -- `fetchPersonas`
  unfoldable pub fetch_personas : Exec W (List Persona)
  fetch_personas =
      fetch source.get_personas_page (opaque "spinitron personas pagination exceeded 100 pages")
