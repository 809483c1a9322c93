-- ===== src/Spinitron/Cache.antt =====
-- `Catalog` of catalog.go: what was fetched last, for shows and for personas, with an instant from
-- which it is fetched anew in the background. Each function here is one stretch under the mutex, or
-- a method made of such. `now` stands for the answer of the clock.
pub mod Steps
pub mod SingleFlight
pub mod Listing
use air_cover.Base.{
  ℕ, suc, ◌+◌, ◌-◌, ◌*◌, Bool, true, false, not, ◌&&◌, Option, none, some, List, [], if◌then◌else◌,
}
use air_cover.Errors.{
  Error, sentinel, no_catalog_source, Result, ok, err, Exec, pure, raise, ◌>>=◌, ◌>>◌,
}
use air_cover.Domain.{Time, minute, before}
use air_cover.SubRequests.Ports.{Show, Persona}
use air_cover.Spinitron.Pages.{PageClient, fetch_shows, fetch_personas}

abbrev default_catalog_ttl : ℕ
default_catalog_ttl = 15 * minute

-- The four fields of `Catalog` for one of the two lists.
pub record Cache (A : Type 0) : Type 0 where
  pub items : List A
  pub loaded : Bool
  pub expires_at : Time
  pub refreshing : Bool

abbrev pub empty_cache : {A : Type 0} → Cache A
empty_cache = record { items = []; loaded = false; expires_at = 0; refreshing = false }

-- What is cached, if anything; the cache; and whether a refresh is started.
pub record Looked (A : Type 0) : Type 0 where
  pub found : Option (List A)
  pub cache : Cache A
  pub starts : Bool

-- One more, if a refresh is started.
abbrev more : Bool → ℕ → ℕ
more starts n = if starts then suc n else n

module _ {A : Type 0} where
  abbrev looked : Cache A → Bool → Looked A
  looked c starts = record {
    found = some c.items;
    cache = if starts then record c { refreshing = true } else c;
    starts = starts;
  }

  -- `cachedShows` and `cachedPersonas`
  unfoldable pub cached : Time → Cache A → Looked A
  cached now c =
      if not c.loaded
      then record { found = none; cache = c; starts = false }
      else looked c (not (before now c.expires_at) && not c.refreshing)

  -- `storeShows` and `storePersonas`
  unfoldable pub store : Time → List A → Cache A → Cache A
  store now items c = record c {
    items = items;
    loaded = true;
    expires_at = now + default_catalog_ttl;
  }

  -- The end of `refreshShows` and `refreshPersonas`: a failure leaves what there was.
  unfoldable pub end_refresh : Time → Result (List A) → Cache A → Cache A
  unfolding store
  end_refresh now (ok items) c = record (store now items c) { refreshing = false }
  end_refresh now (err e) c = record c { refreshing = false }

-- The catalog in its world: `refreshes` counts the goroutines that `cachedShows` and
-- `cachedPersonas` have started and that are not done.
pub record CatalogState (W : Type 0) : Type 0 where
  pub shows : Cache Show
  pub personas : Cache Persona
  pub show_refreshes : ℕ
  pub persona_refreshes : ℕ
  pub world : W

-- The ports of the catalog: a nil source is `none`.
pub record Catalog (W : Type 0) : Type 0 where
  pub source : Option (PageClient W)
  pub now_func : W → Time × W

module _ {W : Type 0} where
  abbrev on_world : {A : Type 0} → Exec W A → Exec (CatalogState W) A
  on_world m s = let (r, w) = m s.world in (r, record s { world = w })

  module _ (catalog : Catalog W) where
    abbrev clock : Exec (CatalogState W) Time
    clock s = let (t, w) = catalog.now_func s.world in (ok t, record s { world = w })

    -- `validate`
    abbrev validated : Option (PageClient W) → Exec (CatalogState W) (PageClient W)
    validated none = raise (sentinel no_catalog_source)
    validated (some source) = pure source

    abbrev look_at_shows : Time → Exec (CatalogState W) (Option (List Show))
    look_at_shows now s =
        let l = cached now s.shows in
        (ok l.found, record s { shows = l.cache; show_refreshes = more l.starts s.show_refreshes })

    -- `cachedShows`: only a list that is loaded is compared with the clock.
    unfoldable pub cached_shows : Exec (CatalogState W) (Option (List Show))
    cached_shows s = if s.shows.loaded then (clock >>= look_at_shows) s else (ok none, s)

    abbrev look_at_personas : Time → Exec (CatalogState W) (Option (List Persona))
    look_at_personas now s =
        let l = cached now s.personas in
        (
          ok l.found,
          record s { personas = l.cache; persona_refreshes = more l.starts s.persona_refreshes },
        )

    -- `cachedPersonas`: only a list that is loaded is compared with the clock.
    unfoldable pub cached_personas : Exec (CatalogState W) (Option (List Persona))
    cached_personas s = if s.personas.loaded then (clock >>= look_at_personas) s else (ok none, s)

    unfoldable pub store_shows : List Show → Exec (CatalogState W) (Unit {0})
    store_shows items = do now ← clock; λ s. (ok tt, record s { shows = store now items s.shows })

    unfoldable pub store_personas : List Persona → Exec (CatalogState W) (Unit {0})
    store_personas items = do
      now ← clock
      λ s. (ok tt, record s { personas = store now items s.personas })

    unfoldable pub shows_or_fetch :
        PageClient W → Option (List Show) → Exec (CatalogState W) (List Show)
    shows_or_fetch source (some items) = pure items
    shows_or_fetch source none = do
      items ← on_world (fetch_shows source)
      store_shows items
      pure items

    -- `ListShows`
    unfoldable pub list_shows : Exec (CatalogState W) (List Show)
    list_shows = do
      source ← validated catalog.source
      found ← cached_shows
      shows_or_fetch source found

    unfoldable pub personas_or_fetch :
        PageClient W → Option (List Persona) → Exec (CatalogState W) (List Persona)
    personas_or_fetch source (some items) = pure items
    personas_or_fetch source none = do
      items ← on_world (fetch_personas source)
      store_personas items
      pure items

    -- `ListPersonas`
    unfoldable pub list_personas : Exec (CatalogState W) (List Persona)
    list_personas = do
      source ← validated catalog.source
      found ← cached_personas
      personas_or_fetch source found

    abbrev ended_shows : Result (List Show) → Exec (CatalogState W) (Unit {0})
    ended_shows (ok items) s =
        let (now, w) = catalog.now_func s.world in
        (ok tt, record s { shows = end_refresh now (ok items) s.shows; world = w })
    ended_shows (err e) s = (ok tt, record s { shows = end_refresh 0 (err e) s.shows })

    -- `refreshShows`, a goroutine, from its start to its end.
    unfoldable pub refresh_shows : PageClient W → Exec (CatalogState W) (Unit {0})
    refresh_shows source s =
        let (r, w) = fetch_shows source s.world in
        ended_shows r (record s { world = w; show_refreshes = s.show_refreshes - 1 })

    abbrev ended_personas : Result (List Persona) → Exec (CatalogState W) (Unit {0})
    ended_personas (ok items) s =
        let (now, w) = catalog.now_func s.world in
        (ok tt, record s { personas = end_refresh now (ok items) s.personas; world = w })
    ended_personas (err e) s = (ok tt, record s { personas = end_refresh 0 (err e) s.personas })

    -- `refreshPersonas`
    unfoldable pub refresh_personas : PageClient W → Exec (CatalogState W) (Unit {0})
    refresh_personas source s =
        let (r, w) = fetch_personas source s.world in
        ended_personas r (record s { world = w; persona_refreshes = s.persona_refreshes - 1 })

    -- `Prefetch`
    unfoldable pub prefetch : Exec (CatalogState W) (Unit {0})
    prefetch = do shows ← list_shows; personas ← list_personas; pure tt
