-- ===== src/Spinitron/Cache/Listing.antt =====
-- What a caller of `ListShows` gets, and what stays in the cache.
use mathlib.Core.Path.{subst}
use air_cover.Base.{
  ◌≡◌, refl, sym, ap, true, false, Option, none, some, List, if◌then◌else◌, Bool-cases, ◌⊎◌, inl,
  inr, arith,
}
use air_cover.Errors.{Result, ok, err, continue, pure, ◌>>=◌}
use air_cover.Domain.{Time}
use air_cover.SubRequests.Ports.{Show}
use air_cover.Spinitron.Pages.{PageClient, fetch_shows}
use air_cover.Spinitron.Cache.{
  cached, store, CatalogState, Catalog, cached_shows, store_shows, shows_or_fetch, list_shows,
  clock, look_at_shows,
}

module _ {W : Type 0} (source : PageClient W) (now_func : W → Time × W) where
  abbrev pub catalog : Catalog W
  catalog = record { source = some source; now_func = now_func }

  -- A loaded cache answers for itself: the source is not called, and the list stays.
  pub record IsCached (s : CatalogState W) (p : Result (List Show) × CatalogState W) : Type 0 where
    pub answer : p.0 ≡ ok s.shows.items
    pub untouched : p.1.world ≡ (now_func s.world).1
    pub kept : p.1.shows.items ≡ s.shows.items
    pub still : p.1.shows.loaded ≡ true

  -- What a fetch brings is stored and returned; a failure is returned and stores nothing.
  abbrev pub IsFetched :
      CatalogState W → Result (List Show) → Result (List Show) × CatalogState W → Type 0
  IsFetched s (ok items) p =
      (p.0 ≡ ok items)
      × (p.1.shows.items ≡ items)
      × (p.1.shows.loaded ≡ true)
      × (p.1.show_refreshes ≡ s.show_refreshes)
  IsFetched s (err e) p = (p.0 ≡ err e) × (p.1.shows ≡ s.shows)

  hit-IsCached :
      (s : CatalogState W)
      → s.shows.loaded ≡ true
      → IsCached s ((cached_shows catalog >>= shows_or_fetch catalog source) s)
  unfolding cached_shows shows_or_fetch cached ◌>>=◌
  hit-IsCached s e = record {
    answer = ground arith;
    untouched = ground arith;
    kept = ground arith;
    still = ground arith;
  }

  IsFetched-IsFetched :
      (s : CatalogState W) (r : Result (List Show)) (w : W)
      → IsFetched s r (
          continue r
            (λ items. store_shows catalog items >>= λ done. pure items)
            (record s { world = w }))
  unfolding store_shows store ◌>>=◌
  IsFetched-IsFetched s (ok items) w = (refl, refl, refl, refl)
  IsFetched-IsFetched s (err e) w = (refl, refl)

  nothing_cached :
      (s : CatalogState W) → s.shows.loaded ≡ false → cached_shows catalog s ≡ (ok none, s)
  unfolding cached_shows ◌>>=◌
  nothing_cached s e =
      ap (λ b. if b then (clock catalog >>= look_at_shows catalog) s else (ok none, s)) e

  miss-IsFetched :
      (s : CatalogState W)
      → s.shows.loaded ≡ false
      → IsFetched s
          (fetch_shows source s.world).0
          ((cached_shows catalog >>= shows_or_fetch catalog source) s)
  unfolding shows_or_fetch ◌>>=◌
  miss-IsFetched s e =
      let p = fetch_shows source s.world in
      subst
        (λ (q : Result (Option (List Show)) × CatalogState W).
          IsFetched s p.0 (continue q.0 (shows_or_fetch catalog source) q.1))
        (sym (nothing_cached s e)) (IsFetched-IsFetched s p.0 p.1)

  -- ListShows on a catalog with a source: a loaded cache is returned as it is, without a call of the
  -- source, however old it is; otherwise what a fetch brings is stored and returned, and its error
  -- is returned and leaves the cache as it was.
  pub list_shows-lands :
      (s : CatalogState W)
      → ((s.shows.loaded ≡ true) × IsCached s (list_shows catalog s))
        ⊎ ((s.shows.loaded ≡ false)
            × IsFetched s (fetch_shows source s.world).0 (list_shows catalog s))
  unfolding list_shows ◌>>=◌
  list_shows-lands s = elim (Bool-cases s.shows.loaded) [
    | inl e ↦ inl (e, hit-IsCached s e)
    | inr e ↦ inr (e, miss-IsFetched s e)
  ]
