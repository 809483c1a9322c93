-- ===== src/Spinitron/Cache/SingleFlight.antt =====
-- At most one refresh runs at a time, and callers get only what a fetch brought.
use mathlib.Core.Path.{subst}
use air_cover.Base.{
  ℕ, suc, ◌≡◌, refl, sym, ◌∙◌, ap, ◌⊎◌, inl, inr, Bool, true, false, not, ◌&&◌, none, List, [], ◌∷◌,
  if◌then◌else◌, Bool-cases, arith,
}
use air_cover.Domain.{Time, before}
use air_cover.Spinitron.Cache.{Cache, Looked, looked, cached, store, end_refresh}
use air_cover.Spinitron.Cache.Steps.{
  System, idle, Event, quiet, brought, given, both, look, look_event, look_event_of, after_look,
  Step, looks, stores, fails, refreshes, refresh_fails, Reach, start, after,
}

abbrev one_if : Bool → ℕ
one_if b = if b then 1 else 0

second_false : (a b : Bool) → a && not b ≡ true → b ≡ false
second_false a b h = ground arith

one_left : (n : ℕ) (b : Bool) → suc n ≡ one_if b → n ≡ 0
one_left n b h = ground arith

module _ {A : Type 0} where
  -- Some fetch among the events brought this list.
  abbrev Brought : List A → List (Event A) → Type 0
  Brought items [] = ⊥
  Brought items (quiet ∷ events) = Brought items events
  Brought items (given other ∷ events) = Brought items events
  Brought items (brought other ∷ events) = (items ≡ other) ⊎ Brought items events
  Brought items (both other ∷ events) = (items ≡ other) ⊎ Brought items events

  -- Every list that a caller was given from the cache had been brought before.
  abbrev AreHonest : List (Event A) → Type 0
  AreHonest [] = Unit
  AreHonest (quiet ∷ events) = AreHonest events
  AreHonest (given items ∷ events) = Brought items events × AreHonest events
  AreHonest (brought items ∷ events) = AreHonest events
  AreHonest (both items ∷ events) = AreHonest events

  abbrev has_brought : List (Event A) → Bool
  has_brought [] = false
  has_brought (quiet ∷ events) = has_brought events
  has_brought (given items ∷ events) = has_brought events
  has_brought (brought items ∷ events) = true
  has_brought (both items ∷ events) = true

  -- One refresh runs where the cache is marked so, and none else; only a loaded cache is refreshed;
  -- what is cached was brought; the cache is loaded from the first fetch that brought something on;
  -- and what callers were given had been brought.
  pub record IsSound (events : List (Event A)) (s : System A) : Type 0 where
    pub single : s.refreshers ≡ one_if s.cache.refreshing
    pub after_load : s.cache.refreshing ≡ true → s.cache.loaded ≡ true
    pub fetched : s.cache.loaded ≡ true → Brought s.cache.items events
    pub stays : has_brought events ≡ true → s.cache.loaded ≡ true
    pub honest : AreHonest events

  miss-IsSound :
      (events : List (Event A)) (s : System A)
      → s.cache.loaded ≡ false
      → IsSound events s
      → IsSound (quiet ∷ events) (record s { fetching = suc s.fetching })
  miss-IsSound events s e h = record {
    single = h.single;
    after_load = h.after_load;
    fetched = h.fetched;
    stays = h.stays;
    honest = h.honest;
  }

  hit-IsSound :
      (events : List (Event A)) (s : System A) (starts : Bool)
      → s.cache.loaded ≡ true
      → (starts ≡ true → s.cache.refreshing ≡ false)
      → IsSound events s
      → IsSound (given s.cache.items ∷ events) (record s {
        cache = if starts then record s.cache { refreshing = true } else s.cache;
        refreshers = if starts then suc s.refreshers else s.refreshers;
      })
  hit-IsSound events s true e free h = record {
    single = let none_runs = h.single ∙ ap one_if (free refl) in ap suc none_runs;
    after_load = λ r. e;
    fetched = h.fetched;
    stays = h.stays;
    honest = (h.fetched e, h.honest);
  }
  hit-IsSound events s false e free h = record {
    single = h.single;
    after_load = h.after_load;
    fetched = h.fetched;
    stays = h.stays;
    honest = (h.fetched e, h.honest);
  }

  miss :
      (now : Time) (c : Cache A)
      → c.loaded ≡ false
      → cached now c ≡ record { found = none; cache = c; starts = false }
  unfolding cached
  miss now c e =
      ap
        (λ b.
          if not b
          then record { found = none; cache = c; starts = false }
          else looked c (not (before now c.expires_at) && not c.refreshing))
        e

  hit :
      (now : Time) (c : Cache A)
      → c.loaded ≡ true
      → cached now c ≡ looked c (not (before now c.expires_at) && not c.refreshing)
  unfolding cached
  hit now c e =
      ap
        (λ b.
          if not b
          then record { found = none; cache = c; starts = false }
          else looked c (not (before now c.expires_at) && not c.refreshing))
        e

  look-IsSound :
      (events : List (Event A)) (s : System A) (now : Time)
      → IsSound events s
      → IsSound (look_event now s ∷ events) (look now s)
  look-IsSound events s now h = elim (Bool-cases s.cache.loaded) [
    | inr e ↦
        subst (λ (l : Looked A). IsSound (look_event_of l.found ∷ events) (after_look s l l.found))
          (sym (miss now s.cache e)) (miss-IsSound events s e h)
    | inl e ↦
        let starts = not (before now s.cache.expires_at) && not s.cache.refreshing in
        subst (λ (l : Looked A). IsSound (look_event_of l.found ∷ events) (after_look s l l.found))
          (sym (hit now s.cache e))
          (hit-IsSound events s starts e (second_false _ s.cache.refreshing) h)
  ]

  -- A list that was just brought is cached.
  Brought-IsSound :
      (events : List (Event A)) (e : Event A) (s : System A) (items : List A) (now : Time)
      (refreshing : Bool) (fetching refreshers : ℕ)
      → refreshers ≡ one_if refreshing
      → Brought items (e ∷ events)
      → (has_brought (e ∷ events) ≡ true)
      → AreHonest (e ∷ events)
      → IsSound (e ∷ events) (record {
        cache = record (store now items s.cache) { refreshing = refreshing };
        fetching = fetching;
        refreshers = refreshers;
      })
  unfolding store
  Brought-IsSound events e s items now refreshing fetching refreshers one b has honest = record {
    single = one;
    after_load = λ r. refl;
    fetched = λ l. b;
    stays = λ x. refl;
    honest = honest;
  }

  Step-IsSound :
      (events : List (Event A)) (s : System A) (e : Event A) (t : System A)
      → Step s e t
      → IsSound events s
      → IsSound (e ∷ events) t
  unfolding end_refresh store
  Step-IsSound events s _ _ (looks now) h = look-IsSound events s now h
  Step-IsSound events s _ _ (stores now n items e) h =
      Brought-IsSound events (both items) s items now s.cache.refreshing n s.refreshers h.single
        (inl refl) refl h.honest
  Step-IsSound events s _ _ (fails n e) h = record {
    single = h.single;
    after_load = h.after_load;
    fetched = h.fetched;
    stays = h.stays;
    honest = h.honest;
  }
  Step-IsSound events s _ _ (refreshes now n items e) h =
      Brought-IsSound events (brought items) s items now false s.fetching n
        (one_left n s.cache.refreshing (sym e ∙ h.single)) (inl refl) refl h.honest
  Step-IsSound events s _ _ (refresh_fails now n x e) h = record {
    single = one_left n s.cache.refreshing (sym e ∙ h.single);
    after_load = λ r. cc r;
    fetched = h.fetched;
    stays = h.stays;
    honest = h.honest;
  }

  start-IsSound : IsSound [] idle
  start-IsSound = record {
    single = refl;
    after_load = λ r. cc r;
    fetched = λ r. cc r;
    stays = λ r. cc r;
    honest = tt;
  }

  -- Through any interleaving of callers, of fetches that end as they may, and of refreshes in the
  -- background: at most one refresh of the list runs, namely while the cache is marked as refreshing,
  -- and only once the cache is loaded; every list that a caller is given from the cache is one that
  -- some fetch had brought; and from the first such fetch on the cache stays loaded, so that no
  -- failed refresh takes the list away.
  pub reach-IsSound : (events : List (Event A)) (s : System A) → Reach events s → IsSound events s
  reach-IsSound _ _ start = start-IsSound
  reach-IsSound _ t (after {events} {e} {s} reached step) =
      Step-IsSound events s e t step (reach-IsSound events s reached)
