-- ===== src/Spinitron/Cache/Steps.antt =====
-- The cache of one list among its callers and its goroutines: who does what next is open, and a fetch
-- may take any time between its start and its end.
use air_cover.Base.{ℕ, suc, ◌≡◌, Option, none, some, List, [], ◌∷◌, if◌then◌else◌}
use air_cover.Errors.{Error, ok, err}
use air_cover.Domain.{Time}
use air_cover.Spinitron.Cache.{Cache, Looked, empty_cache, cached, store, end_refresh}

-- `fetching` counts the callers that found nothing and are fetching, `refreshers` the goroutines.
pub record System (A : Type 0) : Type 0 where
  pub cache : Cache A
  pub fetching : ℕ
  pub refreshers : ℕ

abbrev pub idle : {A : Type 0} → System A
idle = record { cache = empty_cache; fetching = 0; refreshers = 0 }

-- What a step shows: a list that a fetch brought, or one that a caller was given.
pub data Event (A : Type 0) : Type 0 where
  quiet : Event A
  brought : List A → Event A
  given : List A → Event A
  both : List A → Event A

-- A caller that looks into the cache gets what is there, or starts to fetch.
abbrev pub after_look : {A : Type 0} → System A → Looked A → Option (List A) → System A
after_look s l none = record s { cache = l.cache; fetching = suc s.fetching }
after_look s l (some items) = record s {
  cache = l.cache;
  refreshers = if l.starts then suc s.refreshers else s.refreshers;
}

abbrev pub look : {A : Type 0} → Time → System A → System A
look now s = let l = cached now s.cache in after_look s l l.found

abbrev pub look_event_of : {A : Type 0} → Option (List A) → Event A
look_event_of none = quiet
look_event_of (some items) = given items

abbrev pub look_event : {A : Type 0} → Time → System A → Event A
look_event now s = look_event_of (cached now s.cache).found

pub data Step {A : Type 0} (s : System A) : Event A → System A → Type 0 where
  looks : (now : Time) → Step s (look_event now s) (look now s)
  -- A caller's fetch ends: its list is stored and given to the caller.
  stores :
      (now : Time) (n : ℕ) (items : List A)
      → s.fetching ≡ suc n
      → Step s (both items) (record s { cache = store now items s.cache; fetching = n })
  fails : (n : ℕ) → s.fetching ≡ suc n → Step s quiet (record s { fetching = n })
  -- A goroutine's fetch ends.
  refreshes :
      (now : Time) (n : ℕ) (items : List A)
      → s.refreshers ≡ suc n
      → Step s
          (brought items)
          (record s { cache = end_refresh now (ok items) s.cache; refreshers = n })
  refresh_fails :
      (now : Time) (n : ℕ) (e : Error)
      → s.refreshers ≡ suc n
      → Step s quiet (record s { cache = end_refresh now (err e) s.cache; refreshers = n })

-- Sequences of steps from the empty cache, with the events, the latest first.
pub data Reach {A : Type 0} : List (Event A) → System A → Type 0 where
  start : Reach [] idle
  after :
      {events : List (Event A)} {e : Event A} {s t : System A}
      → Reach events s
      → Step s e t
      → Reach (e ∷ events) t
