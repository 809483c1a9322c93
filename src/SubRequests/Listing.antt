-- ===== src/SubRequests/Listing.antt =====
-- What the dashboard shows, and in which order.
use mathlib.Core.List.{Perm}
use air_cover.Base.{◌≡◌, Bool, not, some, List, ◌++◌, map, reverse, filter_by}
use air_cover.Base.Sort.{IsOrdered}
use air_cover.Errors.{ok, Exec}
use air_cover.Domain.{SubRequest, Time, before}
use air_cover.SubRequests.Ports.{Show, ReadModel, Detail, Dashboard, Service}
use air_cover.SubRequests.Shows.{title_less}

abbrev pub requests_of : List Detail → List SubRequest
requests_of items = map (λ (d : Detail). d.request) items

abbrev pub has_started : Time → SubRequest → Bool
has_started now sr = before sr.start_time now

abbrev pub started : Time → List ReadModel → List SubRequest
started now records = filter_by (has_started now) (map (λ (m : ReadModel). m.request) records)

abbrev pub to_come : Time → List ReadModel → List SubRequest
to_come now records =
    filter_by (λ sr. not (has_started now sr)) (map (λ (m : ReadModel). m.request) records)

module _ {W : Type 0} (s : Service W) where
  -- What the loop over the records adds to the two slices.
  abbrev Splits :
      Time → List ReadModel → List Detail → List Detail → List Detail × List Detail → Type 0
  Splits now records upcoming past (u, p) =
      (requests_of u ≡ requests_of upcoming ++ to_come now records)
      × (requests_of p ≡ requests_of past ++ started now records)

  -- What a dashboard made from `w` consists of: the shows that the catalog lists, the requests that
  -- the repository lists after that, and the clock's answer after that.
  pub record Lists (w : W) (d : Dashboard) : Type 0 where
    pub shows : Exec W (List Show)
    pub configured : s.catalog ≡ some shows
    pub unsorted : List Show
    pub listed : (shows w).0 ≡ ok unsorted
    pub all_shows : Perm d.shows unsorted
    pub ordered : IsOrdered title_less d.shows
    pub records : List ReadModel
    pub found : (s.repo.list_dashboard_sub_requests (shows w).1).0 ≡ ok records
    pub now : Time
    pub told : now ≡ (s.now_func (s.repo.list_dashboard_sub_requests (shows w).1).1).0
    pub upcoming : requests_of d.upcoming ≡ to_come now records
    pub past : requests_of d.past ≡ reverse (started now records)
