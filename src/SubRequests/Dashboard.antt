-- ===== src/SubRequests/Dashboard.antt =====
-- The two reading use cases of internal/app/subrequests/service.go.
use air_cover.Base.{
  ℤ, String, Bool, true, false, Option, none, some, List, [], ◌∷◌, ◌++◌, reverse, ◌<>◌,
  if◌then◌else◌,
}
use air_cover.Errors.{
  forbidden, sentinel, catalog_failed, wrap, is, Result, ok, err, Exec, pure, raise, map_error,
  ◌>>=◌,
}
use air_cover.Domain.{SubRequest, CurrentUser, Time, before}
use air_cover.Authorization.{
  action_sub_request_delete, action_sub_request_take, action_sub_request_untake,
}
use air_cover.SubRequests.Ports.{Show, ReadModel, Detail, Dashboard, Capabilities, Service, clock}
use air_cover.SubRequests.Shows.{TitleMap, show_titles_by_id, show_title, sort_shows}
use air_cover.SubRequests.Service.{map_repository_error, catalog_error, authorize, show_title_for}

-- What `can` makes of the authorizer's answer.
abbrev pub granted : String → Result (Unit {0}) → Result Bool
granted action (ok _) = ok true
granted action (err e) =
    if is e forbidden
    then ok false
    else err (wrap ("check sub request capability " <> action <> ": ") e "")

module _ {W : Type 0} (s : Service W) where
  -- `can`
  unfoldable pub can : CurrentUser → String → SubRequest → Exec W Bool
  can viewer action sr w = let (r, w') = authorize s viewer action sr w in (granted action r, w')

  unfoldable pub can_take : CurrentUser → SubRequest → Option ℤ → Exec W Bool
  can_take viewer sr none = can viewer action_sub_request_take sr
  can_take viewer sr (some _) = pure false

  -- `capabilitiesFor`
  unfoldable pub capabilities_for : CurrentUser → SubRequest → Exec W Capabilities
  capabilities_for viewer sr = do
    deletes ← can viewer action_sub_request_delete sr
    takes ← can_take viewer sr sr.taken_by_user_id
    untakes ← can viewer action_sub_request_untake sr
    pure (record { can_delete = deletes; can_take = takes; can_untake = untakes })

  abbrev pub detail_of : ReadModel → String → Capabilities → Time → Detail
  detail_of m title c now = record {
    request = m.request;
    requester_email = m.requester_email;
    taker_email = m.taker_email;
    show_title = title;
    can_delete = c.can_delete;
    can_take = c.can_take;
    can_untake = c.can_untake;
    is_past = before m.request.start_time now;
  }

  -- The loop of `ListDashboard`: each record joins one of the two slices.
  unfoldable pub partition :
      CurrentUser
      → TitleMap
      → Time
      → List ReadModel
      → List Detail
      → List Detail
      → Exec W (List Detail × List Detail)
  partition viewer titles now [] upcoming past = pure (upcoming, past)
  partition viewer titles now (m ∷ records) upcoming past =
      capabilities_for viewer m.request >>= λ c.
      let item = detail_of m (show_title titles m.request.show_id) c now in
      elim item.is_past [
        | true ↦ partition viewer titles now records upcoming (past ++ item ∷ [])
        | false ↦ partition viewer titles now records (upcoming ++ item ∷ []) past
      ]

  -- The catalog's shows; without a catalog the dashboard fails.
  unfoldable pub list_shows : Option (Exec W (List Show)) → Exec W (List Show)
  list_shows none = raise (wrap "" (sentinel catalog_failed) ": show catalog is not configured")
  list_shows (some shows) = map_error catalog_error shows

  -- `ListDashboard`. The loop at its end that swaps the ends of `past` is its reversal.
  unfoldable pub list_dashboard : CurrentUser → Exec W Dashboard
  list_dashboard viewer = do
    unsorted ← list_shows s.catalog
    let shows = sort_shows unsorted
    records ← s.repo.list_dashboard_sub_requests
    now ← clock s
    parts ← partition viewer (show_titles_by_id shows) now records [] []
    pure (record { shows = shows; upcoming = parts.0; past = reverse parts.1 })

  -- `Get`
  unfoldable pub get : CurrentUser → ℤ → Exec W Detail
  get viewer id = do
    m ← map_error map_repository_error (s.repo.get_sub_request_detail_by_id id)
    title ← show_title_for s m.request.show_id
    c ← capabilities_for viewer m.request
    now ← clock s
    pure (detail_of m title c now)
