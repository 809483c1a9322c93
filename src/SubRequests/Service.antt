-- ===== src/SubRequests/Service.antt =====
-- internal/app/subrequests/service.go, method by method. What goes to the log only is left out.
use air_cover.Base.{
  ℕ, ℤ, pos, String, len, Bool, not, ◌||◌, Option, none, some, List, ◌<>◌, if◌then◌else◌, ltb,
  ltb_ℤ, string_eq, int_eq, of_int,
}
use air_cover.Errors.{
  Error, sentinel, wrap, invalid, not_found, conflict, catalog_failed, is, message, Result, ok, err,
  fail, Exec, pure, lift, map_error, ◌>>=◌, ◌>>◌,
}
use air_cover.Domain.{SubRequest, CurrentUser, Time, after}
use air_cover.Authorization.{
  subject_from_current_user, sub_request_resource, action_sub_request_delete,
}
use air_cover.SubRequests.Ports.{Show, CreateInput, Notifier, Service, clock}
use air_cover.SubRequests.Shows.{show_titles_by_id, show_title, show_exists}

abbrev pub max_create_notes_length : ℕ
max_create_notes_length = 1000

-- `mapRepositoryError`
unfoldable pub map_repository_error : Error → Error
map_repository_error e =
    if is e not_found then sentinel not_found else if is e conflict then sentinel conflict else e

-- `fmt.Errorf("%w: %v", ErrCatalog, err)`
abbrev pub catalog_error : Error → Error
catalog_error e = wrap "" (sentinel catalog_failed) (": " <> message e)

unfoldable pub detail_path : SubRequest → String
detail_path sr = "/sub-requests/" <> of_int sr.id

abbrev pub or_unknown : Result String → Result String
or_unknown (ok title) = ok title
or_unknown (err _) = ok "Unknown Show"

-- The `switch` of `validateCreateInput`: the tests that need no catalog.
abbrev pub is_bad_input : CreateInput → Time → Bool
is_bad_input input now =
    not (ltb_ℤ (pos 0) input.show_id)
    || not (after input.start_time now)
    || not (after input.end_time input.start_time)
    || ltb max_create_notes_length (len input.notes)

-- The request that `Create` fills in.
abbrev pub new_sub_request : CurrentUser → CreateInput → Time → SubRequest
new_sub_request viewer input now = record {
  id = pos 0;
  show_id = input.show_id;
  posted_by_user_id = viewer.id;
  taken_by_user_id = none;
  substitute_id = none;
  start_time = input.start_time;
  end_time = input.end_time;
  notes = input.notes;
  created_at = now;
  updated_at = now;
}

-- A notification that cannot be queued is logged.
unfoldable pub log_error : {W : Type 0} → Exec W (Unit {0}) → Exec W (Unit {0})
log_error m w = (ok tt, (m w).1)

module _ {W : Type 0} (s : Service W) where
  -- `s.authorize`
  abbrev pub authorize : CurrentUser → String → SubRequest → Exec W (Unit {0})
  authorize viewer action sr =
      s.authorizer (subject_from_current_user viewer) action (sub_request_resource (some sr))

  unfoldable pub title_from : ℤ → Option (Exec W (List Show)) → Exec W String
  title_from id none = pure "Unknown Show"
  title_from id (some list_shows) = do
    shows ← map_error catalog_error list_shows
    pure (show_title (show_titles_by_id shows) id)

  -- `showTitleFor`
  unfoldable pub show_title_for : ℤ → Exec W String
  show_title_for id = title_from id s.catalog

  -- A title for a notification: a failure is logged and replaced.
  unfoldable pub title_or_unknown : ℤ → Exec W String
  title_or_unknown id w = let (r, w') = show_title_for id w in (or_unknown r, w')

  unfoldable pub send_created : CurrentUser → SubRequest → Option (Notifier W) → Exec W (Unit {0})
  send_created viewer sr none = pure tt
  send_created viewer sr (some notifier) = do
    title ← title_or_unknown sr.show_id
    log_error (
        notifier.sub_request_created (record {
          request = sr;
          requester_email = viewer.email;
          show_title = title;
          detail_path = detail_path sr;
        }))

  -- `notifySubRequestCreated`
  unfoldable pub notify_sub_request_created : CurrentUser → SubRequest → Exec W (Unit {0})
  notify_sub_request_created viewer sr = send_created viewer sr s.notifier

  unfoldable pub check_show : CreateInput → Option (Exec W (List Show)) → Exec W (Unit {0})
  check_show input none = pure tt
  check_show input (some list_shows) = do
    shows ← map_error catalog_error list_shows
    lift (if show_exists shows input.show_id then ok tt else fail invalid)

  -- `validateCreateInput`
  unfoldable pub validate_create_input : CreateInput → Exec W (Unit {0})
  validate_create_input input = do
    now ← clock s
    lift (if is_bad_input input now then fail invalid else ok tt)
    check_show input s.catalog

  -- `Create`
  unfoldable pub create : CurrentUser → CreateInput → Exec W (Unit {0})
  create viewer input = do
    validate_create_input input
    now ← clock s
    sr ←
        map_error map_repository_error
          (s.repo.create_sub_request (new_sub_request viewer input now))
    notify_sub_request_created viewer sr

  -- `Delete`
  unfoldable pub delete : CurrentUser → ℤ → Exec W (Unit {0})
  delete viewer id = do
    sr ← map_error map_repository_error (s.repo.get_sub_request_by_id id)
    authorize viewer action_sub_request_delete sr
    map_error map_repository_error (s.repo.delete_sub_request id)
