-- ===== src/SubRequests/Spec.antt =====
-- What internal/app/subrequests promises, without its world: each use case is a transition of one
-- row, the request under an identifier or none, into an error or the row that it leaves. The
-- interface to the repository says that its methods are such transitions, and the interface to
-- the rest of the world that nothing else touches the rows.
use air_cover.Base.{
  ℤ, String, ◌≡◌, ◌⊎◌, Bool, false, ◌||◌, Option, none, some, List, ◌==◌, if◌then◌else◌, string_eq,
  int_eq,
}
use air_cover.Errors.{
  Error, Sentinel, invalid, not_found, conflict, forbidden, is, Result, Done, ok, err, fail, Exec,
}
use air_cover.Domain.{SubRequest, CurrentUser, Time, role_admin}
use air_cover.Authorization
use air_cover.Authorization.{
  Subject, Resource, subject_from_current_user, sub_request_resource, allowed,
  action_sub_request_delete, action_sub_request_take, action_sub_request_untake,
}
use air_cover.SubRequests.Ports.{
  Show, CreatedEvent, TakenEvent, UntakenEvent, action_take, action_untake, Repository, Notifier,
  Service,
}

abbrev pub Row : Type 0
Row = Option SubRequest

abbrev pub Store : Type 0
Store = ℤ → Row

abbrev pub put_at : ℤ → Row → Store → Store
put_at id v st j = if j == id then v else st j

abbrev pub settle : ℤ → Result Row → Store → Done × Store
settle id (ok v) st = (ok tt, put_at id v st)
settle id (err e) st = (err e, st)

-- A transition at one identifier.
abbrev pub at_row : ℤ → (Row → Result Row) → Store → Done × Store
at_row id f st = settle id (f (st id)) st

abbrev pub found : Row → Result SubRequest
found none = fail not_found
found (some sr) = ok sr

abbrev pub row_delete : Row → Result Row
row_delete none = fail not_found
row_delete (some sr) = ok none

abbrev pub taken_by : ℤ → Time → SubRequest → SubRequest
taken_by user t sr = record sr { taken_by_user_id = some user; updated_at = t }

abbrev pub untaken : Time → SubRequest → SubRequest
untaken t sr = record sr { taken_by_user_id = none; updated_at = t }

abbrev pub take_open : ℤ → Time → SubRequest → Option ℤ → Result Row
take_open user t sr none = ok (some (taken_by user t sr))
take_open user t sr (some _) = fail conflict

-- Only an open request is taken.
abbrev pub row_take : ℤ → Time → Row → Result Row
row_take user t none = fail not_found
row_take user t (some sr) = take_open user t sr sr.taken_by_user_id

abbrev pub untake_taken : ℤ → Time → SubRequest → Option ℤ → Result Row
untake_taken user t sr none = fail conflict
untake_taken user t sr (some taker) =
    if taker == user then ok (some (untaken t sr)) else fail conflict

-- Only the taker gives a request back.
abbrev pub row_untake : ℤ → Time → Row → Result Row
row_untake user t none = fail not_found
row_untake user t (some sr) = untake_taken user t sr sr.taken_by_user_id

-- An error that is none of the program's own.
pub record IsOther (e : Error) : Type 0 where
  pub at : (s : Sentinel) → is e s ≡ false

-- A failure with one of the errors in `bad`, which are those of the calls that the program makes of
-- others.
abbrev pub IsBroken : {A : Type 0} → (Error → Type 0) → Result A → Type 0
IsBroken bad r = (e : Error) × (r ≡ err e) × IsOther e × bad e

-- The row that a new request becomes: the table has no column for the substitute.
abbrev pub stored : ℤ → SubRequest → SubRequest
stored id sr = record sr { id = id; substitute_id = none }

-- `IsFault w` holds of the errors with which the database, the authorizer, the catalog or the notifier
-- can fail from `w` on: none where all of them work.
module _ {W : Type 0} (view : W → Store) (IsFault : W → Error → Type 0) where
  -- The call leaves the rows alone, and fails later calls for no new reason.
  pub record Keeps {A : Type 0} (m : Exec W A) : Type 0 where
    pub at : (w : W) → view (m w).1 ≡ view w
    pub pending : (w : W) (e : Error) → IsFault (m w).1 e → IsFault w e

  -- The rows are those from before, and what can fail could fail before.
  abbrev pub Still : Store → (Error → Type 0) → W → Type 0
  Still st bad w = (view w ≡ st) × ((e : Error) → IsFault w e → bad e)

  -- From these rows the outcome is that of the transition, or it is a failure of one of the calls
  -- in `bad` that changes no row.
  abbrev pub Landed : ℤ → (Row → Result Row) → Store → (Error → Type 0) → Done × W → Type 0
  Landed id f st bad p =
      ((p.0 ≡ (at_row id f st).0) × (view p.1 ≡ (at_row id f st).1))
      ⊎ (IsBroken bad p.0 × (view p.1 ≡ st))

  -- The call is the transition, up to the failures pending where it starts.
  pub record Realises (id : ℤ) (f : Row → Result Row) (m : Exec W (Unit {0})) : Type 0 where
    pub at : (w : W) → Landed id f (view w) (IsFault w) (m w)

  pub record RepositoryContract (repo : Repository W) : Type 0 where
    pub get_lem :
        (id : ℤ) (w : W)
        → ((repo.get_sub_request_by_id id w).0 ≡ found (view w id))
          ⊎ IsBroken (IsFault w) (repo.get_sub_request_by_id id w).0
    pub get_keeps : (id : ℤ) → Keeps (repo.get_sub_request_by_id id)
    pub detail_keeps : (id : ℤ) → Keeps (repo.get_sub_request_detail_by_id id)
    pub delete_lem : (id : ℤ) → Realises id row_delete (repo.delete_sub_request id)
    pub take_lem :
        (id user : ℤ) (t : Time) → Realises id (row_take user t) (repo.take_sub_request id user t)
    pub untake_lem :
        (id user : ℤ) (t : Time)
        → Realises id (row_untake user t) (repo.untake_sub_request id user t)
    pub create_lem :
        (sr : SubRequest) (w : W)
        → ((id : ℤ) × (view w id ≡ none)
            × ((repo.create_sub_request sr w).0 ≡ ok (record sr { id = id }))
            × (view (repo.create_sub_request sr w).1 ≡ put_at id (some (stored id sr)) (view w)))
          ⊎ (IsBroken (IsFault w) (repo.create_sub_request sr w).0
              × (view (repo.create_sub_request sr w).1 ≡ view w))

  -- The catalog, the notifier, the clock and the authorizer do not write requests; the authorizer
  -- answers like the parity authorizer or fails with an error that was pending.
  pub record Environment (s : Service W) : Type 0 where
    pub clock_keeps : (w : W) → view (s.now_func w).1 ≡ view w
    pub clock_pending : (w : W) (e : Error) → IsFault (s.now_func w).1 e → IsFault w e
    pub catalog_keeps :
        (list_shows : Exec W (List Show)) → s.catalog ≡ some list_shows → Keeps list_shows
    pub created_keeps :
        (n : Notifier W) (e : CreatedEvent) → s.notifier ≡ some n → Keeps (n.sub_request_created e)
    pub taken_keeps :
        (n : Notifier W) (e : TakenEvent) → s.notifier ≡ some n → Keeps (n.sub_request_taken e)
    pub untaken_keeps :
        (n : Notifier W) (e : UntakenEvent) → s.notifier ≡ some n → Keeps (n.sub_request_untaken e)
    pub authorizer_keeps :
        (subject : Subject) (action : String) (r : Resource) → Keeps (s.authorizer subject action r)
    pub authorizer_lem :
        (subject : Subject) (action : String) (r : Resource) (w : W)
        → ((s.authorizer subject action r w).0 ≡ Authorization.authorize subject action r)
          ⊎ IsBroken (IsFault w) (s.authorizer subject action r w).0

-- The use cases. A request is deleted by its owner or an administrator.
abbrev pub may_delete : CurrentUser → SubRequest → Bool
may_delete viewer sr = sr.posted_by_user_id == viewer.id || viewer.role == role_admin

unfoldable pub use_delete : CurrentUser → Row → Result Row
use_delete viewer none = fail not_found
use_delete viewer (some sr) = if may_delete viewer sr then ok none else fail forbidden

abbrev pub take_if_open : CurrentUser → Time → SubRequest → Option ℤ → Result Row
take_if_open viewer t sr (some _) = fail conflict
take_if_open viewer t sr none =
    if sr.posted_by_user_id == viewer.id
    then fail forbidden
    else ok (some (taken_by viewer.id t sr))

abbrev pub untake_if_taker : CurrentUser → Time → SubRequest → Option ℤ → Result Row
untake_if_taker viewer t sr none = fail forbidden
untake_if_taker viewer t sr (some taker) =
    if taker == viewer.id then ok (some (untaken t sr)) else fail forbidden

-- An open request of somebody else is taken.
unfoldable pub use_take : CurrentUser → Time → Row → Result Row
use_take viewer t none = fail not_found
use_take viewer t (some sr) = take_if_open viewer t sr sr.taken_by_user_id

-- A request is given back by its taker.
unfoldable pub use_untake : CurrentUser → Time → Row → Result Row
use_untake viewer t none = fail not_found
use_untake viewer t (some sr) = untake_if_taker viewer t sr sr.taken_by_user_id

-- `ApplyAction` by the name of the action.
unfoldable pub use_action : CurrentUser → String → Time → Row → Result Row
unfolding use_take use_untake
use_action viewer action t row =
    if action == action_take
    then use_take viewer t row
    else if action == action_untake
    then use_untake viewer t row
    else fail invalid
