-- ===== src/Http/Outcomes.antt =====
-- What the status of a response says about the requests that are stored.
use air_cover.Base.{
  ℕ, ℤ, String, ◌≡◌, refl, ◌∙◌, ap, ◌⊎◌, inl, inr, Option, none, some, Bool-cases, ◌==◌, string_eq,
  int_eq,
}
use air_cover.Errors.{
  Sentinel, invalid, not_found, conflict, forbidden, catalog_failed, invalid_magic_link,
  user_already_exists, no_catalog_source, Error, sentinel, opaque, wrap, is, Result, Done, ok, err,
}
use air_cover.Domain.{CurrentUser, SubRequest, Time}
use air_cover.SubRequests.Ports.{Service, action_take, action_untake}
use air_cover.SubRequests.Spec.{
  Row, Store, at_row, settle, IsOther, Landed, RepositoryContract, Environment, use_action,
  use_take, use_untake, take_if_open, untake_if_taker,
}
use air_cover.SubRequests.Refinement.UseCases.{apply_action-lands}
use air_cover.Http.Message.{
  Request, Context, Reply, page, text_error, json_error, redirect, json_message, text_reply,
  empty_reply, Response, plain, empty, answer, respond, good,
}
use air_cover.Http.Errors.{write_http_error, write_app_error, app_error_or, wants_json_error}
use air_cover.Http.AuthHandler.{user_from_context, require_current_user-some}
use air_cover.Http.SubRequestHandlers.{error_response, parse_action, patch_sub_requests_id}
use air_cover.Http.Services.{sub_requests_of}

abbrev status_of_reply : Reply → ℕ
status_of_reply (page p) = 200
status_of_reply (text_error status m) = status
status_of_reply (json_error status m) = status
status_of_reply (redirect status url) = status
status_of_reply (json_message m) = 200
status_of_reply (text_reply status m) = status
status_of_reply (empty_reply status) = status

abbrev status_of : Response → ℕ
status_of response = status_of_reply response.reply

-- The status that stands for each error of the application.
abbrev status_for : Error → ℕ
status_for (sentinel invalid) = 400
status_for (sentinel not_found) = 404
status_for (sentinel conflict) = 409
status_for (sentinel forbidden) = 403
status_for _ = 500

-- The status that a transition of a row is answered with.
abbrev status_of_row : Result Row → ℕ
status_of_row (ok row) = 204
status_of_row (err e) = status_for e

written_status :
    (r : Request) (status : ℕ) (m : String) → status_of (write_http_error r status m) ≡ status
unfolding write_http_error
written_status r status m = elim (Bool-cases (wants_json_error r)) [
  | inl e ↦ rw e refl
  | inr e ↦ rw e refl
]

sentinel_status :
    (r : Request) (s : Sentinel)
    → status_of (error_response r (sentinel s)) ≡ status_for (sentinel s)
unfolding error_response app_error_or write_app_error is
sentinel_status r invalid = written_status r 400 "Invalid request"
sentinel_status r not_found = written_status r 404 "Not found"
sentinel_status r conflict = written_status r 409 "Conflict"
sentinel_status r forbidden = written_status r 403 "Forbidden"
sentinel_status r catalog_failed = refl
sentinel_status r invalid_magic_link = refl
sentinel_status r user_already_exists = refl
sentinel_status r no_catalog_source = refl

other_status : (r : Request) (e : Error) → IsOther e → status_of (error_response r e) ≡ 500
unfolding error_response app_error_or write_app_error
other_status r e h = rw (h.at not_found, h.at conflict, h.at forbidden, h.at invalid) refl

-- A transition whose errors are all the application's own.
abbrev IsPlain : Result Row → Type 0
IsPlain (ok row) = Unit
IsPlain (err (sentinel s)) = Unit
IsPlain (err _) = ⊥

take-IsPlain :
    (viewer : CurrentUser) (t : Time) (sr : SubRequest) (taker : Option ℤ)
    → IsPlain (take_if_open viewer t sr taker)
take-IsPlain viewer t sr (some taker) = tt
take-IsPlain viewer t sr none = elim (Bool-cases (sr.posted_by_user_id == viewer.id)) [
  | inl e ↦ rw e tt
  | inr e ↦ rw e tt
]

untake-IsPlain :
    (viewer : CurrentUser) (t : Time) (sr : SubRequest) (taker : Option ℤ)
    → IsPlain (untake_if_taker viewer t sr taker)
untake-IsPlain viewer t sr none = tt
untake-IsPlain viewer t sr (some taker) = elim (Bool-cases (taker == viewer.id)) [
  | inl e ↦ rw e tt
  | inr e ↦ rw e tt
]

use_take-IsPlain : (viewer : CurrentUser) (t : Time) (row : Row) → IsPlain (use_take viewer t row)
unfolding use_take
use_take-IsPlain viewer t none = tt
use_take-IsPlain viewer t (some sr) = take-IsPlain viewer t sr sr.taken_by_user_id

use_untake-IsPlain :
    (viewer : CurrentUser) (t : Time) (row : Row) → IsPlain (use_untake viewer t row)
unfolding use_untake
use_untake-IsPlain viewer t none = tt
use_untake-IsPlain viewer t (some sr) = untake-IsPlain viewer t sr sr.taken_by_user_id

use_action-IsPlain :
    (viewer : CurrentUser) (action : String) (t : Time) (row : Row)
    → IsPlain (use_action viewer action t row)
unfolding use_action
use_action-IsPlain viewer action t row = elim (Bool-cases (action == action_take)) [
  | inl e ↦ rw e (use_take-IsPlain viewer t row)
  | inr e ↦ elim (Bool-cases (action == action_untake)) [
    | inl f ↦ rw (e, f) (use_untake-IsPlain viewer t row)
    | inr f ↦ rw (e, f) tt
  ]
]

module _ {W : Type 0} (view : W → Store) (IsFault : W → Error → Type 0) where
  -- The response's status is that of the transition, which the rows went through; or a call in `bad`
  -- failed, it is 500 and no row has changed.
  abbrev pub Answered : ℤ → (Row → Result Row) → Store → (Error → Type 0) → Response × W → Type 0
  Answered id f st bad p =
      ((status_of p.0 ≡ status_of_row (f (st id))) × (view p.1 ≡ (at_row id f st).1))
      ⊎ ((status_of p.0 ≡ 500) × ((e : Error) × bad e) × (view p.1 ≡ st))

  landed-status :
      (r : Request) (id : ℤ) (row : Result Row) (st : Store)
      → IsPlain row
      → status_of (answer (error_response r) (λ d. empty 204) (settle id row st).0)
        ≡ status_of_row row
  landed-status r id (ok row) st plain = refl
  landed-status r id (err (sentinel s)) st plain = sentinel_status r s
  landed-status r id (err (opaque t)) st plain = absurd plain
  landed-status r id (err (wrap a e b)) st plain = absurd plain

  respond-Answered :
      (r : Request) (id : ℤ) (f : Row → Result Row) (m : W → Done × W) (w : W)
      → IsPlain (f (view w id))
      → Landed view IsFault id f (view w) (IsFault w) (m w)
      → Answered id f (view w) (IsFault w) (respond m (error_response r) (λ d. empty 204) w)
  unfolding respond
  respond-Answered r id f m w plain (inl (e, v)) = inl (
    ap (λ x. status_of (answer (error_response r) (λ d. empty 204) x)) e
        ∙ landed-status r id (f (view w id)) (view w) plain,
    v,
  )
  respond-Answered r id f m w plain (inr ((x, e, other, b), v)) = inr (
    ap (λ x. status_of (answer (error_response r) (λ d. empty 204) x)) e ∙ other_status r x other,
    (x, b),
    v,
  )

  module _ (s : Service W) (contract : RepositoryContract view IsFault s.repo)
      (env : Environment view IsFault s) where
    -- A PATCH of a request with a readable action by a signed-in user is answered 204 exactly when
    -- the action took effect on that row, and else 400 for an unknown action, 404 for a missing
    -- request, 409 for one that is taken and 403 for one that the viewer may not take or give back,
    -- with nothing changed; only where a call of the database or the authorizer was to fail may it
    -- also be answered 500, and then nothing has changed.
    pub patch-Answered :
        (id : ℤ) (c : Context) (r : Request) (w : W) (action : String) (viewer : CurrentUser)
        → parse_action r ≡ good action
        → user_from_context c ≡ some viewer
        → (t : Time) × Answered id
            (use_action viewer action t)
            (view w)
            (IsFault w)
            (patch_sub_requests_id (sub_requests_of s) id c r w)
    unfolding patch_sub_requests_id
    patch-Answered id c r w action viewer parsed signed =
        let (t, lands) = apply_action-lands view IsFault s contract env viewer id action w in
        (
          t,
          rw (parsed, require_current_user-some c viewer signed)
              (respond-Answered r id (use_action viewer action t) _ w
                (use_action-IsPlain viewer action t (view w id)) lands),
        )
