-- ===== src/SubRequests/Refinement/Creation.antt =====
-- `Create`: what it refuses, and the one row that it adds.
use air_cover.Base.{
  ℤ, pos, len, ◌≡◌, refl, sym, ◌∙◌, ap, ◌⊎◌, inl, inr, true, false, Option, none, some, List, ◌≤◌,
  ◌<◌, ◌<ℤ◌, arith, Bool-cases,
}
use air_cover.Errors.{
  Error, invalid, sentinel, Result, Done, ok, err, fail, Exec, continue, on_error, ◌>>=◌, map_error,
}
use air_cover.Domain.{SubRequest, CurrentUser, Time}
use air_cover.SubRequests.Ports.{Show, CreateInput, Notifier, Service, clock}
use air_cover.SubRequests.Service.{
  map_repository_error, catalog_error, is_bad_input, check_show, validate_create_input,
  new_sub_request, create, send_created, notify_sub_request_created, log_error,
}
use air_cover.SubRequests.Shows.{show_exists}
use air_cover.SubRequests.Spec.{
  Store, put_at, stored, IsBroken, Keeps, RepositoryContract, Environment,
}
use air_cover.SubRequests.Refinement.Frame.{
  clock-Keeps, notify_created-Keeps, Keeps-pure, Keeps-bind, Keeps-lift, Keeps-map_error,
}
use air_cover.SubRequests.Refinement.Rules.{map_repository_error-other}
use air_cover.SubRequests.Refinement.Returns.{title_or_unknown-ok}

-- An input that a request can be made of at `now`: a show with a positive number, a start that is
-- still ahead, an end after the start, and notes of at most 1000 bytes.
pub record IsAcceptable (input : CreateInput) (now : Time) : Type 0 where
  pub show : pos 0 <ℤ input.show_id
  pub ahead : now < input.start_time
  pub ranged : input.start_time < input.end_time
  pub short : len input.notes ≤ 1000

is_bad_input-false :
    (input : CreateInput) (now : Time) → is_bad_input input now ≡ false → IsAcceptable input now
is_bad_input-false input now h = record {
  show = ground arith;
  ahead = ground arith;
  ranged = ground arith;
  short = ground arith;
}

is_bad_input-true :
    (input : CreateInput) (now : Time) → is_bad_input input now ≡ true → IsAcceptable input now → ⊥
is_bad_input-true input now h good = ground (arith, good.show, good.ahead, good.ranged, good.short)

-- The row of a new request.
abbrev pub posted : CurrentUser → CreateInput → ℤ → Time → SubRequest
posted viewer input id t = record {
  id = id;
  show_id = input.show_id;
  posted_by_user_id = viewer.id;
  taken_by_user_id = none;
  substitute_id = none;
  start_time = input.start_time;
  end_time = input.end_time;
  notes = input.notes;
  created_at = t;
  updated_at = t;
}

-- What the catalog, if there is one, says against a show: its list cannot be read, or the show is
-- not on it.
abbrev pub CatalogRefuses :
    {W : Type 0} → Option (Exec W (List Show)) → CreateInput → W → Error → Type 0
CatalogRefuses {W} catalog input w e =
    (list_shows : Exec W (List Show)) × (catalog ≡ some list_shows)
    × (((x : Error) × ((list_shows w).0 ≡ err x) × (e ≡ catalog_error x))
        ⊎ ((shows : List Show) × ((list_shows w).0 ≡ ok shows)
            × (show_exists shows input.show_id ≡ false)
            × (e ≡ sentinel invalid)))

module _ {W : Type 0} (view : W → Store) (IsFault : W → Error → Type 0) (s : Service W) where
  -- The requests are those from before and a new one under an identifier that was free, with the
  -- input's show, times and notes, the viewer as its owner, no taker, and both stamps at a time
  -- that the clock told.
  pub record Added (viewer : CurrentUser) (input : CreateInput) (w w' : W) : Type 0 where
    pub id : ℤ
    pub stamp : Time
    pub told : (u : W) × (stamp ≡ (s.now_func u).0)
    pub fresh : view w id ≡ none
    pub added : view w' ≡ put_at id (some (posted viewer input id stamp)) (view w)

  -- Why `Create` refuses: the input is not acceptable at the instant that it reads first, the
  -- catalog refuses the show, or the database fails.
  abbrev pub Refusal : CreateInput → W → Error → Type 0
  Refusal input w e =
      ((IsAcceptable input (s.now_func w).0 → ⊥) × (e ≡ sentinel invalid))
      ⊎ (CatalogRefuses s.catalog input (s.now_func w).1 e ⊎ IsFault w e)

  -- What `Create` did from `w`.
  abbrev pub Created : CurrentUser → CreateInput → W → Done × W → Type 0
  Created viewer input w p =
      ((p.0 ≡ ok tt) × IsAcceptable input (s.now_func w).0 × Added viewer input w p.1)
      ⊎ ((e : Error) × (p.0 ≡ err e) × Refusal input w e × (view p.1 ≡ view w))

check_show-cases :
    {W : Type 0} (s : Service W) (input : CreateInput) (c : Option (Exec W (List Show))) (w : W)
    → ((check_show s input c w).0 ≡ ok tt)
      ⊎ ((e : Error) × ((check_show s input c w).0 ≡ err e) × CatalogRefuses c input w e)
unfolding check_show ◌>>=◌ map_error
check_show-cases s input none w = inl refl
check_show-cases {W} s input (some list_shows) w = listed (list_shows w).0 refl
  where
    Outcome : Type 0
    Outcome =
        ((check_show s input (some list_shows) w).0 ≡ ok tt)
        ⊎ ((e : Error) × ((check_show s input (some list_shows) w).0 ≡ err e)
            × CatalogRefuses (some list_shows) input w e)

    listed : (r : Result (List Show)) → (list_shows w).0 ≡ r → Outcome
    listed (err x) h = inr (catalog_error x, rw h, (list_shows, refl, inl (x, h, refl)))
    listed (ok shows) h = elim (Bool-cases (show_exists shows input.show_id)) [
      | inl e ↦ inl (rw (h, e))
      | inr e ↦ inr (sentinel invalid, rw (h, e), (list_shows, refl, inr (shows, h, e, refl)))
    ]

module _ {W : Type 0} (view : W → Store) (IsFault : W → Error → Type 0) (s : Service W)
    (contract : RepositoryContract view IsFault s.repo) (env : Environment view IsFault s) where
  check_show-Keeps :
      (input : CreateInput) (c : Option (Exec W (List Show)))
      → s.catalog ≡ c
      → Keeps view IsFault (check_show s input c)
  unfolding check_show
  check_show-Keeps input none e = Keeps-pure tt
  check_show-Keeps input (some shows) e =
      Keeps-bind _ _ (Keeps-map_error _ shows (env.catalog_keeps shows e)) (λ l. Keeps-lift _)

  send_created-ok :
      (viewer : CurrentUser) (sr : SubRequest) (n : Option (Notifier W)) (w : W)
      → (send_created s viewer sr n w).0 ≡ ok tt
  unfolding send_created log_error ◌>>=◌
  send_created-ok viewer sr none w = refl
  send_created-ok viewer sr (some n) w = let (title, e) = title_or_unknown-ok s sr.show_id w in rw e

  notify_created-ok :
      (viewer : CurrentUser) (sr : SubRequest) (w : W)
      → (notify_sub_request_created s viewer sr w).0 ≡ ok tt
  unfolding notify_sub_request_created
  notify_created-ok viewer sr w = send_created-ok viewer sr s.notifier w

  -- `Create` refuses an input that is not acceptable at the instant it reads: a show that is not
  -- positive, a start that is not ahead, an end that is not after the start, or notes of more than
  -- 1000 bytes; it answers with the invalid error, whatever the catalog and the database would
  -- say, and changes no request.
  pub create-invalid :
      (viewer : CurrentUser) (input : CreateInput) (w : W)
      → (IsAcceptable input (s.now_func w).0 → ⊥)
      → ((create s viewer input w).0 ≡ fail invalid) × (view (create s viewer input w).1 ≡ view w)
  unfolding create validate_create_input clock ◌>>=◌
  create-invalid viewer input w bad = elim (Bool-cases (is_bad_input input (s.now_func w).0)) [
    | inl e ↦ refused e
    | inr e ↦ absurd (bad (is_bad_input-false input _ e))
  ]
    where
      refused :
          is_bad_input input (s.now_func w).0 ≡ true
          → ((create s viewer input w).0 ≡ fail invalid)
            × (view (create s viewer input w).1 ≡ view w)
      refused e = rw e (refl, env.clock_keeps w)

  validate-cases :
      (input : CreateInput) (w : W)
      → (((validate_create_input s input w).0 ≡ ok tt) × IsAcceptable input (s.now_func w).0)
        ⊎ ((e : Error) × ((validate_create_input s input w).0 ≡ err e)
            × Refusal view IsFault s input w e)
  unfolding validate_create_input clock ◌>>=◌
  validate-cases input w = elim (Bool-cases (is_bad_input input (s.now_func w).0)) [
    | inl e ↦ inr (sentinel invalid, rw e, inl (is_bad_input-true input _ e, refl))
    | inr e ↦ elim (check_show-cases s input s.catalog (s.now_func w).1) [
      | inl h ↦ inl (rw (e, h), is_bad_input-false input _ e)
      | inr (x, h, why) ↦ inr (x, rw (e, h), inr (inl why))
    ]
  ]

  validate-Keeps : (input : CreateInput) → Keeps view IsFault (validate_create_input s input)
  unfolding validate_create_input
  validate-Keeps input =
      Keeps-bind _ _ (clock-Keeps view IsFault s contract env)
        λ now. Keeps-bind _ _ (Keeps-lift _) (λ _. check_show-Keeps input s.catalog refl)

  -- After the insertion.
  inserted :
      (viewer : CurrentUser) (input : CreateInput) (u w w₁ : W) (p : Result SubRequest × W)
      → (view w₁ ≡ view w) × ((e : Error) → IsFault w₁ e → IsFault w e)
      → IsAcceptable input (s.now_func w).0
      → ((id : ℤ) × (view w₁ id ≡ none)
          × (p.0 ≡ ok (record (new_sub_request viewer input (s.now_func u).0) { id = id }))
          × (view p.1
              ≡ put_at id
                  (some (stored id (new_sub_request viewer input (s.now_func u).0)))
                  (view w₁)))
        ⊎ (IsBroken (IsFault w₁) p.0 × (view p.1 ≡ view w₁))
      → Created view IsFault s viewer input w
          (continue (on_error map_repository_error p.0) (notify_sub_request_created s viewer) p.1)
  inserted viewer input u w w₁ (ok sr, w₂) (same, from) good (inl (id, free, h, added)) = inl (
    notify_created-ok viewer sr w₂,
    good,
    record {
      id = id;
      stamp = (s.now_func u).0;
      told = (u, refl);
      fresh = ap (λ (st : Store). st id) (sym same) ∙ free;
      added =
          (notify_created-Keeps view IsFault s contract env viewer sr).at w₂
          ∙ added
          ∙ ap (put_at id (some (posted viewer input id (s.now_func u).0))) same;
    },
  )
  inserted viewer input u w w₁ (err e, w₂) still good (inl (id, free, h, added)) = cc h
  inserted viewer input u w w₁ (ok sr, w₂) still good (inr ((e, h, other, p), v)) = cc h
  inserted viewer input u w w₁ (err x, w₂) (same, from) good (inr ((e, h, other, p), v)) =
      let which : x ≡ e = ground arith in
      inr (
        e,
        ap (λ y. err (map_repository_error y)) which ∙ ap err (map_repository_error-other e other),
        inr (inr (from e p)),
        v ∙ same,
      )

  validated :
      (viewer : CurrentUser) (input : CreateInput) (w : W) (p : Done × W)
      → ((p.0 ≡ ok tt) × IsAcceptable input (s.now_func w).0)
        ⊎ ((e : Error) × (p.0 ≡ err e) × Refusal view IsFault s input w e)
      → (view p.1 ≡ view w) × ((e : Error) → IsFault p.1 e → IsFault w e)
      → Created view IsFault s viewer input w (
          continue p.0
            (λ _. clock s >>= λ now.
              map_error map_repository_error
                (s.repo.create_sub_request (new_sub_request viewer input now))
              >>= notify_sub_request_created s viewer)
            p.1)
  unfolding ◌>>=◌ clock
  validated viewer input w (r, w₁) (inl (h, good)) (v, from) =
      let t = (s.now_func w₁).0 in
      rw h (
        inserted viewer input w₁ w (s.now_func w₁).1
          (s.repo.create_sub_request (new_sub_request viewer input t) (s.now_func w₁).1)
          (env.clock_keeps w₁ ∙ v, λ e p. from e (env.clock_pending w₁ e p)) good
          (contract.create_lem (new_sub_request viewer input t) (s.now_func w₁).1))
  validated viewer input w (r, w₁) (inr (e, h, why)) (v, from) = rw h (inr (e, refl, why, v))

  -- `Create` adds exactly one request, for an acceptable input, under an identifier that was free,
  -- with the input's show, times and notes, owned by the viewer, open and stamped by the clock, and
  -- leaves every other request alone. Else it changes no request, and its error says why: the input
  -- is not acceptable, the catalog refuses the show, or the database failed. What the notification
  -- does is never its result.
  pub create-lands :
      (viewer : CurrentUser) (input : CreateInput) (w : W)
      → Created view IsFault s viewer input w (create s viewer input w)
  unfolding create ◌>>=◌
  create-lands viewer input w =
      validated viewer input w (validate_create_input s input w) (validate-cases input w)
        ((validate-Keeps input).at w, (validate-Keeps input).pending w)
