-- ===== src/SubRequests/Refinement/UseCases.antt =====
-- `Delete` and `ApplyAction` implement their transitions.
use air_cover.Base.{
  ℤ, String, ◌≡◌, refl, inl, inr, true, false, not, none, some, ◌==◌, string_eq, int_eq, Bool-cases,
  Option-cases,
}
use air_cover.Errors.{Error, invalid, not_found, sentinel, fail, ◌>>=◌, map_error}
use air_cover.Domain.{SubRequest, CurrentUser, Time}
use air_cover.Authorization.{action_sub_request_delete}
use air_cover.SubRequests.Ports.{Service, action_take, action_untake, is_valid_action}
use air_cover.SubRequests.Service.{map_repository_error, authorize, delete}
use air_cover.SubRequests.Actions.{apply_found, apply_action}
use air_cover.SubRequests.Spec.{
  Row, Store, row_delete, may_delete, Landed, Realises, RepositoryContract, Environment, Still,
  use_delete, use_action,
}
use air_cover.SubRequests.Refinement.Frame.{Keeps-Still}
use air_cover.SubRequests.Refinement.Rules.{Landed-get, Landed-test, Landed-authorize, Landed-last}
use air_cover.SubRequests.Refinement.Rights.{
  second_true, neither, true_clash, false_clash, none-some, some_same, allowed-delete, answer,
}
use air_cover.SubRequests.Refinement.Changes.{
  take_time, untake_time, take_open-lands, take_taken-lands, untake-lands,
}

module _ {W : Type 0} (view : W → Store) (IsFault : W → Error → Type 0) (s : Service W)
    (contract : RepositoryContract view IsFault s.repo) (env : Environment view IsFault s) where
  -- `Delete` removes the request when the viewer owns it or is an administrator, is forbidden to
  -- everybody else, does not find what is not there, and touches no other request. The only other
  -- outcome is an error with which a call of the database or the authorizer was to fail, and it
  -- changes nothing.
  pub delete-Realises :
      (viewer : CurrentUser) (id : ℤ)
      → Realises view IsFault id (use_delete viewer) (delete s viewer id)
  unfolding delete ◌>>=◌ use_delete
  delete-Realises viewer id = record {
    at = λ w.
        let st = view w in
        let bad = IsFault w in
        let got = Keeps-Still (contract.get_keeps id) (refl, λ e h. h) in
        let w₁ = (s.repo.get_sub_request_by_id id w).1 in
        Landed-get view IsFault id (use_delete viewer) st bad _ _ _ (contract.get_lem id w) got refl
          λ sr e.
            Landed-authorize view IsFault id (use_delete viewer) st bad (may_delete viewer sr)
              (authorize s viewer action_sub_request_delete sr) _ w₁ (env.authorizer_keeps _ _ _)
              got
              (answer view IsFault s contract env viewer action_sub_request_delete sr w₁ _
                (allowed-delete viewer sr))
              (λ no_right. rw (e, no_right))
              (λ right v.
                Landed-last view IsFault id (use_delete viewer) st bad row_delete none _ _ v
                  (rw (e, right)) (rw e) (contract.delete_lem id));
  }

  -- The clock's answer at which an action takes effect.
  found-lands :
      (viewer : CurrentUser) (id : ℤ) (action : String) (sr : SubRequest) (st : Store)
      (bad : Error → Type 0) (w : W)
      → is_valid_action action ≡ true
      → st id ≡ some sr
      → Still view IsFault st bad w
      → (t : Time) × Landed view IsFault id
          (use_action viewer action t)
          st
          bad
          (apply_found s viewer id action sr w)
  unfolding use_action apply_found
  found-lands viewer id action sr st bad w valid e v = elim (Bool-cases (action == action_take)) [
    | inl takes ↦ elim (Option-cases sr.taken_by_user_id) [
      | inl open_now ↦
          let t = take_time view IsFault s contract env viewer sr w in
          (
            t,
            rw takes
                (take_open-lands view IsFault s contract env viewer id sr st bad w e open_now v),
          )
      | inr (taker, taken_now) ↦ (
        0,
        rw takes (
            take_taken-lands view IsFault s contract env viewer id sr taker 0 st bad w e taken_now
              v),
      )
    ]
    | inr other ↦
        let untakes = second_true _ _ valid other in
        (
          untake_time view IsFault s contract env viewer id sr w,
          rw (other, untakes) (untake-lands view IsFault s contract env viewer id sr st bad w e v),
        )
  ]

  use_action-none :
      (viewer : CurrentUser) (action : String) (t : Time)
      → is_valid_action action ≡ true
      → use_action viewer action t none ≡ fail not_found
  unfolding use_action
  use_action-none viewer action t valid = elim (Bool-cases (action == action_take)) [
    | inl takes ↦ rw takes
    | inr other ↦ rw (other, second_true _ _ valid other)
  ]

  use_action-invalid :
      (viewer : CurrentUser) (action : String) (t : Time) (row : Row)
      → is_valid_action action ≡ false
      → use_action viewer action t row ≡ fail invalid
  unfolding use_action
  use_action-invalid viewer action t row bad =
      let (a, b) = neither (action == action_take) (action == action_untake) bad in rw (a, b)

  invalid-lands :
      (viewer : CurrentUser) (id : ℤ) (action : String) (w : W) (t : Time)
      → is_valid_action action ≡ false
      → Landed view IsFault id
          (use_action viewer action t)
          (view w)
          (IsFault w)
          (apply_action s viewer id action w)
  unfolding apply_action
  invalid-lands viewer id action w t bad =
      Landed-test view IsFault id (use_action viewer action t) (view w) (IsFault w)
        (not (is_valid_action action)) (sentinel invalid) _ w (refl, λ e h. h)
        (λ _. use_action-invalid viewer action t _ bad) (λ h. absurd (false_clash _ bad h))

  -- The steps of `ApplyAction` before its `switch`, for a valid action.
  valid-lands :
      (viewer : CurrentUser) (id : ℤ) (action : String) (w : W) (t : Time)
      → is_valid_action action ≡ true
      → ((sr : SubRequest)
          → view w id ≡ some sr
          → Landed view IsFault id
              (use_action viewer action t)
              (view w)
              (IsFault w)
              (apply_found s viewer id action sr (s.repo.get_sub_request_by_id id w).1))
      → Landed view IsFault id
          (use_action viewer action t)
          (view w)
          (IsFault w)
          (apply_action s viewer id action w)
  unfolding apply_action ◌>>=◌
  valid-lands viewer id action w t valid next =
      Landed-test view IsFault id (use_action viewer action t) (view w) (IsFault w)
        (not (is_valid_action action)) (sentinel invalid)
        (map_error map_repository_error (s.repo.get_sub_request_by_id id)
          >>= apply_found s viewer id action)
        w (refl, λ e h. h) (λ h. absurd (true_clash _ valid h))
        λ _.
          Landed-get view IsFault id (use_action viewer action t) (view w) (IsFault w)
            (apply_found s viewer id action) _ _ (contract.get_lem id w)
            (Keeps-Still (contract.get_keeps id) (refl, λ e h. h))
            (use_action-none viewer action t valid) next

  -- `ApplyAction` does to the requests exactly what its transition says, at some instant: a take
  -- needs an open request of somebody else, an untake needs the viewer to be the taker, an unknown
  -- action is invalid, a missing request is not found, a taken one conflicts, and no other request
  -- changes. The only other outcome is an error with which a call of the database or the authorizer
  -- was to fail, and it changes nothing.
  pub apply_action-lands :
      (viewer : CurrentUser) (id : ℤ) (action : String) (w : W)
      → (t : Time) × Landed view IsFault id
          (use_action viewer action t)
          (view w)
          (IsFault w)
          (apply_action s viewer id action w)
  apply_action-lands viewer id action w = elim (Bool-cases (is_valid_action action)) [
    | inr bad ↦ (0, invalid-lands viewer id action w 0 bad)
    | inl valid ↦ elim (Option-cases (view w id)) [
      | inl gone ↦ (0, valid-lands viewer id action w 0 valid (λ sr e. absurd (none-some gone e)))
      | inr (sr, e) ↦
          let (t, lands) =
            found-lands viewer id action sr (view w) (IsFault w)
              (s.repo.get_sub_request_by_id id w).1 valid e
              (Keeps-Still (contract.get_keeps id) (refl, λ e h. h)) in
          (t, valid-lands viewer id action w t valid (λ sr' e'. rw (some_same e' e) lands))
    ]
  ]
