-- ===== src/SubRequests/Refinement/Changes.antt =====
-- `take` and `untake` implement their transitions.
use air_cover.Base.{ℤ, ◌≡◌, refl, true, false, not, none, some, ◌==◌, string_eq, int_eq}
use air_cover.Errors.{Error, conflict, sentinel, ◌>>=◌}
use air_cover.Domain.{SubRequest, CurrentUser, Time}
use air_cover.Authorization.{action_sub_request_take, action_sub_request_untake}
use air_cover.SubRequests.Ports.{Service, clock}
use air_cover.SubRequests.Service.{authorize}
use air_cover.SubRequests.Actions.{take, untake, is_taken, event_before_untake}
use air_cover.SubRequests.Spec.{
  Store, row_take, row_untake, taken_by, untaken, Landed, RepositoryContract, Environment, Still,
  use_take, use_untake,
}
use air_cover.SubRequests.Refinement.Frame.{
  clock-Keeps, notify_taken-Keeps, event_before_untake-Keeps, notify_untaken-Keeps,
}
use air_cover.SubRequests.Refinement.Returns.{
  notify_taken-ok, notify_untaken-ok, event_before_untake-ok, clock-ok,
}
use air_cover.SubRequests.Refinement.Rules.{
  Landed-step, Landed-test, Landed-authorize, Landed-write,
}
use air_cover.SubRequests.Refinement.Rights.{
  not-false, not-true, allowed-take, is_taker, allowed-untake, no_untake, yes_untake, answer,
}

module _ {W : Type 0} (view : W → Store) (IsFault : W → Error → Type 0) (s : Service W)
    (contract : RepositoryContract view IsFault s.repo) (env : Environment view IsFault s) where
  pub take_time : CurrentUser → SubRequest → W → Time
  take_time viewer sr w = (s.now_func (authorize s viewer action_sub_request_take sr w).1).0

  -- The part of `ApplyAction` after the read, for an open request that was found.
  pub take_open-lands :
      (viewer : CurrentUser) (id : ℤ) (sr : SubRequest) (st : Store) (bad : Error → Type 0) (w : W)
      → st id ≡ some sr
      → sr.taken_by_user_id ≡ none
      → Still view IsFault st bad w
      → Landed view IsFault id
          (use_take viewer (take_time viewer sr w))
          st
          bad
          (take s viewer id sr w)
  unfolding take use_take ◌>>=◌ take_time
  take_open-lands viewer id sr st bad w e open_now v =
      let t = take_time viewer sr w in
      let f = use_take viewer t in
      let free : is_taken sr ≡ true → ⊥ = rw open_now (λ h. cc h) in
      Landed-test view IsFault id f st bad (is_taken sr) (sentinel conflict) _ w v
        (λ b. absurd (free b))
        λ _.
          Landed-authorize view IsFault id f st bad (not (sr.posted_by_user_id == viewer.id))
            (authorize s viewer action_sub_request_take sr) _ w (env.authorizer_keeps _ _ _) v
            (answer view IsFault s contract env viewer action_sub_request_take sr w _
              (allowed-take viewer sr open_now))
            (λ no_right. rw (e, open_now, not-false _ no_right))
            λ right v₂.
              Landed-step view IsFault id f st bad (clock s) _ _ t
                (clock-Keeps view IsFault s contract env) v₂ (clock-ok s _)
                λ v₃.
                  Landed-write view IsFault id f st bad (row_take viewer.id t)
                    (some (taken_by viewer.id t sr)) _ _ _
                    (notify_taken-Keeps view IsFault s contract env id) (notify_taken-ok s id) v₃
                    (rw (e, open_now, not-true _ right)) (rw (e, open_now))
                    (contract.take_lem id viewer.id t)

  -- The same for a request that has a taker.
  pub take_taken-lands :
      (viewer : CurrentUser) (id : ℤ) (sr : SubRequest) (taker : ℤ) (t : Time) (st : Store)
      (bad : Error → Type 0) (w : W)
      → st id ≡ some sr
      → sr.taken_by_user_id ≡ some taker
      → Still view IsFault st bad w
      → Landed view IsFault id (use_take viewer t) st bad (take s viewer id sr w)
  unfolding take use_take
  take_taken-lands viewer id sr taker t st bad w e taken_now v =
      Landed-test view IsFault id (use_take viewer t) st bad (is_taken sr) (sentinel conflict) _ w v
        (λ _. rw (e, taken_now)) (λ b. absurd (let h : true ≡ false = rw taken_now at b in cc h))

  pub untake_time : CurrentUser → ℤ → SubRequest → W → Time
  untake_time viewer id sr w =
      let w₁ = (authorize s viewer action_sub_request_untake sr w).1 in
      (s.now_func (event_before_untake s id viewer s.notifier w₁).1).0

  pub untake-lands :
      (viewer : CurrentUser) (id : ℤ) (sr : SubRequest) (st : Store) (bad : Error → Type 0) (w : W)
      → st id ≡ some sr
      → Still view IsFault st bad w
      → Landed view IsFault id
          (use_untake viewer (untake_time viewer id sr w))
          st
          bad
          (untake s viewer id sr w)
  unfolding untake use_untake untake_time
  untake-lands viewer id sr st bad w e v =
      let t = untake_time viewer id sr w in
      let f = use_untake viewer t in
      let w₁ = (authorize s viewer action_sub_request_untake sr w).1 in
      let (event, made) = event_before_untake-ok s id viewer s.notifier w₁ in
      Landed-authorize view IsFault id f st bad (is_taker viewer.id sr.taken_by_user_id)
        (authorize s viewer action_sub_request_untake sr) _ w (env.authorizer_keeps _ _ _) v
        (answer view IsFault s contract env viewer action_sub_request_untake sr w _
          (allowed-untake viewer sr))
        (λ no_right. rw e (no_untake viewer t sr sr.taken_by_user_id no_right))
        λ right v₂.
          Landed-step view IsFault id f st bad (event_before_untake s id viewer s.notifier) _ _
            event (event_before_untake-Keeps view IsFault s contract env id viewer s.notifier) v₂
            made
            λ v₃.
              Landed-step view IsFault id f st bad (clock s) _ _ t
                (clock-Keeps view IsFault s contract env) v₃ (clock-ok s _)
                λ v₄.
                  Landed-write view IsFault id f st bad (row_untake viewer.id t)
                    (some (untaken t sr)) _ _ _
                    (notify_untaken-Keeps view IsFault s contract env event s.notifier refl)
                    (notify_untaken-ok s event s.notifier) v₄
                    (rw e (yes_untake viewer t sr _ right).0)
                    (rw e (yes_untake viewer t sr _ right).1) (contract.untake_lem id viewer.id t)
