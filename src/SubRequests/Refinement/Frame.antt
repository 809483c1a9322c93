-- ===== src/SubRequests/Refinement/Frame.antt =====
-- What the service does round a change of a row leaves the rows alone: titles, events and
-- notifications.
use air_cover.Base.{ℤ, String, ◌≡◌, refl, ◌∙◌, Option, none, some, List, arith}
use air_cover.Errors.{Error, Result, ok, err, Exec, continue, ◌>>=◌, pure, lift, map_error}
use air_cover.Domain.{SubRequest, CurrentUser}
use air_cover.SubRequests.Ports.{Show, ReadModel, UntakenEvent, Notifier, Service, clock}
use air_cover.SubRequests.Service.{
  title_from, show_title_for, title_or_unknown, log_error, send_created, notify_sub_request_created,
}
use air_cover.SubRequests.Actions.{
  send_taken, notify_taken_by, notify_sub_request_taken, untaken_event, event_from,
  sub_request_untaken_event, event_before_untake, notify_sub_request_untaken,
}
use air_cover.SubRequests.Spec.{Store, Keeps, Still, RepositoryContract, Environment}

module _ {W A : Type 0} {view : W → Store} {IsFault : W → Error → Type 0} where
  pub Keeps-pure : (a : A) → Keeps view IsFault (pure a)
  unfolding pure
  Keeps-pure a = record { at = λ w. refl; pending = λ w e h. h }

  pub Keeps-lift : (r : Result A) → Keeps view IsFault (lift r)
  unfolding lift
  Keeps-lift r = record { at = λ w. refl; pending = λ w e h. h }

  pub Keeps-map_error :
      (g : Error → Error) (m : Exec W A) → Keeps view IsFault m → Keeps view IsFault (map_error g m)
  unfolding map_error
  Keeps-map_error g m km = record { at = km.at; pending = km.pending }

module _ {W A B : Type 0} {view : W → Store} {IsFault : W → Error → Type 0} where
  continue-Keeps :
      (f : A → Exec W B) (r : Result A) (w : W)
      → ((a : A) → Keeps view IsFault (f a))
      → view (continue r f w).1 ≡ view w
  continue-Keeps f (ok a) w kf = (kf a).at w
  continue-Keeps f (err e) w kf = refl

  continue-pending :
      (f : A → Exec W B) (r : Result A) (w : W)
      → ((a : A) → Keeps view IsFault (f a))
      → (e : Error) → IsFault (continue r f w).1 e
      → IsFault w e
  continue-pending f (ok a) w kf e h = (kf a).pending w e h
  continue-pending f (err x) w kf e h = h

  -- A chain of calls that leave the rows alone does so too.
  pub Keeps-bind :
      (m : Exec W A) (f : A → Exec W B)
      → Keeps view IsFault m
      → ((a : A) → Keeps view IsFault (f a))
      → Keeps view IsFault (m >>= f)
  unfolding ◌>>=◌
  Keeps-bind m f km kf = record {
    at = λ w. let (r, w') = m w in continue-Keeps f r w' kf ∙ km.at w;
    pending = λ w e h. let (r, w') = m w in km.pending w e (continue-pending f r w' kf e h);
  }

-- What a call that leaves the rows alone makes of the start.
pub Keeps-Still :
    {W A : Type 0} {view : W → Store} {IsFault : W → Error → Type 0} {m : Exec W A} {st : Store}
    {bad : Error → Type 0} {w : W}
    → Keeps view IsFault m
    → Still view IsFault st bad w
    → Still view IsFault st bad (m w).1
Keeps-Still {w = w} km (v, p) = (km.at w ∙ v, λ e h. p e (km.pending w e h))

pub ruleset keeps_rules = (Keeps-pure, Keeps-lift, Keeps-map_error, Keeps-bind)

module _ {W : Type 0} (view : W → Store) (IsFault : W → Error → Type 0) where
  module _ (s : Service W) (contract : RepositoryContract view IsFault s.repo)
      (env : Environment view IsFault s) where
    pub clock-Keeps : Keeps view IsFault (clock s)
    unfolding clock
    clock-Keeps = record { at = env.clock_keeps; pending = env.clock_pending }

    title_from-Keeps :
        (id : ℤ) (c : Option (Exec W (List Show)))
        → s.catalog ≡ c
        → Keeps view IsFault (title_from s id c)
    unfolding title_from
    title_from-Keeps id none e = search keeps_rules
    title_from-Keeps id (some shows) e =
        Keeps-bind _ _ (Keeps-map_error _ shows (env.catalog_keeps shows e)) (λ a. Keeps-pure _)

    pub show_title_for-Keeps : (id : ℤ) → Keeps view IsFault (show_title_for s id)
    unfolding show_title_for
    show_title_for-Keeps id = title_from-Keeps id s.catalog refl

    title_or_unknown-Keeps : (id : ℤ) → Keeps view IsFault (title_or_unknown s id)
    unfolding title_or_unknown
    title_or_unknown-Keeps id = record {
      at = λ w. ground (arith, (show_title_for-Keeps id).at w);
      pending = λ w e h. ground (arith, (show_title_for-Keeps id).pending w e h);
    }

    log_error-Keeps :
        (m : Exec W (Unit {0})) → Keeps view IsFault m → Keeps view IsFault (log_error m)
    unfolding log_error
    log_error-Keeps m km = record { at = km.at; pending = km.pending }

    ruleset keeps_titles = (keeps_rules, title_or_unknown-Keeps, log_error-Keeps)

    send_created-Keeps :
        (viewer : CurrentUser) (sr : SubRequest) (n : Option (Notifier W))
        → s.notifier ≡ n
        → Keeps view IsFault (send_created s viewer sr n)
    unfolding send_created
    send_created-Keeps viewer sr none e = search keeps_titles
    send_created-Keeps viewer sr (some n) e = search (keeps_titles, env.created_keeps)

    pub notify_created-Keeps :
        (viewer : CurrentUser) (sr : SubRequest)
        → Keeps view IsFault (notify_sub_request_created s viewer sr)
    unfolding notify_sub_request_created
    notify_created-Keeps viewer sr = send_created-Keeps viewer sr s.notifier refl

    send_taken-Keeps :
        (m : ReadModel) (n : Notifier W)
        → s.notifier ≡ some n
        → Keeps view IsFault (send_taken s m n)
    unfolding send_taken
    send_taken-Keeps m n e = search (keeps_titles, env.taken_keeps)

    notify_taken_by-Keeps :
        (id : ℤ) (n : Option (Notifier W))
        → s.notifier ≡ n
        → Keeps view IsFault (notify_taken_by s id n)
    unfolding notify_taken_by
    notify_taken_by-Keeps id none e = search keeps_rules
    notify_taken_by-Keeps id (some n) e =
        search (keeps_titles, contract.detail_keeps, send_taken-Keeps)

    pub notify_taken-Keeps : (id : ℤ) → Keeps view IsFault (notify_sub_request_taken s id)
    unfolding notify_sub_request_taken
    notify_taken-Keeps id = notify_taken_by-Keeps id s.notifier refl

    untaken_event-Keeps :
        (m : ReadModel) (email : String) → Keeps view IsFault (untaken_event s m email)
    unfolding untaken_event
    untaken_event-Keeps m email = search keeps_titles

    event_from-Keeps :
        (email : String) (r : Result ReadModel) → Keeps view IsFault (event_from s email r)
    unfolding event_from
    event_from-Keeps email (ok m) = untaken_event-Keeps m email
    event_from-Keeps email (err e) = search keeps_rules

    sub_request_untaken_event-Keeps :
        (id : ℤ) (email : String) → Keeps view IsFault (sub_request_untaken_event s id email)
    unfolding sub_request_untaken_event
    sub_request_untaken_event-Keeps id email = record {
      at = λ w.
          let (r, w') = s.repo.get_sub_request_detail_by_id id w in
          (event_from-Keeps email r).at w' ∙ (contract.detail_keeps id).at w;
      pending = λ w e h.
          let (r, w') = s.repo.get_sub_request_detail_by_id id w in
          (contract.detail_keeps id).pending w e ((event_from-Keeps email r).pending w' e h);
    }

    pub event_before_untake-Keeps :
        (id : ℤ) (viewer : CurrentUser) (n : Option (Notifier W))
        → Keeps view IsFault (event_before_untake s id viewer n)
    unfolding event_before_untake
    event_before_untake-Keeps id viewer none = search keeps_rules
    event_before_untake-Keeps id viewer (some n) = sub_request_untaken_event-Keeps id viewer.email

    pub notify_untaken-Keeps :
        (event : Option UntakenEvent) (n : Option (Notifier W))
        → s.notifier ≡ n
        → Keeps view IsFault (notify_sub_request_untaken s event n)
    unfolding notify_sub_request_untaken
    notify_untaken-Keeps none n e = search keeps_rules
    notify_untaken-Keeps (some event) none e = search keeps_rules
    notify_untaken-Keeps (some event) (some n) e = log_error-Keeps _ (env.untaken_keeps n event e)
