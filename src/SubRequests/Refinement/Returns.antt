-- ===== src/SubRequests/Refinement/Returns.antt =====
-- What the service runs round a change of a row never fails: it logs its errors.
use air_cover.Base.{ℤ, String, ◌≡◌, refl, Option, none, some}
use air_cover.Errors.{Result, Exec, ok, err, ◌>>=◌, pure}
use air_cover.Domain.{CurrentUser}
use air_cover.SubRequests.Ports.{ReadModel, UntakenEvent, Notifier, Service, clock}
use air_cover.SubRequests.Service.{show_title_for, or_unknown, title_or_unknown, log_error}
use air_cover.SubRequests.Actions.{
  notify_taken_by, notify_sub_request_taken, untaken_event, event_from, sub_request_untaken_event,
  event_before_untake, notify_sub_request_untaken,
}

or_unknown-ok : (r : Result String) → (title : String) × (or_unknown r ≡ ok title)
or_unknown-ok (ok title) = (title, refl)
or_unknown-ok (err e) = ("Unknown Show", refl)

pub bind-ok :
    {W A B : Type 0} (m : Exec W A) (f : A → Exec W B) (w : W) (a : A)
    → (m w).0 ≡ ok a
    → (b : B) × ((f a (m w).1).0 ≡ ok b)
    → (b : B) × (((m >>= f) w).0 ≡ ok b)
unfolding ◌>>=◌
bind-ok m f w a e (b, h) = (b, rw e h)

module _ {W : Type 0} (s : Service W) where
  pub title_or_unknown-ok :
      (id : ℤ) (w : W) → (title : String) × ((title_or_unknown s id w).0 ≡ ok title)
  unfolding title_or_unknown
  title_or_unknown-ok id w = or_unknown-ok (show_title_for s id w).0

  pub notify_taken-ok : (id : ℤ) (w : W) → (notify_sub_request_taken s id w).0 ≡ ok tt
  unfolding notify_sub_request_taken
  notify_taken-ok id w = go s.notifier
    where
      go : (n : Option (Notifier W)) → (notify_taken_by s id n w).0 ≡ ok tt
      go none = unfold notify_taken_by pure in refl
      go (some n) = unfold notify_taken_by log_error in refl

  pub notify_untaken-ok :
      (event : Option UntakenEvent) (n : Option (Notifier W)) (w : W)
      → (notify_sub_request_untaken s event n w).0 ≡ ok tt
  unfolding notify_sub_request_untaken log_error pure
  notify_untaken-ok none n w = refl
  notify_untaken-ok (some event) none w = refl
  notify_untaken-ok (some event) (some n) w = refl

  untaken_event-ok :
      (m : ReadModel) (email : String) (w : W)
      → (event : Option UntakenEvent) × ((untaken_event s m email w).0 ≡ ok event)
  unfolding untaken_event pure
  untaken_event-ok m email w =
      let (title, e) = title_or_unknown-ok m.request.show_id w in bind-ok _ _ w title e (_, refl)

  event_from-ok :
      (email : String) (r : Result ReadModel) (w : W)
      → (event : Option UntakenEvent) × ((event_from s email r w).0 ≡ ok event)
  unfolding event_from pure
  event_from-ok email (ok m) w = untaken_event-ok m email w
  event_from-ok email (err e) w = (none, refl)

  pub event_before_untake-ok :
      (id : ℤ) (viewer : CurrentUser) (n : Option (Notifier W)) (w : W)
      → (event : Option UntakenEvent) × ((event_before_untake s id viewer n w).0 ≡ ok event)
  unfolding event_before_untake sub_request_untaken_event pure
  event_before_untake-ok id viewer none w = (none, refl)
  event_before_untake-ok id viewer (some n) w =
      let (r, w') = s.repo.get_sub_request_detail_by_id id w in event_from-ok viewer.email r w'

  pub clock-ok : (w : W) → (clock s w).0 ≡ ok (s.now_func w).0
  unfolding clock
  clock-ok w = refl
