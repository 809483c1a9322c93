-- ===== src/Auth/Sessions.antt =====
-- What a session token stands for.
pub mod Opening
pub mod Ending
use air_cover.Base.{
  ℤ, String, ◌≡◌, refl, sym, ◌∙◌, ap, ◌⊎◌, inl, inr, Bool, true, false, Option, none, some, List,
  [], ◌∷◌, find_by, if◌then◌else◌,
}
use air_cover.Errors.{
  Error, Result, ok, err, fail, not_found, opaque, is, continue, Exec, ◌>>=◌, pure, raise,
}
use air_cover.Errors.Steps.{Stable}
use air_cover.Domain.{User, CurrentUser, Session, Time}
use air_cover.SubRequests.Spec.{IsOther, IsBroken}
use air_cover.SubRequests.Refinement.Rules.{IsBroken-from}
use air_cover.Auth.Ports.{Service, clock}
use air_cover.Auth.Service.{current_user_of, if_enabled, authenticate_session}
use air_cover.Auth.Spec.{View, RepositoryContract, Environment, has_token, unexpired, found}

abbrev pub enabled_user : User → Bool → Result CurrentUser
enabled_user u true = ok (current_user_of u)
enabled_user u false = err (opaque "user is disabled")

-- Who a user of the table is as a viewer: nobody, if disabled.
abbrev pub viewer_of : Option User → Result CurrentUser
viewer_of none = fail not_found
viewer_of (some u) = enabled_user u u.is_enabled

-- Who the bearer of a session is.
abbrev pub bearer : (ℤ → Option User) → Result Session → Result CurrentUser
bearer users (ok s) = viewer_of (users s.user_id)
bearer users (err e) = err e

-- A failure later on is one that was in store before.
IsBroken-or :
    {X : Type 0} {A : Type 0} {here bad : Error → Type 0} {r : Result A}
    → ((e : Error) → here e → bad e)
    → X ⊎ IsBroken here r
    → X ⊎ IsBroken bad r
IsBroken-or from (inl x) = inl x
IsBroken-or from (inr b) = inr (IsBroken-from from b)

module _ {W : Type 0} (view : View W) (s : Service W) where
  decided : (u : User) (b : Bool) (w : W) → (if_enabled s u b w).0 ≡ enabled_user u b
  unfolding pure raise
  decided u true w = refl
  decided u false w = refl

  user-bearer :
      (r : Result User) (w : W) (o : Option User) (bad : Error → Type 0)
      → (r ≡ found o) ⊎ IsBroken bad r
      → ((continue r (λ u. if_enabled s u u.is_enabled) w).0 ≡ viewer_of o)
        ⊎ IsBroken bad (continue r (λ u. if_enabled s u u.is_enabled) w).0
  user-bearer r w o bad (inr (e, h, other, b)) = rw h (inr (e, refl, other, b))
  user-bearer r w none bad (inl h) = rw h (inl refl)
  user-bearer r w (some u) bad (inl h) = rw h (inl (decided u u.is_enabled w))

  session-bearer :
      (contract : RepositoryContract view s.repo) (users : ℤ → Option User) (r : Result Session)
      (w : W) (expected : Result Session) (bad : Error → Type 0)
      → (r ≡ expected) ⊎ IsBroken bad r
      → ((e : Error) → view.IsFault w e → bad e)
      → view.users w ≡ users
      → let m = λ (sess : Session).
        s.repo.get_user_by_id sess.user_id >>= λ u. if_enabled s u u.is_enabled in
        ((continue r m w).0 ≡ bearer users expected) ⊎ IsBroken bad (continue r m w).0
  unfolding ◌>>=◌
  session-bearer contract users r w expected bad (inr (e, h, other, b)) from same =
      rw h (inr (e, refl, other, b))
  session-bearer contract users r w (err e) bad (inl h) from same = rw h (inl refl)
  session-bearer contract users r w (ok sess) bad (inl h) from same =
      rw (h, sym same)
        (user-bearer (s.repo.get_user_by_id sess.user_id w).0
          (s.repo.get_user_by_id sess.user_id w).1 (view.users w sess.user_id) bad
          (IsBroken-or from (contract.user_lem sess.user_id w)))

  module _ (contract : RepositoryContract view s.repo) (env : Environment view s) where
    -- A session token stands for the user of the session under its hash, as the user is now, if
    -- that session has not expired at the instant that the service reads and the user is enabled;
    -- a token without such a session is not found, and the only other outcome is an error
    -- with which the database was to fail, passed on.
    pub authenticate-bearer :
        (token : String) (w : W)
        → ((authenticate_session s token w).0
            ≡ bearer (view.users w) (
                unexpired
                  (s.now_func w).0
                  (find_by (has_token (s.hash_token token)) (view.sessions w))))
          ⊎ IsBroken (view.IsFault w) (authenticate_session s token w).0
    unfolding authenticate_session clock ◌>>=◌
    authenticate-bearer token w =
        let now = (s.now_func w).0 in
        let w₁ = (s.now_func w).1 in
        let hash = s.hash_token token in
        let kept = env.clock_keeps w in
        session-bearer contract (view.users w) (s.repo.get_session_by_token hash now w₁).0
          (s.repo.get_session_by_token hash now w₁).1
          (unexpired now (find_by (has_token hash) (view.sessions w))) (view.IsFault w)
          (rw (sym kept.sessions) (IsBroken-or kept.pending (contract.session_lem hash now w₁)))
          (λ e h. kept.pending e (((contract.session_keeps hash now).at w₁).pending e h))
          (((contract.session_keeps hash now).at w₁).users ∙ kept.users)
