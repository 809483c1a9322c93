-- ===== src/SubRequests/Refinement/Rights.antt =====
-- Who may do what, by the parity authorizer, and small facts on tests.
use air_cover.Base.{
  ℤ, String, ◌≡◌, refl, ◌∙◌, ap, ◌⊎◌, inl, inr, Bool, true, false, not, ◌||◌, Option, none, some,
  arith, ◌==◌, if◌then◌else◌, string_eq, int_eq, Option-cases,
}
use air_cover.Errors.{Error, forbidden, ok, fail}
use air_cover.Domain.{SubRequest, CurrentUser, Time}
use air_cover.Authorization
use air_cover.Authorization.{
  subject_from_current_user, sub_request_resource, allowed, action_sub_request_delete,
  action_sub_request_take, action_sub_request_untake,
}
use air_cover.SubRequests.Ports.{Service}
use air_cover.SubRequests.Service.{authorize}
use air_cover.SubRequests.Spec.{
  Row, Store, untaken, untake_taken, untake_if_taker, may_delete, IsBroken, RepositoryContract,
  Environment,
}

pub not-false : (b : Bool) → not b ≡ false → b ≡ true
not-false b h = ground arith

pub not-true : (b : Bool) → not b ≡ true → b ≡ false
not-true b h = ground arith

pub second_true : (a b : Bool) → (a || b) ≡ true → a ≡ false → b ≡ true
second_true a b h k = ground arith

pub neither : (a b : Bool) → (a || b) ≡ false → (a ≡ false) × (b ≡ false)
neither a b h = ground arith

pub false_clash : (b : Bool) → b ≡ false → not b ≡ false → ⊥
false_clash b h k = ground arith

pub true_clash : (b : Bool) → b ≡ true → not b ≡ true → ⊥
true_clash b h k = ground arith

pub none-some : {row : Row} {sr : SubRequest} → row ≡ none → row ≡ some sr → ⊥
none-some h k = cc

pub some_same : {row : Row} {a b : SubRequest} → row ≡ some a → row ≡ some b → a ≡ b
some_same h k = ground arith

-- Who the parity authorizer lets do what.
pub allowed-delete :
    (viewer : CurrentUser) (sr : SubRequest)
    → allowed
        (subject_from_current_user viewer)
        action_sub_request_delete
        (sub_request_resource (some sr))
      ≡ may_delete viewer sr
unfolding allowed
allowed-delete viewer sr = elim (Option-cases sr.taken_by_user_id) [
  | inl e ↦ rw e
  | inr (taker, e) ↦ rw e
]

pub allowed-take :
    (viewer : CurrentUser) (sr : SubRequest)
    → sr.taken_by_user_id ≡ none
    → allowed
        (subject_from_current_user viewer)
        action_sub_request_take
        (sub_request_resource (some sr))
      ≡ not (sr.posted_by_user_id == viewer.id)
unfolding allowed
allowed-take viewer sr e = rw e

-- Whether the viewer is the taker.
abbrev pub is_taker : ℤ → Option ℤ → Bool
is_taker user none = false
is_taker user (some taker) = taker == user

pub no_untake :
    (viewer : CurrentUser) (t : Time) (sr : SubRequest) (o : Option ℤ)
    → is_taker viewer.id o ≡ false
    → untake_if_taker viewer t sr o ≡ fail forbidden
no_untake viewer t sr none h = refl
no_untake viewer t sr (some taker) h = rw h

pub yes_untake :
    (viewer : CurrentUser) (t : Time) (sr : SubRequest) (o : Option ℤ)
    → is_taker viewer.id o ≡ true
    → (untake_if_taker viewer t sr o ≡ ok (some (untaken t sr)))
      × (untake_taken viewer.id t sr o ≡ ok (some (untaken t sr)))
yes_untake viewer t sr none h = cc
yes_untake viewer t sr (some taker) h = (rw h, rw h)

pub allowed-untake :
    (viewer : CurrentUser) (sr : SubRequest)
    → allowed
        (subject_from_current_user viewer)
        action_sub_request_untake
        (sub_request_resource (some sr))
      ≡ is_taker viewer.id sr.taken_by_user_id
unfolding allowed
allowed-untake viewer sr = elim (Option-cases sr.taken_by_user_id) [
  | inl e ↦ rw e
  | inr (taker, e) ↦ rw e
]

module _ {W : Type 0} (view : W → Store) (IsFault : W → Error → Type 0) (s : Service W)
    (contract : RepositoryContract view IsFault s.repo) (env : Environment view IsFault s) where
  -- The authorizer's law at the value of the parity authorizer.
  pub answer :
      (viewer : CurrentUser) (action : String) (sr : SubRequest) (w : W) (b : Bool)
      → allowed (subject_from_current_user viewer) action (sub_request_resource (some sr)) ≡ b
      → ((authorize s viewer action sr w).0 ≡ (if b then ok tt else fail forbidden))
        ⊎ IsBroken (IsFault w) (authorize s viewer action sr w).0
  unfolding Authorization.authorize
  answer viewer action sr w b e =
      elim (env.authorizer_lem (subject_from_current_user viewer) action
        (sub_request_resource (some sr)) w) [
          | inl h ↦ inl (h ∙ ap (λ (c : Bool). if c then ok tt else fail forbidden) e)
          | inr h ↦ inr h
        ]
