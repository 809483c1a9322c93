-- ===== src/Examples/Casbin.antt =====
-- The stored-policy authorizer over a table in memory, which a load leaves as it is.
use air_cover.Base.{
  ◌≡◌, refl, ◌≢◌, ◌⊎◌, inl, Bool, ◌||◌, List, [], ◌∷◌, ◌++◌, pos, any_by, arith, ◌&&◌, ◌==◌,
  string_eq,
}
use air_cover.Errors.{ok, fail, forbidden, map_error, ◌>>=◌}
use air_cover.Authorization
use air_cover.Authorization.{
  Subject, Resource, taken_resource, user_resource, action_sub_request_take, action_user_update,
}
use air_cover.Base.{none, int_beq}
use air_cover.Casbin.{Policy, Library, baseline_policies, authorize, seed_baseline_policy, matcher}
use air_cover.Casbin.Seeding.{FailsInside, seed-eq-parity, seed-grants_parity}
use air_cover.Casbin.Parity.{baseline-eq-parity, resource_type_of}

any_by-append :
    (test : Policy → Bool) (xs ys : List Policy)
    → any_by test (xs ++ ys) ≡ (any_by test xs || any_by test ys)
any_by-append test [] ys = refl
any_by-append test (x ∷ xs) ys = ground (arith, any_by-append test xs ys)

abbrev memory : Library
memory = record {
  State = List Policy;
  policies = λ s. s;
  load_policy = λ s. (ok tt, s);
  add_policies_ex = λ ps s. (ok tt, s ++ ps);
  save_policy = λ s. (ok tt, s);
  enforce = λ s test. ok (any_by test s);
  enforce_lem = λ s test. inl refl;
  add_policies_ex_lem = λ ps s test h. any_by-append test s ps;
  save_policy_lem = λ s. refl;
}

abbrev bob : Subject
bob = record { user = record { id = pos 2; email = "bob@example.org"; role = "member" } }

abbrev open_request : Resource
open_request = taken_resource (pos 1) none

baseline-eq-parity_example :
    any_by (matcher bob action_sub_request_take open_request) baseline_policies ≡ (
      (open_request.type == resource_type_of action_sub_request_take)
      && Authorization.allowed bob action_sub_request_take open_request)
baseline-eq-parity_example = baseline-eq-parity bob action_sub_request_take open_request

seed-eq-parity_example :
    (authorize memory (seed_baseline_policy memory []).1 bob action_sub_request_take open_request
      ≡ Authorization.authorize bob action_sub_request_take open_request)
    ⊎ FailsInside memory (seed_baseline_policy memory []).1 bob action_sub_request_take open_request
unfolding seed_baseline_policy ◌>>=◌ map_error
seed-eq-parity_example =
    seed-eq-parity memory [] bob action_sub_request_take open_request (λ test h. cc h) refl refl

seed-grants_parity_example :
    authorize memory (seed_baseline_policy memory []).1 bob action_sub_request_take open_request
    ≢ fail forbidden
unfolding seed_baseline_policy ◌>>=◌ map_error Authorization.allowed int_beq
seed-grants_parity_example =
    seed-grants_parity memory [] bob action_sub_request_take open_request refl refl refl
