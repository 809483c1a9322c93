-- ===== src/Casbin.antt =====
-- internal/adapters/outbound/authorization/casbin/authorizer.go: the authorizer over stored
-- policies. The casbin library and its SQL adapter are the parameter `Library`: a state with the
-- policies that are loaded, and the calls that the program makes, with what their documentation
-- says of them. `casbinMatchesRule`, which checks the dynamic types of its arguments, has no
-- counterpart: they are types here.
pub mod Parity
pub mod Seeding
use air_cover.Base.{
  ℤ, String, ◌≡◌, ◌⊎◌, Bool, true, false, not, ◌&&◌, ◌||◌, List, [], ◌∷◌, ◌==◌, ◌/=◌, if◌then◌else◌,
  string_eq, int_eq, any_by,
}
use air_cover.Domain.{is_admin}
use air_cover.Authorization.{
  Subject, Resource, action_admin_access, action_user_list, action_user_create, action_user_update,
  action_sub_request_delete, action_sub_request_take, action_sub_request_untake, resource_admin,
  resource_user, resource_sub_request,
}
use air_cover.Errors.{
  Error, Result, Done, Exec, ok, err, fail, forbidden, is, wrap, ◌>>=◌, ◌>>◌, map_error, lift,
}

abbrev pub rule_admin : String
rule_admin = "admin"

abbrev pub rule_admin_except_self_deactivate : String
rule_admin_except_self_deactivate = "admin_except_self_deactivate"

abbrev pub rule_owner_or_admin : String
rule_owner_or_admin = "owner_or_admin"

abbrev pub rule_open_non_owner : String
rule_open_non_owner = "open_non_owner"

abbrev pub rule_taker : String
rule_taker = "taker"

-- A row of the policy table: `p = action, resource_type, rule`.
pub record Policy : Type 0 where
  pub action : String
  pub resource_type : String
  pub rule : String

abbrev policy : String → String → String → Policy
policy action type rule = record { action = action; resource_type = type; rule = rule }

-- `baselinePolicies`
abbrev pub baseline_policies : List Policy
baseline_policies =
    policy action_admin_access resource_admin rule_admin
    ∷ policy action_user_list resource_admin rule_admin
    ∷ policy action_user_create resource_admin rule_admin
    ∷ policy action_user_update resource_user rule_admin_except_self_deactivate
    ∷ policy action_sub_request_delete resource_sub_request rule_owner_or_admin
    ∷ policy action_sub_request_take resource_sub_request rule_open_non_owner
    ∷ policy action_sub_request_untake resource_sub_request rule_taker
    ∷ []

pub record EnforcementSubject : Type 0 where
  pub user_id : ℤ
  pub is_administrator : Bool

-- `enforcementSubjectFrom`; `enforcementResourceFrom` copies every field, and is the identity here.
abbrev pub enforcement_subject_from : Subject → EnforcementSubject
enforcement_subject_from s = record { user_id = s.user.id; is_administrator = is_admin s.user }

admin_except_self_deactivate : EnforcementSubject → Resource → Bool
admin_except_self_deactivate s r =
    s.is_administrator && (not r.disable_target || r.target_user_id /= s.user_id)

owner_or_admin : EnforcementSubject → Resource → Bool
owner_or_admin s r = r.owner_user_id == s.user_id || s.is_administrator

open_non_owner : EnforcementSubject → Resource → Bool
open_non_owner s r = r.sub_request_open && r.owner_user_id /= s.user_id

taker : EnforcementSubject → Resource → Bool
taker s r = r.has_taker && r.taker_user_id == s.user_id

-- `matchesRule`
matches_rule : String → EnforcementSubject → Resource → Bool
unfolding admin_except_self_deactivate owner_or_admin open_non_owner taker
matches_rule rule s r =
    if rule == rule_admin
    then s.is_administrator
    else if rule == rule_admin_except_self_deactivate
    then admin_except_self_deactivate s r
    else if rule == rule_owner_or_admin
    then owner_or_admin s r
    else if rule == rule_open_non_owner
    then open_non_owner s r
    else if rule == rule_taker
    then taker s r
    else false

-- The matcher of `modelText`, at one policy.
pub matcher : Subject → String → Resource → Policy → Bool
unfolding matches_rule admin_except_self_deactivate owner_or_admin open_non_owner taker
matcher subject action r p =
    action == p.action
    && r.type == p.resource_type
    && matches_rule p.rule (enforcement_subject_from subject) r

-- The casbin enforcer with its adapter. `Enforce` of a model whose effect is
-- `some(where (p.eft == allow))` answers whether a loaded policy matches, or fails with an error of
-- its own. `AddPoliciesEx` skips the rules that are there already and adds the others.
pub record Library : Type 1 where
  pub State : Type 0
  pub policies : State → List Policy
  pub load_policy : Exec State (Unit {0})
  pub add_policies_ex : List Policy → Exec State (Unit {0})
  pub save_policy : Exec State (Unit {0})
  pub enforce : State → (Policy → Bool) → Result Bool
  pub enforce_lem :
      (s : State) (test : Policy → Bool)
      → (enforce s test ≡ ok (any_by test (policies s)))
        ⊎ ((e : Error) × (enforce s test ≡ err e) × (is e forbidden ≡ false))
  pub add_policies_ex_lem :
      (ps : List Policy) (s : State) (test : Policy → Bool)
      → (add_policies_ex ps s).0 ≡ ok tt
      → any_by test (policies (add_policies_ex ps s).1)
        ≡ (any_by test (policies s) || any_by test ps)
  pub save_policy_lem : (s : State) → policies (save_policy s).1 ≡ policies s

abbrev wrapped : String → Error → Error
wrapped text e = wrap text e ""

abbrev decide : Result Bool → Done
decide (ok true) = ok tt
decide (ok false) = fail forbidden
decide (err e) = err (wrapped "enforce authorization policy: " e)

module _ (lib : Library) where
  open lib use {State, load_policy, add_policies_ex, save_policy, enforce}

  -- `Authorizer.Authorize`
  pub authorize : State → Subject → String → Resource → Done
  authorize s subject action r = decide (enforce s (matcher subject action r))

  -- `seedBaselinePolicy`
  unfoldable pub seed_baseline_policy : Exec State (Unit {0})
  seed_baseline_policy =
      map_error (wrapped "load casbin policy before seed: ") load_policy
      >> add_policies_ex baseline_policies
      >> save_policy

  -- The constructors of the adapter, the model and the enforcer, and what they make.
  module _ {Adapter Model : Type 0} (new_sql_adapter : Exec State Adapter)
      (new_model_from_string : Result Model)
      (new_enforcer : Model → Adapter → Exec State (Unit {0})) where
    -- `NewAuthorizer`; the authorizer is the state of the enforcer that it leaves.
    unfoldable pub new_authorizer : Exec State (Unit {0})
    new_authorizer = do
      adapter ← map_error (wrapped "create casbin sql adapter: ") new_sql_adapter
      model ← map_error (wrapped "create casbin model: ") (lift new_model_from_string)
      map_error (wrapped "create casbin enforcer: ") (new_enforcer model adapter)
      seed_baseline_policy
