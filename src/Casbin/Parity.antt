-- ===== src/Casbin/Parity.antt =====
-- The stored policies against the parity authorizer.
use air_cover.Base.{
  String, ◌≡◌, inl, inr, false, ◌&&◌, ◌||◌, arith, ◌==◌, if◌then◌else◌, string_eq, int_beq_iff,
  any_by, Bool-cases,
}
use air_cover.Authorization.{
  Subject, Resource, allowed, action_admin_access, action_user_list, action_user_create,
  action_user_update, action_sub_request_delete, action_sub_request_take, action_sub_request_untake,
  resource_admin, resource_user, resource_sub_request,
}
use air_cover.Casbin.{matcher, baseline_policies}

-- The type of the resources on which the services ask for an action.
abbrev pub resource_type_of : String → String
resource_type_of action =
    if action == action_user_update
    then resource_user
    else if action == action_sub_request_delete
        || action == action_sub_request_take
        || action == action_sub_request_untake
    then resource_sub_request
    else resource_admin

-- An action is one of the seven constants or differs from all of them.
data Known (a : String) : Type 0 where
  admin_access : a ≡ action_admin_access → Known a
  user_list : a ≡ action_user_list → Known a
  user_create : a ≡ action_user_create → Known a
  user_update : a ≡ action_user_update → Known a
  sub_delete : a ≡ action_sub_request_delete → Known a
  sub_take : a ≡ action_sub_request_take → Known a
  sub_untake : a ≡ action_sub_request_untake → Known a
  other :
      (a == action_admin_access) ≡ false
      → (a == action_user_list) ≡ false
      → (a == action_user_create) ≡ false
      → (a == action_user_update) ≡ false
      → (a == action_sub_request_delete) ≡ false
      → (a == action_sub_request_take) ≡ false
      → (a == action_sub_request_untake) ≡ false
      → Known a

known : (a : String) → Known a
known a = elim (Bool-cases (a == action_admin_access)) [
  | inl e ↦ admin_access ((string_eq.equal_iff a _).0 e)
  | inr e1 ↦ elim (Bool-cases (a == action_user_list)) [
    | inl e ↦ user_list ((string_eq.equal_iff a _).0 e)
    | inr e2 ↦ elim (Bool-cases (a == action_user_create)) [
      | inl e ↦ user_create ((string_eq.equal_iff a _).0 e)
      | inr e3 ↦ elim (Bool-cases (a == action_user_update)) [
        | inl e ↦ user_update ((string_eq.equal_iff a _).0 e)
        | inr e4 ↦ elim (Bool-cases (a == action_sub_request_delete)) [
          | inl e ↦ sub_delete ((string_eq.equal_iff a _).0 e)
          | inr e5 ↦ elim (Bool-cases (a == action_sub_request_take)) [
            | inl e ↦ sub_take ((string_eq.equal_iff a _).0 e)
            | inr e6 ↦ elim (Bool-cases (a == action_sub_request_untake)) [
              | inl e ↦ sub_untake ((string_eq.equal_iff a _).0 e)
              | inr e7 ↦ other e1 e2 e3 e4 e5 e6 e7
            ]
          ]
        ]
      ]
    ]
  ]
]

-- The baseline policies grant an action exactly when the resource has the type for that action and
-- the parity authorizer allows it, for every subject, resource and action, unknown ones included.
pub baseline-eq-parity :
    (subject : Subject) (action : String) (r : Resource)
    → any_by (matcher subject action r) baseline_policies
      ≡ ((r.type == resource_type_of action) && allowed subject action r)
unfolding matcher allowed
baseline-eq-parity s a r = elim (known a) [
  | admin_access e ↦ rw e (ground arith)
  | user_list e ↦ rw e (ground arith)
  | user_create e ↦ rw e (ground arith)
  | user_update e ↦ rw e (
      ground
        (arith, int_beq_iff r.target_user_id s.user.id, int_beq_iff s.user.id r.target_user_id))
  | sub_delete e ↦ rw e (ground arith)
  | sub_take e ↦ rw e (ground arith)
  | sub_untake e ↦ rw e (ground arith)
  | other e1 e2 e3 e4 e5 e6 e7 ↦ ground arith
]
