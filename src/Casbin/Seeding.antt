-- ===== src/Casbin/Seeding.antt =====
-- What start-up does to the stored policies, and what the authorizer answers afterwards.
use air_cover.Base.{
  String, ◌≡◌, refl, sym, ◌∙◌, ◌≢◌, ap, ◌⊎◌, inl, inr, Bool, true, false, ◌||◌, arith, ◌==◌,
  string_eq, any_by, Bool-cases,
}
use air_cover.Errors.{◌>>=◌, Error, Done, Result, ok, err, fail, forbidden, is, wrap}
use air_cover.Authorization
use air_cover.Authorization.{Subject, Resource, allowed}
use air_cover.Casbin.{
  Policy, Library, matcher, baseline_policies, authorize, seed_baseline_policy, decide,
}
use air_cover.Casbin.Parity.{resource_type_of, baseline-eq-parity}

or_absorb : (a b : Bool) → (a ≡ true → b ≡ true) → (a || b) ≡ b
or_absorb true b h = sym (h refl)
or_absorb false b h = refl

decide-allowed :
    (subject : Subject) (action : String) (r : Resource)
    → decide (ok (allowed subject action r)) ≡ Authorization.authorize subject action r
unfolding Authorization.authorize
decide-allowed subject action r = elim (Bool-cases (allowed subject action r)) [
  | inl e ↦ rw e
  | inr e ↦ rw e
]

-- On a resource of the action's type the baseline policies are the parity authorizer.
baseline-allowed :
    (subject : Subject) (action : String) (r : Resource)
    → (r.type == resource_type_of action) ≡ true
    → any_by (matcher subject action r) baseline_policies ≡ allowed subject action r
baseline-allowed subject action r typed = rw (baseline-eq-parity subject action r, typed)

or_true : (a : Bool) → (a || true) ≡ true
or_true true = refl
or_true false = refl

ok_ne_fail : {b : Bool} → decide (ok b) ≡ fail forbidden → b ≡ true → ⊥
ok_ne_fail h e = ground (arith, ap decide (ap {B = Result Bool} ok e))

not_forbidden : (e : Error) → ◌≡◌ {A = Done} (err e) (fail forbidden) → is e forbidden ≡ false → ⊥
unfolding is
not_forbidden e h other = ground arith

module _ (lib : Library) where
  open lib use {
    State, policies, load_policy, add_policies_ex, save_policy, enforce, enforce_lem,
    add_policies_ex_lem, save_policy_lem,
  }

  -- A successful start-up went through all three steps, from the state after the load.
  seed-steps :
      (s : State)
      → (seed_baseline_policy lib s).0 ≡ ok tt
      → ((add_policies_ex baseline_policies (load_policy s).1).0 ≡ ok tt)
        × ((seed_baseline_policy lib s).1
            ≡ (save_policy (add_policies_ex baseline_policies (load_policy s).1).1).1)
  unfolding seed_baseline_policy ◌>>=◌
  seed-steps s h = ground arith

  policies-seed :
      (s : State) (test : Policy → Bool)
      → (seed_baseline_policy lib s).0 ≡ ok tt
      → any_by test (policies (seed_baseline_policy lib s).1)
        ≡ (any_by test (policies (load_policy s).1) || any_by test baseline_policies)
  policies-seed s test h =
      let steps = seed-steps s h in
      rw (steps.1, save_policy_lem) (add_policies_ex_lem baseline_policies _ test steps.0)

  -- The enforcer itself failed, and the answer is its error, wrapped, which is no refusal.
  abbrev pub FailsInside : State → Subject → String → Resource → Type 0
  FailsInside s subject action r =
      (e : Error) × (enforce s (matcher subject action r) ≡ err e)
      × (authorize lib s subject action r ≡ err (wrap "enforce authorization policy: " e ""))
      × (is e forbidden ≡ false)

  answer :
      (s : State) (subject : Subject) (action : String) (r : Resource)
      → (authorize lib s subject action r
          ≡ decide (ok (any_by (matcher subject action r) (policies s))))
        ⊎ FailsInside s subject action r
  unfolding authorize is
  answer s subject action r = elim (enforce_lem s (matcher subject action r)) [
    | inl e ↦ inl (ap decide e)
    | inr (e, failed, other) ↦ inr (e, failed, ap decide failed, other)
  ]

  -- After a successful start-up, on a table that held nothing beyond the baseline policies, the
  -- stored-policy authorizer answers like the parity authorizer for every subject, action and
  -- resource of the type that goes with the action, unless the enforcer itself fails on that question;
  -- then the answer is the enforcer's error, wrapped, which is not a refusal.
  pub seed-eq-parity :
      (s : State) (subject : Subject) (action : String) (r : Resource)
      → ((test : Policy → Bool)
          → any_by test (policies (load_policy s).1) ≡ true
          → any_by test baseline_policies ≡ true)
      → (seed_baseline_policy lib s).0 ≡ ok tt
      → (r.type == resource_type_of action) ≡ true
      → (authorize lib (seed_baseline_policy lib s).1 subject action r
          ≡ Authorization.authorize subject action r)
        ⊎ FailsInside (seed_baseline_policy lib s).1 subject action r
  seed-eq-parity s subject action r stored done typed =
      let s' = (seed_baseline_policy lib s).1 in
      let test = matcher subject action r in
      elim (answer s' subject action r) [
        | inl e ↦ inl (
            e
            ∙ ap (λ b. decide (ok b))
                (policies-seed s test done
                  ∙ or_absorb _ _ (stored test)
                  ∙ baseline-allowed subject action r typed)
            ∙ decide-allowed subject action r)
        | inr failure ↦ inr failure
      ]

  -- Whatever other policies the table holds, start-up never leaves the authorizer refusing what
  -- the parity authorizer allows on a resource of the type that goes with the action.
  pub seed-grants_parity :
      (s : State) (subject : Subject) (action : String) (r : Resource)
      → (seed_baseline_policy lib s).0 ≡ ok tt
      → (r.type == resource_type_of action) ≡ true
      → allowed subject action r ≡ true
      → authorize lib (seed_baseline_policy lib s).1 subject action r ≢ fail forbidden
  unfolding is
  seed-grants_parity s subject action r done typed granted refused =
      let s' = (seed_baseline_policy lib s).1 in
      let test = matcher subject action r in
      elim (answer s' subject action r) [
        | inl e ↦ ok_ne_fail (sym e ∙ refused) (
            policies-seed s test done
            ∙ ap (λ b. any_by test (policies (load_policy s).1) || b)
                (baseline-allowed subject action r typed ∙ granted)
            ∙ or_true _)
        | inr (e, failed, wrapped, other) ↦ not_forbidden _ (sym wrapped ∙ refused) other
      ]
