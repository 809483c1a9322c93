-- ===== src/SubRequests/History/Takers.antt =====
-- A request that has a taker stays with the taker.
use air_cover.Base.{
  ℤ, String, ◌≡◌, refl, sym, ◌∙◌, ap, ◌⊎◌, inl, inr, false, none, some, List, [], ◌∷◌, ◌==◌, int_eq,
  int_beq_iff, string_eq, Bool-cases, All,
}
use air_cover.Errors.{Error, sentinel, invalid, conflict, forbidden, Result, Done, ok, err, fail}
use air_cover.Domain.{SubRequest, CurrentUser, Time}
use air_cover.SubRequests.Ports.{Service, action_take, action_untake}
use air_cover.SubRequests.Spec.{
  Row, Store, settle, Landed, RepositoryContract, Environment, may_delete, use_delete, use_take,
  use_untake, use_action,
}
use air_cover.SubRequests.Refinement.Creation.{create-lands}
use air_cover.SubRequests.Refinement.UseCases.{delete-Realises, apply_action-lands}
use air_cover.SubRequests.History.{Call, creates, deletes, acts, call, run}

-- A call that is not the taker's own, and no deletion by somebody with the right to delete.
abbrev pub IsHarmless : ℤ → SubRequest → ℤ → Call → Type 0
IsHarmless user sr id (creates viewer input) = Unit
IsHarmless user sr id (deletes viewer j) = ((id == j) ≡ false) ⊎ (may_delete viewer sr ≡ false)
IsHarmless user sr id (acts viewer j action) = ((id == j) ≡ false) ⊎ ((user == viewer.id) ≡ false)

-- At this row the transition is refused.
IsRefused : (Row → Result Row) → Row → Type 0
IsRefused f row = (e : Error) × (f row ≡ err e)

take_of_taken :
    (viewer : CurrentUser) (t : Time) (sr : SubRequest) (user : ℤ)
    → sr.taken_by_user_id ≡ some user
    → use_take viewer t (some sr) ≡ fail conflict
unfolding use_take
take_of_taken viewer t sr user taken = rw taken

untake_of_other :
    (viewer : CurrentUser) (t : Time) (sr : SubRequest) (user : ℤ)
    → sr.taken_by_user_id ≡ some user
    → (user == viewer.id) ≡ false
    → use_untake viewer t (some sr) ≡ fail forbidden
unfolding use_untake
untake_of_other viewer t sr user taken other = rw (taken, other)

action_of_other :
    (viewer : CurrentUser) (action : String) (t : Time) (sr : SubRequest) (user : ℤ)
    → sr.taken_by_user_id ≡ some user
    → (user == viewer.id) ≡ false
    → IsRefused (use_action viewer action t) (some sr)
unfolding use_action IsRefused
action_of_other viewer action t sr user taken other = elim (Bool-cases (action == action_take)) [
  | inl takes ↦ (sentinel conflict, rw takes (take_of_taken viewer t sr user taken))
  | inr no_take ↦ elim (Bool-cases (action == action_untake)) [
    | inl untakes ↦
        (sentinel forbidden, rw (no_take, untakes) (untake_of_other viewer t sr user taken other))
    | inr neither ↦ (sentinel invalid, rw (no_take, neither))
  ]
]

delete_of_other :
    (viewer : CurrentUser) (sr : SubRequest)
    → may_delete viewer sr ≡ false
    → IsRefused (use_delete viewer) (some sr)
unfolding use_delete IsRefused
delete_of_other viewer sr no_right = (sentinel forbidden, rw no_right)

apart :
    (id j : ℤ) (st : Store) {sr : SubRequest} → st id ≡ some sr → st j ≡ none → (id == j) ≡ false
apart id j st here free = elim (Bool-cases (id == j)) [
  | inl e ↦
      let both : none ≡ some _ = sym free ∙ ap st (sym ((int_beq_iff id j).0 e)) ∙ here in cc both
  | inr e ↦ e
]

at_other_row :
    (id j : ℤ) (f : Row → Result Row) (st : Store) (sr : SubRequest)
    → st id ≡ some sr
    → ((id == j) ≡ false) ⊎ IsRefused f (some sr)
    → ((id == j) ≡ false) ⊎ IsRefused f (st j)
unfolding IsRefused
at_other_row id j f st sr here (inl e) = inl e
at_other_row id j f st sr here (inr (x, h)) = elim (Bool-cases (id == j)) [
  | inl e ↦ inr (x, ap f (ap st (sym ((int_beq_iff id j).0 e)) ∙ here) ∙ h)
  | inr e ↦ inl e
]

module _ {W : Type 0} (view : W → Store) (IsFault : W → Error → Type 0) where
  settle-elsewhere :
      (id j : ℤ) (r : Result Row) (st : Store)
      → ((id == j) ≡ false) ⊎ ((e : Error) × (r ≡ err e))
      → (settle j r st).1 id ≡ st id
  settle-elsewhere id j (ok v) st (inl e) = rw e
  settle-elsewhere id j (ok v) st (inr (x, h)) = cc h
  settle-elsewhere id j (err x) st why = refl

  Landed-elsewhere :
      (id j : ℤ) (f : Row → Result Row) (st : Store) (p : Done × W) {bad : Error → Type 0}
      → ((id == j) ≡ false) ⊎ IsRefused f (st j)
      → Landed view IsFault j f st bad p
      → view p.1 id ≡ st id
  unfolding IsRefused
  Landed-elsewhere id j f st p why (inl (h, e)) =
      ap (λ (u : Store). u id) e ∙ settle-elsewhere id j (f (st j)) st why
  Landed-elsewhere id j f st p why (inr (b, e)) = ap (λ (u : Store). u id) e

  module _ (s : Service W) (contract : RepositoryContract view IsFault s.repo)
      (env : Environment view IsFault s) where
    call-keeps_taken :
        (user id : ℤ) (sr : SubRequest) (c : Call) (w : W)
        → view w id ≡ some sr
        → sr.taken_by_user_id ≡ some user
        → IsHarmless user sr id c
        → view (call s c w).1 id ≡ view w id
    call-keeps_taken user id sr (creates viewer input) w here taken harmless =
        elim (create-lands view IsFault s contract env viewer input w) [
          | inl (done, good, added) ↦
              ap (λ (u : Store). u id) added.added
              ∙ settle-elsewhere id added.id (ok _) (view w)
                  (inl (apart id added.id (view w) here added.fresh))
          | inr (e, failed, why, same) ↦ ap (λ (u : Store). u id) same
        ]
    call-keeps_taken user id sr (deletes viewer j) w here taken harmless =
        Landed-elsewhere id j (use_delete viewer) (view w) _
          (at_other_row id j (use_delete viewer) (view w) sr here (elim harmless [
            | inl e ↦ inl e
            | inr no_right ↦ inr (delete_of_other viewer sr no_right)
          ]))
          ((delete-Realises view IsFault s contract env viewer j).at w)
    call-keeps_taken user id sr (acts viewer j action) w here taken harmless =
        let (t, lands) = apply_action-lands view IsFault s contract env viewer j action w in
        Landed-elsewhere id j (use_action viewer action t) (view w) _
          (at_other_row id j (use_action viewer action t) (view w) sr here (elim harmless [
            | inl e ↦ inl e
            | inr other ↦ inr (action_of_other viewer action t sr user taken other)
          ]))
          lands

    -- Once a user has taken a request, it stays exactly as it is through any calls of any viewers,
    -- takes of the same request by others included, as long as that user does not act on it and
    -- nobody with the right to delete it deletes it.
    pub run-keeps_taken :
        (user id : ℤ) (sr : SubRequest) (calls : List Call) (w : W)
        → view w id ≡ some sr
        → sr.taken_by_user_id ≡ some user
        → All (IsHarmless user sr id) calls
        → view (run s calls w) id ≡ some sr
    run-keeps_taken user id sr [] w here taken harmless = here
    run-keeps_taken user id sr (c ∷ calls) w here taken harmless =
        run-keeps_taken user id sr calls (call s c w).1
          (call-keeps_taken user id sr c w here taken harmless.0 ∙ here) taken harmless.1
