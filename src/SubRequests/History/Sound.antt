-- ===== src/SubRequests/History/Sound.antt =====
-- The well-formedness of the requests, and that every call keeps it.
use air_cover.Base.{
  ℤ, pos, String, len, ◌≡◌, refl, ◌≢◌, ◌≤◌, ◌<◌, ◌<ℤ◌, inl, inr, false, Option, none, some, List,
  [], ◌∷◌, arith, ◌==◌, int_eq, int_beq_iff, string_eq, Bool-cases,
}
use air_cover.Errors.{Error, Result, Done, ok, err, fail, invalid}
use air_cover.Domain.{SubRequest, CurrentUser, Time}
use air_cover.SubRequests.Ports.{CreateInput, Service, action_take, action_untake}
use air_cover.SubRequests.Service.{max_create_notes_length}
use air_cover.SubRequests.Spec.{
  Row, Store, put_at, settle, Landed, RepositoryContract, Environment, take_if_open,
  untake_if_taker, taken_by, untaken, use_delete, use_take, use_untake, use_action,
}
use air_cover.SubRequests.Refinement.Creation.{IsAcceptable, posted, create-lands}
use air_cover.SubRequests.Refinement.UseCases.{delete-Realises, apply_action-lands}
use air_cover.SubRequests.History.{Call, creates, deletes, acts, call, run}

-- The parts of a request that never change while it exists.
pub record IsWellFormed (id : ℤ) (sr : SubRequest) : Type 0 where
  pub own_id : sr.id ≡ id
  pub show : pos 0 <ℤ sr.show_id
  pub ranged : sr.start_time < sr.end_time
  pub short : len sr.notes ≤ max_create_notes_length

-- Nobody substitutes for themselves.
abbrev pub IsFair : ℤ → Option ℤ → Type 0
IsFair owner none = Unit
IsFair owner (some taker) = taker ≢ owner

abbrev pub IsSoundRow : ℤ → Row → Type 0
IsSoundRow id none = Unit
IsSoundRow id (some sr) = IsWellFormed id sr × IsFair sr.posted_by_user_id sr.taken_by_user_id

pub record IsSound (st : Store) : Type 0 where
  pub at : (id : ℤ) → IsSoundRow id (st id)

put_at-IsSound :
    (id : ℤ) (v : Row) (st : Store) → IsSound st → IsSoundRow id v → IsSound (put_at id v st)
put_at-IsSound id v st sound h = record {
  at = λ j. elim (Bool-cases (j == id)) [
    | inl e ↦ rw e (rw ((int_beq_iff j id).0 e) h)
    | inr e ↦ rw e (sound.at j)
  ];
}

new-IsSoundRow :
    (viewer : CurrentUser) (input : CreateInput) (now t : Time) (id : ℤ)
    → IsAcceptable input now
    → IsSoundRow id (some (posted viewer input id t))
new-IsSoundRow viewer input now t id good =
    (record { own_id = refl; show = good.show; ranged = good.ranged; short = good.short }, tt)

pub use_delete-ok : (viewer : CurrentUser) (row v : Row) → use_delete viewer row ≡ ok v → v ≡ none
unfolding use_delete
use_delete-ok viewer none v h = cc h
use_delete-ok viewer (some sr) v h = ground arith

-- What a successful take and a successful untake say of the row before.
pub take_if_open-ok :
    (viewer : CurrentUser) (t : Time) (sr : SubRequest) (o : Option ℤ) (v : Row)
    → take_if_open viewer t sr o ≡ ok v
    → (o ≡ none)
      × ((sr.posted_by_user_id == viewer.id) ≡ false)
      × (v ≡ some (taken_by viewer.id t sr))
take_if_open-ok viewer t sr none v h = ground arith
take_if_open-ok viewer t sr (some taker) v h = cc h

pub untake_if_taker-ok :
    (viewer : CurrentUser) (t : Time) (sr : SubRequest) (o : Option ℤ) (v : Row)
    → untake_if_taker viewer t sr o ≡ ok v
    → (o ≡ some viewer.id) × (v ≡ some (untaken t sr))
untake_if_taker-ok viewer t sr none v h = cc h
untake_if_taker-ok viewer t sr (some taker) v h = ground (arith, int_beq_iff taker viewer.id)

other_user : (a b : ℤ) → (a == b) ≡ false → b ≢ a
other_user a b h e = ground (arith, int_beq_iff a b)

use_take-IsSoundRow :
    (viewer : CurrentUser) (t : Time) (id : ℤ) (row v : Row)
    → IsSoundRow id row
    → use_take viewer t row ≡ ok v
    → IsSoundRow id v
unfolding use_take
use_take-IsSoundRow viewer t id none v sound h = cc h
use_take-IsSoundRow viewer t id (some sr) v (formed, fair) h =
    let (open_now, foreign, e) = take_if_open-ok viewer t sr sr.taken_by_user_id v h in
    rw e (
      record {
        own_id = formed.own_id;
        show = formed.show;
        ranged = formed.ranged;
        short = formed.short;
      },
      other_user _ _ foreign,
    )

use_untake-IsSoundRow :
    (viewer : CurrentUser) (t : Time) (id : ℤ) (row v : Row)
    → IsSoundRow id row
    → use_untake viewer t row ≡ ok v
    → IsSoundRow id v
unfolding use_untake
use_untake-IsSoundRow viewer t id none v sound h = cc h
use_untake-IsSoundRow viewer t id (some sr) v (formed, fair) h =
    let (mine, e) = untake_if_taker-ok viewer t sr sr.taken_by_user_id v h in
    rw e (
      record {
        own_id = formed.own_id;
        show = formed.show;
        ranged = formed.ranged;
        short = formed.short;
      },
      tt,
    )

use_action-IsSoundRow :
    (viewer : CurrentUser) (action : String) (t : Time) (id : ℤ) (row v : Row)
    → IsSoundRow id row
    → use_action viewer action t row ≡ ok v
    → IsSoundRow id v
unfolding use_action
use_action-IsSoundRow viewer action t id row v sound h = elim (Bool-cases (action == action_take)) [
  | inl takes ↦ use_take-IsSoundRow viewer t id row v sound (rw takes at h)
  | inr other ↦ elim (Bool-cases (action == action_untake)) [
    | inl untakes ↦ use_untake-IsSoundRow viewer t id row v sound (rw (other, untakes) at h)
    | inr neither ↦ let bad : fail invalid ≡ ok v = rw (other, neither) at h in cc bad
  ]
]

module _ {W : Type 0} (view : W → Store) (IsFault : W → Error → Type 0) where
  -- A transition that keeps the row sound keeps all of them.
  Landed-IsSound :
      (id : ℤ) (f : Row → Result Row) (st : Store) (p : Done × W) {bad : Error → Type 0}
      → IsSound st
      → ((v : Row) → f (st id) ≡ ok v → IsSoundRow id v)
      → Landed view IsFault id f st bad p
      → IsSound (view p.1)
  Landed-IsSound id f st p sound keeps (inr (b, same)) = rw same sound
  Landed-IsSound id f st p sound keeps (inl (h, e)) = rw e (settled (f (st id)) refl)
    where
      settled : (r : Result Row) → f (st id) ≡ r → IsSound (settle id r st).1
      settled (ok v) q = put_at-IsSound id v st sound (keeps v q)
      settled (err x) q = sound

  module _ (s : Service W) (contract : RepositoryContract view IsFault s.repo)
      (env : Environment view IsFault s) where
    call-IsSound : (c : Call) (w : W) → IsSound (view w) → IsSound (view (call s c w).1)
    call-IsSound (creates viewer input) w sound =
        elim (create-lands view IsFault s contract env viewer input w) [
          | inl (done, good, added) ↦ rw added.added (
              put_at-IsSound added.id _ (view w) sound
                (new-IsSoundRow viewer input _ added.stamp added.id good))
          | inr (e, failed, why, same) ↦ rw same sound
        ]
    call-IsSound (deletes viewer id) w sound =
        Landed-IsSound id (use_delete viewer) (view w) _ sound
          (λ v h. rw (use_delete-ok viewer _ v h) tt)
          ((delete-Realises view IsFault s contract env viewer id).at w)
    call-IsSound (acts viewer id action) w sound =
        let (t, lands) = apply_action-lands view IsFault s contract env viewer id action w in
        Landed-IsSound id (use_action viewer action t) (view w) _ sound
          (λ v h. use_action-IsSoundRow viewer action t id (view w id) v (sound.at id) h) lands

    -- Through any calls of any viewers, failing or not, every stored request has its own
    -- identifier, a positive show, an end after its start, notes of at most 1000 bytes, and a taker
    -- who is not its owner.
    pub run-IsSound :
        (calls : List Call) (w : W) → IsSound (view w) → IsSound (view (run s calls w))
    run-IsSound [] w sound = sound
    run-IsSound (c ∷ calls) w sound = run-IsSound calls (call s c w).1 (call-IsSound c w sound)
