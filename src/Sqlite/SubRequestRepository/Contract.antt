-- ===== src/Sqlite/SubRequestRepository/Contract.antt =====
-- The SQLite repository fulfils what the sub request service asks of it.
use mathlib.Core.Path.{subst, fun_ext}
use air_cover.Base.{
  ℕ, suc, ℤ, pos, ◌≡◌, refl, sym, ◌∙◌, ap, ◌⊎◌, inl, inr, Bool, Option, none, some, [], ◌∷◌, ◌++◌,
  arith, ◌==◌, int_eq, find_by, if◌then◌else◌, Bool-cases,
}
use air_cover.Errors.{Error, Result, ok, fail, not_found, conflict, continue, ◌>>=◌, ◌>>◌, pure}
use air_cover.Domain.{SubRequest, Time}
use air_cover.SubRequests.Spec.{
  Row, Store, put_at, row_take, row_untake, stored, IsBroken, Landed, Realises, RepositoryContract,
}
use air_cover.Sqlite.Tables.{Db, driver, SubRequestRow, largest, affected, update_key}
use air_cover.Sqlite.Driver.{IsPending, driver-cases}
use air_cover.Sqlite.Queries.SubRequests
use air_cover.Sqlite.Queries.SubRequests.{
  has_id, JoinedRow, is_open_row, is_row_taken_by, take_row, untake_row,
}
use air_cover.Sqlite.SubRequestRepository.{
  repository, to_row, affected_or_conflict, create_sub_request, take_sub_request,
  untake_sub_request,
}
use air_cover.Sqlite.SubRequestRepository.Rows.{
  find-update_key, find-append, find-fresh, affected-find, when_test, one_if,
}
use air_cover.Sqlite.SubRequestRepository.Landing.{
  row_of, view, row_of-if, same-view, broken, get_lem, get_keeps, detail_keeps, Landed-statement,
  put_at_same, delete_lem, look-lands,
}

-- An update of the row under the key that meets the test, and of no other.
module _ (id : ℤ) (test : SubRequestRow → Bool) (f : SubRequestRow → SubRequestRow)
    (same_key : (r : SubRequestRow) → (f r).id ≡ r.id) where
  updated-view :
      (db db' : Db)
      → db'.sub_requests ≡ update_key (has_id id) test f db.sub_requests
      → view db'
        ≡ put_at id (row_of (when_test test f (find_by (has_id id) db.sub_requests))) (view db)
  updated-view db db' e =
      fun_ext
        λ j. rw (e, find-update_key id j test f same_key db.sub_requests) (row_of-if (j == id) _ _)

  update-settles :
      (g : Row → Result Row) (db db' : Db) (o : Option SubRequestRow)
      → find_by (has_id id) db.sub_requests ≡ o
      → view db' ≡ put_at id (row_of (when_test test f o)) (view db)
      → g none ≡ fail not_found
      → ((r : SubRequestRow)
          → g (row_of (some r)) ≡ (if test r then ok (row_of (some (f r))) else fail conflict))
      → ((e : Error) → IsPending db' e → IsPending db e)
      → Landed view IsPending id g
          (view db)
          (IsPending db)
          (affected_or_conflict id (one_if test o) db')
  unfolding pure
  update-settles g db db' none e v missing hit from =
      look-lands id g (view db) (IsPending db) db'
        (v ∙ put_at_same id none (view db) (ap row_of e), from) (rw e missing)
  update-settles g db db' (some r) e v missing hit from = elim (Bool-cases (test r)) [
    | inl h ↦
        rw (h, e, hit r, h)
          (inl (refl, v ∙ ap (λ b. put_at id (row_of (some (if b then f r else r))) (view db)) h))
    | inr h ↦ rw h (
        look-lands id g (view db) (IsPending db) db'
          (
            v
                ∙ put_at_same id _ (view db)
                    (ap row_of e ∙ ap (λ b. row_of (some (if b then f r else r))) (sym h)),
            from,
          )
          (rw (e, hit r, h) refl))
  ]

take-hit :
    (user : ℤ) (t : Time) (r : SubRequestRow)
    → row_take user t (row_of (some r))
      ≡ (if is_open_row r then ok (row_of (some (take_row user t r))) else fail conflict)
take-hit user t r = ground arith

untake-hit :
    (user : ℤ) (t : Time) (r : SubRequestRow)
    → row_untake user t (row_of (some r))
      ≡ (if is_row_taken_by user r then ok (row_of (some (untake_row t r))) else fail conflict)
untake-hit user t r = ground arith

-- The two statements that update a row, with the look that follows them.
module _ (id : ℤ) (test : SubRequestRow → Bool) (f : SubRequestRow → SubRequestRow)
    (same_key : (r : SubRequestRow) → (f r).id ≡ r.id) (g : Row → Result Row)
    (missing : g none ≡ fail not_found)
    (hit : (r : SubRequestRow)
      → g (row_of (some r)) ≡ (if test r then ok (row_of (some (f r))) else fail conflict)) where
  updates : Db → Db
  updates db = record db { sub_requests = update_key (has_id id) test f db.sub_requests }

  update_lem :
      (db : Db)
      → Landed view IsPending id g (view db) (IsPending db) (
          (driver
              >> (λ db'. (
                ok (affected (has_id id) test db'.sub_requests),
                record db' { sub_requests = update_key (has_id id) test f db'.sub_requests },
              ))
              >>= affected_or_conflict id)
            db)
  unfolding ◌>>=◌ updates
  update_lem db =
      Landed-statement id g (λ db'. (ok (affected (has_id id) test db'.sub_requests), updates db'))
        (affected_or_conflict id) db
        (λ db'. rw (affected-find id test db'.sub_requests) (
          update-settles id test f same_key g db' (updates db') _ refl
            (updated-view id test f same_key db' (updates db') refl) missing hit
            (λ e h. record { text = h.text; driver_text = h.driver_text; ahead = h.ahead })))

take_lem :
    (id user : ℤ) (t : Time)
    → Realises view IsPending id (row_take user t) (take_sub_request id user t)
unfolding take_sub_request SubRequests.take_sub_request
take_lem id user t = record {
  at =
      update_lem id is_open_row (take_row user t) (λ r. refl) (row_take user t) refl
        (take-hit user t);
}

untake_lem :
    (id user : ℤ) (t : Time)
    → Realises view IsPending id (row_untake user t) (untake_sub_request id user t)
unfolding untake_sub_request SubRequests.untake_sub_request
untake_lem id user t = record {
  at =
      update_lem id (is_row_taken_by user) (untake_row t) (λ r. refl) (row_untake user t) refl
        (untake-hit user t);
}

-- What creating a request comes to.
abbrev Created : SubRequest → Store → (Error → Type 0) → Result SubRequest × Db → Type 0
Created sr st bad p =
    ((id : ℤ) × (st id ≡ none)
      × (p.0 ≡ ok (record sr { id = id }))
      × (view p.1 ≡ put_at id (some (stored id sr)) st))
    ⊎ (IsBroken bad p.0 × (view p.1 ≡ st))

appended-view :
    (new : SubRequestRow) (db db' : Db)
    → find_by (has_id new.id) db.sub_requests ≡ none
    → db'.sub_requests ≡ db.sub_requests ++ new ∷ []
    → view db' ≡ put_at new.id (row_of (some new)) (view db)
appended-view new db db' free e =
    fun_ext λ j. rw (e, find-append j new db.sub_requests free) (row_of-if (j == new.id) _ _)

next : Db → ℕ
next db = largest (λ (r : SubRequestRow). r.id) db.sub_request_seq db.sub_requests

fresh_lem : (db : Db) → find_by (has_id (pos (suc (next db)))) db.sub_requests ≡ none
unfolding next
fresh_lem db = find-fresh db.sub_request_seq (next db) db.sub_requests (omega arith)

inserted : SubRequest → Db → Db
inserted sr db = record db {
  sub_requests = db.sub_requests ++ record (to_row sr) { id = pos (suc (next db)) } ∷ [];
  sub_request_seq = suc (next db);
}

inserted_lem :
    (sr : SubRequest) (db : Db)
    → {bad : Error → Type 0}
    → Created sr (view db) bad (ok (record sr { id = pos (suc (next db)) }), inserted sr db)
unfolding inserted
inserted_lem sr db = inl (
  pos (suc (next db)),
  ap row_of (fresh_lem db),
  refl,
  appended-view (record (to_row sr) { id = pos (suc (next db)) }) db (inserted sr db) (fresh_lem db)
      refl,
)

create_lem :
    (sr : SubRequest) (db : Db) → Created sr (view db) (IsPending db) (create_sub_request sr db)
unfolding create_sub_request SubRequests.create_sub_request ◌>>=◌ pure next inserted
create_lem sr db =
    driver-cases
      (λ p.
        Created sr (view db) (IsPending db) (continue p.0 (λ id. pure (record sr { id = id })) p.1))
      (λ db'. (ok (pos (suc (next db'))), inserted sr db')) db
      (λ db' same.
        subst
          (λ st.
            Created sr st (IsPending db)
              (ok (record sr { id = pos (suc (next db')) }), inserted sr db'))
          (same-view same) (inserted_lem sr db'))
      (λ text db' same failed. inr (broken text failed, same-view same))

-- The SQLite repository reads, creates, deletes, takes and untakes requests as the service relies
-- on: each method is the transition of the one row under its identifier, or fails with an error that
-- the driver had in store and changes no row; so where no statement fails it is the transition.
pub repository-contract : RepositoryContract view IsPending repository
repository-contract = record {
  get_lem = get_lem;
  get_keeps = λ id. record { at = λ db. (get_keeps id db).0; pending = λ db. (get_keeps id db).1 };
  detail_keeps =
      λ id. record { at = λ db. (detail_keeps id db).0; pending = λ db. (detail_keeps id db).1 };
  delete_lem = delete_lem;
  take_lem = take_lem;
  untake_lem = untake_lem;
  create_lem = create_lem;
}
