-- ===== src/Sqlite/SubRequestRepository/Landing.antt =====
-- What the statements of subrequest_repository.go leave of the table, as a store of requests.
use mathlib.Core.Path.{subst, fun_ext}
use air_cover.Base.{
  ℤ, String, ◌≡◌, refl, sym, ◌∙◌, ap, ◌⊎◌, inl, inr, Bool, true, false, not, Option, none, some,
  ◌==◌, int_eq, int_beq_iff, find_by, if◌then◌else◌, filter_by, Bool-cases,
}
use air_cover.Errors.{
  Error, Done, Result, ok, err, fail, not_found, conflict, sentinel, opaque, Exec, continue, ◌>>=◌,
  ◌>>◌, raise, lift,
}
use air_cover.Domain.{SubRequest}
use air_cover.SubRequests.Spec.{Row, Store, put_at, found, row_delete, IsBroken, Landed, Realises}
use air_cover.SubRequests.Refinement.Rules.{IsBroken-from}
use air_cover.Sqlite.Tables.{Db, driver, SubRequestRow, sub_request_from_sql, affected}
use air_cover.Sqlite.Driver.{SameTables, IsPending, driver-cases, opaque-IsOther}
use air_cover.Sqlite.Queries.SubRequests
use air_cover.Sqlite.Queries.SubRequests.{
  has_id, JoinedRow, is_open_row, is_row_taken_by, take_row, untake_row,
}
use air_cover.Sqlite.SubRequestRepository.{
  found_row, found_joined, some_affected, get_sub_request_by_id, delete_sub_request,
  get_sub_request_detail_by_id,
}
use air_cover.Sqlite.SubRequestRepository.Rows.{find-filter, affected-find, one_if}

abbrev pub row_of : Option SubRequestRow → Row
row_of none = none
row_of (some r) = some (sub_request_from_sql r)

-- The requests that the table holds.
abbrev pub view : Db → Store
view db id = row_of (find_by (has_id id) db.sub_requests)

pub row_of-if :
    (b : Bool) (x y : Option SubRequestRow)
    → row_of (if b then x else y) ≡ (if b then row_of x else row_of y)
row_of-if true x y = refl
row_of-if false x y = refl

pub same-view : {a b : Db} → SameTables a b → view b ≡ view a
same-view same = ap (λ rows id. row_of (find_by (has_id id) rows)) same.sub_requests

found-row_of : (r : Option SubRequestRow) → found_row r ≡ found (row_of r)
found-row_of none = refl
found-row_of (some r) = refl

pub broken :
    {A : Type 0} {db : Db} (text : String)
    → IsPending db (opaque text)
    → IsBroken {A = A} (IsPending db) (err (opaque text))
broken text failed = (opaque text, refl, opaque-IsOther text, failed)

pub get_lem :
    (id : ℤ) (db : Db)
    → ((get_sub_request_by_id id db).0 ≡ found (view db id))
      ⊎ IsBroken (IsPending db) (get_sub_request_by_id id db).0
unfolding get_sub_request_by_id SubRequests.get_sub_request_by_id ◌>>=◌
get_lem id db =
    driver-cases
      (λ p.
        ((continue p.0 (λ row. lift (found_row row)) p.1).0 ≡ found (view db id))
        ⊎ IsBroken (IsPending db) (continue p.0 (λ row. lift (found_row row)) p.1).0)
      _ db (λ db' same. inl (found-row_of _ ∙ ap (λ (st : Store). found (st id)) (same-view same)))
      (λ text db' same failed. inr (broken text failed))

-- The requests are the same, and the driver has nothing more in store.
abbrev pub Kept : Db → Db → Type 0
Kept a b = (view b ≡ view a) × ((e : Error) → IsPending b e → IsPending a e)

kept : {a b : Db} → SameTables a b → Kept a b
kept same = (same-view same, same.pending)

pub get_keeps : (id : ℤ) (db : Db) → Kept db (get_sub_request_by_id id db).1
unfolding get_sub_request_by_id SubRequests.get_sub_request_by_id ◌>>=◌
get_keeps id db =
    driver-cases (λ p. Kept db (continue p.0 (λ row. lift (found_row row)) p.1).1) _ db
      (λ db' same. kept same) (λ text db' same failed. kept same)

pub detail_keeps : (id : ℤ) (db : Db) → Kept db (get_sub_request_detail_by_id id db).1
unfolding get_sub_request_detail_by_id SubRequests.get_sub_request_detail_by_id ◌>>=◌
detail_keeps id db =
    driver-cases (λ p. Kept db (continue p.0 (λ j. lift (found_joined j)) p.1).1) _ db
      (λ db' same. kept same) (λ text db' same failed. kept same)

-- What follows a statement has landed if it has from the tables that the statement met.
module _ {A : Type 0} (id : ℤ) (g : Row → Result Row) (k : Exec Db A) (f : A → Exec Db (Unit {0}))
    (db : Db) where
  from_start :
      (db db' : Db)
      → SameTables db db'
      → (p : Done × Db) → Landed view IsPending id g (view db') (IsPending db') p
      → Landed view IsPending id g (view db) (IsPending db) p
  from_start db db' same p (inl h) =
      subst (λ st. Landed view IsPending id g st (IsPending db) p) (same-view same) (inl h)
  from_start db db' same p (inr (b, v)) = inr (IsBroken-from same.pending b, v ∙ same-view same)

  pub Landed-statement :
      ((db' : Db) → Landed view IsPending id g (view db') (IsPending db') ((k >>= f) db'))
      → Landed view IsPending id g (view db) (IsPending db) ((driver >> k >>= f) db)
  unfolding ◌>>=◌
  Landed-statement runs =
      driver-cases (λ p. Landed view IsPending id g (view db) (IsPending db) (continue p.0 f p.1)) k
        db (λ db' same. from_start db db' same ((k >>= f) db') (runs db'))
        (λ text db' same failed. inr (broken text failed, same-view same))

pub put_at_same : (id : ℤ) (v : Row) (st : Store) → st id ≡ v → put_at id v st ≡ st
put_at_same id v st h = fun_ext λ j. elim (Bool-cases (j == id)) [
  | inl e ↦ rw e (sym h ∙ ap st (sym ((int_beq_iff j id).0 e)))
  | inr e ↦ rw e
]

deleted-view :
    (id : ℤ) (db db' : Db)
    → db'.sub_requests ≡ filter_by (λ r. not (has_id id r)) db.sub_requests
    → view db' ≡ put_at id none (view db)
deleted-view id db db' e =
    fun_ext λ j. rw (e, find-filter id j db.sub_requests) (row_of-if (j == id) _ _)

delete-settles :
    (id : ℤ) (db db' : Db) (o : Option SubRequestRow)
    → find_by (has_id id) db.sub_requests ≡ o
    → view db' ≡ put_at id none (view db)
    → Landed view IsPending id row_delete
        (view db)
        (IsPending db)
        (some_affected (one_if (λ _. true) o), db')
delete-settles id db db' none e v =
    inl (rw e refl, rw e (v ∙ put_at_same id none (view db) (ap row_of e)))
delete-settles id db db' (some r) e v = inl (rw e refl, rw e v)

pub delete_lem : (id : ℤ) → Realises view IsPending id row_delete (delete_sub_request id)
unfolding delete_sub_request SubRequests.delete_sub_request ◌>>=◌
delete_lem id = record {
  at = λ db.
      Landed-statement id row_delete
        (λ db'. (
          ok (affected (has_id id) (λ _. true) db'.sub_requests),
          record db' { sub_requests = filter_by (λ r. not (has_id id r)) db'.sub_requests },
        ))
        (λ rows. lift (some_affected rows)) db
        (λ db'. rw (affected-find id (λ _. true) db'.sub_requests) (
          delete-settles id db'
            (record db' { sub_requests = filter_by (λ r. not (has_id id r)) db'.sub_requests }) _
            refl
            (deleted-view id db'
              (record db' { sub_requests = filter_by (λ r. not (has_id id r)) db'.sub_requests })
              refl)));
}

-- What a look at the row says of a statement that affected none.
abbrev miss : Row → Result Row
miss none = fail not_found
miss (some _) = fail conflict

module _ (id : ℤ) (g : Row → Result Row) (st : Store) (bad : Error → Type 0) where
  after-look :
      (r : Result SubRequest) (db : Db) (v : Row)
      → (r ≡ found v) ⊎ IsBroken bad r
      → view db ≡ st
      → g (st id) ≡ miss v
      → Landed view IsPending id g st bad (continue r (λ _. raise (sentinel conflict)) db)
  unfolding raise
  after-look r db v (inr (e, h, other, b)) same m = rw h (inr ((e, refl, other, b), same))
  after-look r db none (inl h) same m = rw (h, m) (inl (refl, same))
  after-look r db (some sr) (inl h) same m = rw (h, m) (inl (refl, same))

  pub look-lands :
      (db : Db)
      → (view db ≡ st) × ((e : Error) → IsPending db e → bad e)
      → g (st id) ≡ miss (st id)
      → Landed view IsPending id g st bad
          ((get_sub_request_by_id id >> raise (sentinel conflict)) db)
  unfolding ◌>>=◌
  look-lands db (same, from) m =
      after-look (get_sub_request_by_id id db).0 (get_sub_request_by_id id db).1 (view db id)
        (broken_from (get_lem id db)) ((get_keeps id db).0 ∙ same)
        (m ∙ ap (λ (s : Store). miss (s id)) (sym same))
    where
      broken_from :
          {r : Result SubRequest}
          → (r ≡ found (view db id)) ⊎ IsBroken (IsPending db) r
          → (r ≡ found (view db id)) ⊎ IsBroken bad r
      broken_from (inl h) = inl h
      broken_from (inr b) = inr (IsBroken-from from b)
