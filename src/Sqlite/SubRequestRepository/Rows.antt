-- ===== src/Sqlite/SubRequestRepository/Rows.antt =====
-- What the statements on the table of sub requests do to the row under one identifier.
use air_cover.Base.{
  ℕ, suc, ◌≤◌, ℤ, pos, ◌≡◌, refl, Bool, not, Option, none, some, List, [], ◌∷◌, ◌++◌, arith, ◌==◌,
  int_eq, int_beq_iff, find_by, filter_by, if◌then◌else◌,
}
use air_cover.Sqlite.Tables.{SubRequestRow, largest, update_key, affected}
use air_cover.Sqlite.Queries.SubRequests.{has_id}

abbrev pub when_test :
    (SubRequestRow → Bool)
    → (SubRequestRow → SubRequestRow)
    → Option SubRequestRow
    → Option SubRequestRow
when_test test f none = none
when_test test f (some r) = some (if test r then f r else r)

pub find-update_key :
    (id j : ℤ) (test : SubRequestRow → Bool) (f : SubRequestRow → SubRequestRow)
    → ((r : SubRequestRow) → (f r).id ≡ r.id)
    → (rows : List SubRequestRow)
    → find_by (has_id j) (update_key (has_id id) test f rows)
      ≡ (if j == id then when_test test f (find_by (has_id id) rows) else find_by (has_id j) rows)
find-update_key id j test f same [] = ground arith
find-update_key id j test f same (r ∷ rows) = ground (
  arith,
  find-update_key id j test f same rows,
  same r,
  int_beq_iff r.id id,
  int_beq_iff r.id j,
  int_beq_iff (f r).id j,
  int_beq_iff j id,
)

pub find-filter :
    (id j : ℤ) (rows : List SubRequestRow)
    → find_by (has_id j) (filter_by (λ r. not (has_id id r)) rows)
      ≡ (if j == id then none else find_by (has_id j) rows)
find-filter id j [] = ground arith
find-filter id j (r ∷ rows) =
    ground (arith, find-filter id j rows, int_beq_iff r.id id, int_beq_iff r.id j, int_beq_iff j id)

pub find-append :
    (j : ℤ) (new : SubRequestRow) (rows : List SubRequestRow)
    → find_by (has_id new.id) rows ≡ none
    → find_by (has_id j) (rows ++ new ∷ [])
      ≡ (if j == new.id then some new else find_by (has_id j) rows)
find-append j new [] free = ground (arith, int_beq_iff new.id j, int_beq_iff j new.id)
find-append j new (r ∷ rows) free = ground (
  arith,
  find-append j new rows,
  int_beq_iff r.id new.id,
  int_beq_iff r.id j,
  int_beq_iff j new.id,
)

-- An identifier beyond the largest is free.
pub find-fresh :
    (seq n : ℕ) (rows : List SubRequestRow)
    → largest (λ (r : SubRequestRow). r.id) seq rows ≤ n
    → find_by (has_id (pos (suc n))) rows ≡ none
find-fresh seq n [] h = refl
find-fresh seq n (r ∷ rows) h =
    ground (arith, find-fresh seq n rows, int_beq_iff r.id (pos (suc n)))

abbrev pub one_if : (SubRequestRow → Bool) → Option SubRequestRow → ℕ
one_if test none = 0
one_if test (some r) = if test r then 1 else 0

-- The number of rows that a statement on a key affects.
pub affected-find :
    (id : ℤ) (test : SubRequestRow → Bool) (rows : List SubRequestRow)
    → affected (has_id id) test rows ≡ one_if test (find_by (has_id id) rows)
affected-find id test [] = refl
affected-find id test (r ∷ rows) = ground (arith, affected-find id test rows)
