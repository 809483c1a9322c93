-- ===== src/Sqlite/Queries/SubRequests.antt =====
-- dbgen/subrequests.sql.gen.go
use air_cover.Base.{
  ℕ, suc, ℤ, pos, String, Bool, true, false, not, Option, none, some, List, [], ◌∷◌, ◌++◌, ◌==◌,
  int_eq, find_by, filter_by, ltb, sort_by,
}
use air_cover.Errors.{Exec, ok, ◌>>◌}
use air_cover.Domain.{Time}
use air_cover.Sqlite.Tables.{UserRow, SubRequestRow, Db, driver, largest, update_key, affected}

abbrev pub has_id : ℤ → SubRequestRow → Bool
has_id id row = row.id == id

-- `taken_by_user_id IS NULL`
abbrev pub is_null : Option ℤ → Bool
is_null none = true
is_null (some _) = false

-- `taken_by_user_id = ?`, which is no row's where the column is null
abbrev pub is_value : ℤ → Option ℤ → Bool
is_value user none = false
is_value user (some taker) = taker == user

-- `INSERT INTO sub_requests …`: the parameters are the row without its identifier.
unfoldable pub create_sub_request : SubRequestRow → Exec Db ℤ
create_sub_request row = driver >> λ db.
    let seq = suc (largest (λ (r : SubRequestRow). r.id) db.sub_request_seq db.sub_requests) in
    (
      ok (pos seq),
      record db {
        sub_requests = db.sub_requests ++ record row { id = pos seq } ∷ [];
        sub_request_seq = seq;
      },
    )

-- `SELECT … WHERE id = ?`
unfoldable pub get_sub_request_by_id : ℤ → Exec Db (Option SubRequestRow)
get_sub_request_by_id id = driver >> λ db. (ok (find_by (has_id id) db.sub_requests), db)

-- `DELETE FROM sub_requests WHERE id = ?`
unfoldable pub delete_sub_request : ℤ → Exec Db ℕ
delete_sub_request id = driver >> λ db. (
  ok (affected (has_id id) (λ _. true) db.sub_requests),
  record db { sub_requests = filter_by (λ r. not (has_id id r)) db.sub_requests },
)

abbrev pub is_open_row : SubRequestRow → Bool
is_open_row r = is_null r.taken_by_user_id

abbrev pub take_row : ℤ → Time → SubRequestRow → SubRequestRow
take_row user t r = record r { taken_by_user_id = some user; updated_at = some t }

-- `UPDATE … SET taken_by_user_id = ?, updated_at = ? WHERE id = ? AND taken_by_user_id IS NULL`
unfoldable pub take_sub_request : ℤ → Time → ℤ → Exec Db ℕ
take_sub_request user t id = driver >> λ db. (
  ok (affected (has_id id) is_open_row db.sub_requests),
  record db { sub_requests = update_key (has_id id) is_open_row (take_row user t) db.sub_requests },
)

abbrev pub is_row_taken_by : ℤ → SubRequestRow → Bool
is_row_taken_by user r = is_value user r.taken_by_user_id

abbrev pub untake_row : Time → SubRequestRow → SubRequestRow
untake_row t r = record r { taken_by_user_id = none; updated_at = some t }

-- `UPDATE … SET taken_by_user_id = NULL, updated_at = ? WHERE id = ? AND taken_by_user_id = ?`
unfoldable pub untake_sub_request : Time → ℤ → ℤ → Exec Db ℕ
untake_sub_request t id user = driver >> λ db. (
  ok (affected (has_id id) (is_row_taken_by user) db.sub_requests),
  record db {
    sub_requests = update_key (has_id id) (is_row_taken_by user) (untake_row t) db.sub_requests;
  },
)

-- A row of the two joins.
pub record JoinedRow : Type 0 where
  pub row : SubRequestRow
  pub requester_email : String
  pub taker_email : String

abbrev user_with : List UserRow → ℤ → Option UserRow
user_with users id = find_by (λ u. u.id == id) users

-- `LEFT JOIN users u2 ON sr.taken_by_user_id = u2.id`, `COALESCE(u2.email, '')`
abbrev email_or_empty : Option UserRow → String
email_or_empty none = ""
email_or_empty (some u) = u.email

abbrev taker_email : List UserRow → Option ℤ → String
taker_email users none = ""
taker_email users (some taker) = email_or_empty (user_with users taker)

join_user : List UserRow → SubRequestRow → Option UserRow → Option JoinedRow
join_user users r none = none
join_user users r (some u) = some (record {
  row = r;
  requester_email = u.email;
  taker_email = taker_email users r.taken_by_user_id;
})

-- `JOIN users u ON sr.posted_by_user_id = u.id`, for a key that is unique in `users`
unfoldable pub join_row : List UserRow → SubRequestRow → Option JoinedRow
unfolding join_user
join_row users r = join_user users r (user_with users r.posted_by_user_id)

join_found : List UserRow → Option SubRequestRow → Option JoinedRow
join_found users none = none
join_found users (some r) = join_row users r

-- `GetSubRequestDetailByID`
unfoldable pub get_sub_request_detail_by_id : ℤ → Exec Db (Option JoinedRow)
unfolding join_found
get_sub_request_detail_by_id id =
    driver >> λ db. (ok (join_found db.users (find_by (has_id id) db.sub_requests)), db)

add_joined : Option JoinedRow → List JoinedRow → List JoinedRow
add_joined none rows = rows
add_joined (some j) rows = j ∷ rows

unfoldable pub join_rows : List UserRow → List SubRequestRow → List JoinedRow
unfolding add_joined
join_rows users [] = []
join_rows users (r ∷ rows) = add_joined (join_row users r) (join_rows users rows)

abbrev pub starts_before : JoinedRow → JoinedRow → Bool
starts_before a b = ltb a.row.start_time b.row.start_time

-- `ListSubRequests`, `ORDER BY sr.start_time ASC`
unfoldable pub list_sub_requests : Exec Db (List JoinedRow)
list_sub_requests =
    driver >> λ db. (ok (sort_by starts_before (join_rows db.users db.sub_requests)), db)
