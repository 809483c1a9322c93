-- ===== src/Sqlite/Queries/Users.antt =====
-- dbgen/users.sql.gen.go. The column `users.email` is unique.
use air_cover.Base.{
  ℕ, suc, ℤ, pos, String, Bool, true, false, Option, none, some, List, [], ◌∷◌, ◌++◌, ◌==◌, int_eq,
  string_eq, find_by, filter_by, any_by, ltb, str_ltb, sort_by,
}
use air_cover.Errors.{Exec, ok, err, opaque, ◌>>◌}
use air_cover.Domain.{Time}
use air_cover.Sqlite.Tables.{UserRow, Db, driver, largest, update_key, affected}

abbrev pub has_user_id : ℤ → UserRow → Bool
has_user_id id u = u.id == id

abbrev pub has_email : String → UserRow → Bool
has_email email u = u.email == email

abbrev pub next_user : Db → ℕ
next_user db = suc (largest (λ (u : UserRow). u.id) db.user_seq db.users)

-- The row of an `INSERT` of an email and a role: the other columns have their defaults.
abbrev pub new_user_row : Db → String → Option String → UserRow
new_user_row db email role = record {
  id = pos (next_user db);
  email = email;
  role = role;
  is_enabled = true;
  created_at = some db.current_timestamp;
}

abbrev pub add_user : String → Option String → Db → Db
add_user email role db = record db {
  users = db.users ++ new_user_row db email role ∷ [];
  user_seq = next_user db;
}

abbrev pub insert_user : String → Option String → Bool → Exec Db ℤ
insert_user email role true db = (err (opaque "UNIQUE constraint failed: users.email"), db)
insert_user email role false db = (ok (pos (next_user db)), add_user email role db)

-- `INSERT INTO users (email, role) VALUES (?, ?)`
unfoldable pub create_user : String → Option String → Exec Db ℤ
create_user email role =
    driver >> λ db. insert_user email role (any_by (has_email email) db.users) db

-- `SELECT … WHERE email = ?`
unfoldable pub get_user_by_email : String → Exec Db (Option UserRow)
get_user_by_email email = driver >> λ db. (ok (find_by (has_email email) db.users), db)

-- `SELECT … WHERE id = ?`
unfoldable pub get_user_by_id : ℤ → Exec Db (Option UserRow)
get_user_by_id id = driver >> λ db. (ok (find_by (has_user_id id) db.users), db)

abbrev pub import_if_new : String → Bool → Exec Db (Unit {0})
import_if_new email true db = (ok tt, db)
import_if_new email false db = (ok tt, add_user email (some "member") db)

-- `INSERT … ON CONFLICT (email) DO NOTHING`
unfoldable pub import_user : String → Exec Db (Unit {0})
import_user email = driver >> λ db. import_if_new email (any_by (has_email email) db.users) db

abbrev pub email_before : UserRow → UserRow → Bool
email_before a b = str_ltb a.email b.email

-- `SELECT … WHERE is_enabled = true ORDER BY email ASC`
unfoldable pub list_active_users : Exec Db (List UserRow)
list_active_users =
    driver >> λ db. (ok (sort_by email_before (filter_by (λ u. u.is_enabled) db.users)), db)

-- `ORDER BY created_at DESC`, where null is below every instant
abbrev pub is_later : Option Time → Option Time → Bool
is_later none b = false
is_later (some a) none = true
is_later (some a) (some b) = ltb b a

abbrev pub created_later : UserRow → UserRow → Bool
created_later a b = is_later a.created_at b.created_at

unfoldable pub list_users : Exec Db (List UserRow)
list_users = driver >> λ db. (ok (sort_by created_later db.users), db)

-- `UPDATE users SET … WHERE id = ?`
abbrev pub update_user : ℤ → (UserRow → UserRow) → Exec Db ℕ
update_user id f = driver >> λ db. (
  ok (affected (has_user_id id) (λ _. true) db.users),
  record db { users = update_key (has_user_id id) (λ _. true) f db.users },
)

unfoldable pub update_user_enabled : Bool → ℤ → Exec Db ℕ
update_user_enabled is_enabled id = update_user id (λ u. record u { is_enabled = is_enabled })

unfoldable pub update_user_role : Option String → ℤ → Exec Db ℕ
update_user_role role id = update_user id (λ u. record u { role = role })

unfoldable pub update_user_role_and_enabled : Option String → Bool → ℤ → Exec Db ℕ
update_user_role_and_enabled role is_enabled id =
    update_user id (λ u. record u { role = role; is_enabled = is_enabled })
