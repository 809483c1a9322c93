-- ===== src/Sqlite/AdminRepository.antt =====
-- admin_repository.go
pub mod Emails
pub mod Imports
pub mod Calls
pub mod Master
use air_cover.Base.{ℕ, zero, suc, ℤ, String, Bool, Option, none, some, List, [], ◌∷◌, map}
use air_cover.Errors.{Exec, Result, Done, ok, err, fail, not_found, pure, lift, ◌>>=◌, ◌>>◌}
use air_cover.Domain.{User}
use air_cover.Admin.Ports.{Repository}
use air_cover.Sqlite.Tables.{Db, driver, user_from_sql}
use air_cover.Sqlite.Queries.Users
use air_cover.Sqlite.AuthRepository.{get_user_by_email, get_user_by_id}

unfoldable pub create_user : String → String → Exec Db User
create_user email role = do id ← Users.create_user email (some role); get_user_by_id id

unfoldable pub list_users : Exec Db (List User)
list_users = do rows ← Users.list_users; pure (map user_from_sql rows)

abbrev pub user_affected : ℕ → Done
user_affected zero = fail not_found
user_affected (suc n) = ok tt

-- The `switch` of `UpdateUser`: one statement for the columns that are given, none for none.
unfoldable pub update_user : ℤ → Option String → Option Bool → Exec Db (Unit {0})
update_user id none none = pure tt
update_user id (some role) (some is_enabled) =
    Users.update_user_role_and_enabled (some role) is_enabled id >>= λ rows.
    lift (user_affected rows)
update_user id (some role) none =
    Users.update_user_role (some role) id >>= λ rows. lift (user_affected rows)
update_user id none (some is_enabled) =
    Users.update_user_enabled is_enabled id >>= λ rows. lift (user_affected rows)

unfoldable pub import_all : List String → Exec Db (Unit {0})
import_all [] = pure tt
import_all (email ∷ emails) = Users.import_user email >> import_all emails

-- `defer tx.Rollback()`: after an error the tables are those from the beginning.
abbrev pub rolled_back : {A : Type 0} → Db → Result A × Db → Result A × Db
rolled_back db (ok a, db') = (ok a, db')
rolled_back db (err e, db') = (err e, record db { faults = db'.faults })

-- `BeginTx`, the statements, and `Commit`, each of which the driver may refuse.
unfoldable pub transaction : Exec Db (Unit {0}) → Exec Db (Unit {0})
transaction m db = rolled_back db ((driver >> m >> driver) db)

unfoldable pub import_users : List String → Exec Db (Unit {0})
import_users [] = pure tt
import_users (email ∷ emails) = transaction (import_all (email ∷ emails))

-- The port of the admin service.
abbrev pub admin_repository : Repository Db
admin_repository = record {
  list_users = list_users;
  get_user_by_email = get_user_by_email;
  create_user = create_user;
  update_user = update_user;
  import_users = import_users;
}
