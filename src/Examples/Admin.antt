-- ===== src/Examples/Admin.antt =====
-- The administration of users over the SQLite repository, on a small database.
use mathlib.Core.Path.{subst}
use air_cover.Base.{
  pos, String, refl, ap, true, false, Option, none, some, List, [], ◌∷◌, string_eq, int_beq,
}
use air_cover.Errors.{Exec, pure, lift, ◌>>=◌, is}
use air_cover.Errors.Steps.{Stable, lift-Stable, pure-Stable}
use air_cover.Domain.{CurrentUser}
use air_cover.Authorization
use air_cover.Authorization.{Subject, Resource}
use air_cover.SubRequests.Ports.{Persona}
use air_cover.Admin.Ports.{UpdateUserInput}
use air_cover.Admin.Service
use air_cover.Admin.History.{Environment, Call, creates, imports, run}
use air_cover.Bootstrap.{ensure_master_user, look_for_master, create_master}
use air_cover.Sqlite.Tables.{Db, UserRow, driver}
use air_cover.Sqlite.Queries.Users
use air_cover.Sqlite.AuthRepository.{get_user_by_email, get_user_by_id}
use air_cover.Sqlite.AdminRepository.{create_user, import_users}
use air_cover.Sqlite.AdminRepository.Emails.{HasDistinctEmails}
use air_cover.Sqlite.AdminRepository.Imports.{Atomic, import_users-Atomic}
use air_cover.Sqlite.AdminRepository.Calls.{
  admin_service, AreOn, run-HasDistinctEmails, update_user-keeps_viewer,
}
use air_cover.Sqlite.AdminRepository.Master.{
  HasMaster, master_repository, ensure_master_user-HasMaster,
}

abbrev root : CurrentUser
root = record { id = pos 1; email = "root@example.org"; role = "admin" }

abbrev root_row : UserRow
root_row = record {
  id = pos 1;
  email = "root@example.org";
  role = some "admin";
  is_enabled = true;
  created_at = some 0;
}

abbrev database : Db
database = record {
  users = root_row ∷ [];
  user_seq = 1;
  magic_links = [];
  magic_link_seq = 0;
  sessions = [];
  sub_requests = [];
  sub_request_seq = 0;
  current_timestamp = 1000;
  faults = [];
}

abbrev pub personas : Exec Db (List Persona)
personas = pure (record { id = pos 1; name = "Dee Jay"; email = "dee@example.org" } ∷ [])

abbrev pub parity : Subject → String → Resource → Exec Db (Unit {0})
parity subject action r = lift (Authorization.authorize subject action r)

environment : Environment HasDistinctEmails (admin_service (some personas) parity)
environment = record {
  authorizer = λ subject action r. lift-Stable HasDistinctEmails _;
  catalog = λ list e.
      subst (λ m. Stable HasDistinctEmails m)
        (ap (λ (o : Option (Exec Db (List Persona))). elim o [ none ↦ personas | some l ↦ l ]) e)
        (pure-Stable HasDistinctEmails _);
}

abbrev calls : List Call
calls =
    creates root (record { email = "new@example.org"; role = "" })
    ∷ imports root
    ∷ imports root
    ∷ []

run-HasDistinctEmails_example :
    HasDistinctEmails (run (admin_service (some personas) parity) calls database)
run-HasDistinctEmails_example =
    run-HasDistinctEmails (some personas) parity environment calls database (refl, tt)

abbrev disable_self : UpdateUserInput
disable_self = record { id = pos 1; role = none; is_enabled = some false }

update_user-keeps_viewer_example :
    AreOn (pos 1) (Service.update_user (admin_service none parity) root disable_self database).1
update_user-keeps_viewer_example =
    update_user-keeps_viewer none parity root disable_self database
      (λ subject action r. lift-Stable (AreOn (pos 1)) _) (λ e. refl, tt)

import_users-Atomic_example :
    Atomic
      ("dee@example.org" ∷ "root@example.org" ∷ [])
      database
      (import_users ("dee@example.org" ∷ "root@example.org" ∷ []) database)
import_users-Atomic_example =
    import_users-Atomic ("dee@example.org" ∷ "root@example.org" ∷ []) database

ensure_master_user-HasMaster_example :
    HasMaster "boss@example.org" database.users
      (ensure_master_user master_repository "boss@example.org" database).1.users
unfolding ensure_master_user look_for_master get_user_by_email ◌>>=◌ Users.get_user_by_email driver
    is create_master create_user Users.create_user get_user_by_id Users.get_user_by_id int_beq
ensure_master_user-HasMaster_example =
    ensure_master_user-HasMaster "boss@example.org" database refl refl
