-- ===== src/Examples/SubRequests.antt =====
-- The service over the SQLite repository and the parity authorizer, on a small database.
use mathlib.Core.Path.{subst}
use air_cover.Base.{
  ap, arith, int_beq, ℤ, pos, ◌≡◌, refl, inl, inr, true, Option, none, some, List, [], ◌∷◌,
}
use air_cover.Errors.{fail, invalid, lift, pure}
use air_cover.Domain.{CurrentUser, Time}
use air_cover.Authorization
use air_cover.SubRequests.Ports.{Detail, Dashboard, CreateInput, Notifier, Service, Show}
use air_cover.SubRequests.Service.{create, delete}
use air_cover.SubRequests.Actions.{apply_action}
use air_cover.SubRequests.Spec.{Keeps, Landed, Realises, Environment, use_delete, use_action}
use air_cover.SubRequests.Refinement.UseCases.{delete-Realises, apply_action-lands}
use air_cover.SubRequests.Refinement.Creation.{Created, create-invalid, create-lands}
use air_cover.SubRequests.Dashboard.{can_take}
use air_cover.SubRequests.Shows.{show_title}
use air_cover.Base.{false}
use air_cover.SubRequests.History.{Call, creates, deletes, acts, run}
use air_cover.SubRequests.History.Sound.{IsSound, run-IsSound}
use air_cover.SubRequests.History.Takers.{run-keeps_taken}
use air_cover.Sqlite.Tables.{Db, UserRow, SubRequestRow, sub_request_from_sql}
use air_cover.Sqlite.Driver.{IsPending}
use air_cover.Sqlite.SubRequestRepository as SqliteRepository
use air_cover.Sqlite.SubRequestRepository.{repository}
use air_cover.Sqlite.Queries.SubRequests as SubRequestQueries
use air_cover.Sqlite.SubRequestRepository.Landing.{view}
use air_cover.Sqlite.SubRequestRepository.Contract.{repository-contract}

abbrev pub service : Service Db
service = record {
  repo = repository;
  catalog = some (pure (record { id = "7"; title = "Night Drive" } ∷ []));
  notifier = some (record {
    sub_request_created = λ e. pure tt;
    sub_request_taken = λ e. pure tt;
    sub_request_untaken = λ e. pure tt;
  });
  authorizer = λ subject action r. lift (Authorization.authorize subject action r);
  now_func = λ db. (db.current_timestamp, db);
}

abbrev or_else : {A : Type 0} → A → Option A → A
or_else a none = a
or_else a (some b) = b

pub environment : Environment view IsPending service
unfolding lift pure
environment = record {
  clock_keeps = λ w. refl;
  clock_pending = λ w e h. h;
  catalog_keeps = λ shows e.
      subst (λ m. Keeps view IsPending m) (ap (or_else shows) e)
        (record { at = λ w. refl; pending = λ w e h. h });
  created_keeps = λ n event e.
      subst (λ (n : Notifier Db). Keeps view IsPending (n.sub_request_created event))
        (ap (or_else n) e) (record { at = λ w. refl; pending = λ w e h. h });
  taken_keeps = λ n event e.
      subst (λ (n : Notifier Db). Keeps view IsPending (n.sub_request_taken event))
        (ap (or_else n) e) (record { at = λ w. refl; pending = λ w e h. h });
  untaken_keeps = λ n event e.
      subst (λ (n : Notifier Db). Keeps view IsPending (n.sub_request_untaken event))
        (ap (or_else n) e) (record { at = λ w. refl; pending = λ w e h. h });
  authorizer_keeps = λ subject action r. record { at = λ w. refl; pending = λ w e h. h };
  authorizer_lem = λ subject action r w. inl refl;
}

abbrev pub alice : CurrentUser
alice = record { id = pos 1; email = "alice@example.org"; role = "member" }

abbrev pub bob : CurrentUser
bob = record { id = pos 2; email = "bob@example.org"; role = "member" }

abbrev pub carol : CurrentUser
carol = record { id = pos 3; email = "carol@example.org"; role = "member" }

abbrev user_row : CurrentUser → UserRow
user_row u = record {
  id = u.id;
  email = u.email;
  role = some u.role;
  is_enabled = true;
  created_at = some 0;
}

abbrev pub row : Option ℤ → SubRequestRow
row taker = record {
  id = pos 1;
  show_id = pos 7;
  posted_by_user_id = pos 1;
  taken_by_user_id = taker;
  start_time = 2000;
  end_time = 3000;
  notes = some "cover me";
  created_at = some 10;
  updated_at = some 10;
}

abbrev pub database : List SubRequestRow → Db
database rows = record {
  users = user_row alice ∷ user_row bob ∷ user_row carol ∷ [];
  user_seq = 3;
  magic_links = [];
  magic_link_seq = 0;
  sessions = [];
  sub_requests = rows;
  sub_request_seq = 1;
  current_timestamp = 1000;
  faults = [];
}

abbrev input : CreateInput
input = record { show_id = pos 7; start_time = 2000; end_time = 3000; notes = "cover me" }

delete-Realises_example :
    Realises view IsPending (pos 1) (use_delete alice) (delete service alice (pos 1))
delete-Realises_example =
    delete-Realises view IsPending service repository-contract environment alice (pos 1)

apply_action-lands_example :
    (t : Time) × Landed view IsPending
      (pos 1)
      (use_action bob "take" t)
      (view (database (row none ∷ [])))
      (IsPending (database (row none ∷ [])))
      (apply_action service bob (pos 1) "take" (database (row none ∷ [])))
apply_action-lands_example =
    apply_action-lands view IsPending service repository-contract environment bob (pos 1) "take"
      (database (row none ∷ []))

abbrev backwards : CreateInput
backwards = record input { end_time = 1500 }

create-invalid_example :
    ((create service alice backwards (database [])).0 ≡ fail invalid)
    × (view (create service alice backwards (database [])).1 ≡ view (database []))
create-invalid_example =
    create-invalid view IsPending service repository-contract environment alice backwards
      (database []) (λ good. ground (arith, good.ranged))

create-lands_example :
    Created view IsPending service alice input
      (database [])
      (create service alice input (database []))
create-lands_example =
    create-lands view IsPending service repository-contract environment alice input (database [])

run-IsSound_example :
    IsSound (view (run service (creates alice input ∷ acts bob (pos 2) "take" ∷ []) (database [])))
run-IsSound_example =
    run-IsSound view IsPending service repository-contract environment
      (creates alice input ∷ acts bob (pos 2) "take" ∷ []) (database []) (record { at = λ id. tt })

abbrev calls : List Call
calls = acts carol (pos 1) "take" ∷ deletes carol (pos 1) ∷ creates carol input ∷ []

run-keeps_taken_example :
    view (run service calls (database (row (some (pos 2)) ∷ []))) (pos 1)
    ≡ some (sub_request_from_sql (row (some (pos 2))))
unfolding int_beq
run-keeps_taken_example =
    run-keeps_taken view IsPending service repository-contract environment (pos 2) (pos 1)
      (sub_request_from_sql (row (some (pos 2)))) calls (database (row (some (pos 2)) ∷ [])) refl
      refl (inr refl, (inr refl, (tt, tt)))

abbrev pub night_drive : Show
night_drive = record { id = "7"; title = "Night Drive" }

abbrev shown : Detail
shown = record {
  request = sub_request_from_sql (row none);
  requester_email = "alice@example.org";
  taker_email = "";
  show_title = "Night Drive";
  can_delete = false;
  can_take = true;
  can_untake = false;
  is_past = false;
}

abbrev dashboard : Dashboard
dashboard = record { shows = night_drive ∷ []; upcoming = shown ∷ []; past = [] }
