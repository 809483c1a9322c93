-- ===== src/Examples/Auth.antt =====
-- The auth service over the SQLite repository, on a small database, with tokens that are their own
-- hashes and a generator that always draws the same token.
use air_cover.Base.{
  ◌+◌, pos, String, ◌≡◌, ◌≢◌, refl, sym, ap, ◌⊎◌, true, false, none, some, List, [], ◌∷◌, ◌==◌,
  string_eq, int_beq, find_by, arith,
}
use air_cover.Errors.{Result, ok, err, pure, ◌>>=◌}
use air_cover.Domain.{MagicLink, Session, CurrentUser}
use air_cover.SubRequests.Spec.{IsBroken}
use air_cover.Auth.Ports.{LoginInput, VerifiedSession, Service, clock}
use air_cover.Auth.Service.{
  session_ttl, request_login, start_session, verify_magic_link, logout, authenticate_session, issue,
}
use air_cover.Auth.Spec.{Environment, has_token, is_live, unexpired}
use air_cover.Auth.Logins.{Outcome, request_login-links}
use air_cover.Auth.Sessions.{bearer, viewer_of, authenticate-bearer}
use air_cover.Auth.Sessions.Opening.{verify-authenticates}
use air_cover.Auth.Sessions.Ending.{logout-ends}
use air_cover.Auth.History.{Call, logs_in, verifies, authenticates, run}
use air_cover.Auth.History.SingleUse.{IsInvalidLink, verify-once}
use air_cover.Sqlite.Tables.{Db, UserRow, driver}
use air_cover.Sqlite.Driver.{IsPending}
use air_cover.Sqlite.Queries.Users
use air_cover.Sqlite.Queries.Auth
use air_cover.Sqlite.AuthRepository.{
  auth_repository, use_magic_link, create_session, get_session_by_token, get_user_by_id,
  get_user_by_email,
}
use air_cover.Sqlite.AuthRepository.Reads.{view}
use air_cover.Sqlite.AuthRepository.AuthContract.{auth-contract}

abbrev pub auth_service : Service Db
auth_service = record {
  repo = auth_repository;
  sender = none;
  token_generator = λ n. pure "drawn";
  now_func = λ db. (db.current_timestamp, db);
  hash_token = λ token. token;
}

pub auth-Environment : Environment view auth_service
unfolding pure
auth-Environment = record {
  clock_keeps = λ db. record {
    users = refl;
    by_email = refl;
    links = refl;
    sessions = refl;
    pending = λ e h. h;
  };
  generator_keeps = λ n. record {
    at = λ db. record {
      users = refl;
      by_email = refl;
      links = refl;
      sessions = refl;
      pending = λ e h. h;
    };
  };
  sender_keeps = λ send to url e. cc e;
}

abbrev pub alice : UserRow
alice = record {
  id = pos 1;
  email = "alice@example.org";
  role = some "member";
  is_enabled = true;
  created_at = some 0;
}

abbrev pub mail : MagicLink
mail = record {
  id = pos 1;
  user_id = pos 1;
  token_hash = "mailed";
  expires_at = 5000;
  used_at = none;
}

abbrev pub held : Session
held = record { id = "s"; user_id = pos 1; token_hash = "held"; expires_at = 5000 }

abbrev pub database : List MagicLink → List Session → Db
database links sessions = record {
  users = alice ∷ [];
  user_seq = 1;
  magic_links = links;
  magic_link_seq = 1;
  sessions = sessions;
  sub_requests = [];
  sub_request_seq = 0;
  current_timestamp = 1000;
  faults = [];
}

abbrev pub opened : VerifiedSession
opened = record { token = "drawn"; expires_at = 1000 + session_ttl }

abbrev pub mailed_db : Db
mailed_db = database (mail ∷ []) []

abbrev login : LoginInput
login = record { email = "alice@example.org"; magic_link_url = none }

pub verify-opened_test : (verify_magic_link auth_service "mailed" mailed_db).0 ≡ ok opened
unfolding verify_magic_link clock ◌>>=◌ start_session use_magic_link Auth.use_magic_link driver
    create_session Auth.create_session
verify-opened_test = refl

drawn_other :
    (raw : String) → ◌≡◌ {A = Result String} (ok "drawn") (ok raw) → (raw == "mailed") ≡ false
drawn_other raw e =
    sym (ap (λ (r : Result String). elim r [ ok t ↦ t == "mailed" | err x ↦ false ]) e)

abbrev calls : List Call
calls = authenticates "drawn" ∷ logs_in login ∷ verifies "other" ∷ []

same_time_test :
    (auth_service.now_func
      (run auth_service calls (verify_magic_link auth_service "mailed" mailed_db).1)).0
    ≡ 1000
unfolding verify_magic_link clock ◌>>=◌ start_session use_magic_link Auth.use_magic_link driver
    create_session Auth.create_session authenticate_session get_session_by_token get_user_by_id
    get_user_by_email issue request_login Users.get_user_by_id Users.get_user_by_email
    Auth.create_magic_link Auth.get_session_by_token int_beq
same_time_test = refl

verify-once_example :
    IsInvalidLink
      (verify_magic_link auth_service "mailed"
        (run auth_service calls (verify_magic_link auth_service "mailed" mailed_db).1)).0
unfolding pure
verify-once_example =
    verify-once view auth_service auth-contract auth-Environment "mailed" calls mailed_db opened
      verify-opened_test (tt, (drawn_other, (tt, tt))) (rw same_time_test (omega arith))

time_after_test :
    (auth_service.now_func (verify_magic_link auth_service "mailed" mailed_db).1).0 ≡ 1000
unfolding verify_magic_link clock ◌>>=◌ start_session use_magic_link Auth.use_magic_link driver
    create_session Auth.create_session
time_after_test = refl

verify-authenticates_example :
    (l : MagicLink) × (find_by (is_live "mailed" 1000) (mail ∷ []) ≡ some l)
    × (opened.expires_at ≡ 1000 + session_ttl)
    × (((authenticate_session auth_service "drawn"
            (verify_magic_link auth_service "mailed" mailed_db).1).0
          ≡ viewer_of (view.users (verify_magic_link auth_service "mailed" mailed_db).1 l.user_id))
        ⊎ IsBroken
            (IsPending (verify_magic_link auth_service "mailed" mailed_db).1)
            (authenticate_session auth_service "drawn"
              (verify_magic_link auth_service "mailed" mailed_db).1).0)
verify-authenticates_example =
    verify-authenticates view auth_service auth-contract auth-Environment "mailed" mailed_db opened
      verify-opened_test (rw time_after_test (omega arith))

authenticate-bearer_example :
    ((authenticate_session auth_service "held" (database [] (held ∷ []))).0
      ≡ bearer
          (view.users (database [] (held ∷ [])))
          (unexpired 1000 (find_by (has_token "held") (held ∷ []))))
    ⊎ IsBroken
        (IsPending (database [] (held ∷ [])))
        (authenticate_session auth_service "held" (database [] (held ∷ []))).0
authenticate-bearer_example =
    authenticate-bearer view auth_service auth-contract auth-Environment "held"
      (database [] (held ∷ []))

abbrev bob_row : UserRow
bob_row = record {
  id = pos 2;
  email = "bob@example.org";
  role = some "member";
  is_enabled = true;
  created_at = some 0;
}

abbrev both : Db
both =
    record (database []
      (held ∷ record { id = "b"; user_id = pos 2; token_hash = "bobs"; expires_at = 5000 } ∷ [])) {
        users = alice ∷ bob_row ∷ [];
      }

abbrev bob : CurrentUser
bob = record { id = pos 2; email = "bob@example.org"; role = "member" }

logged_out_test : (logout auth_service (pos 1) both).0 ≡ ok tt
unfolding logout Auth.delete_sessions_by_user_id driver ◌>>=◌
logged_out_test = refl

bob_stays_test :
    (authenticate_session auth_service "bobs"
      (run auth_service (authenticates "held" ∷ []) (logout auth_service (pos 1) both).1)).0
    ≡ ok bob
unfolding logout Auth.delete_sessions_by_user_id driver ◌>>=◌ clock authenticate_session
    get_session_by_token get_user_by_id Users.get_user_by_id Auth.get_session_by_token int_beq
bob_stays_test = refl

logout-ends_example : bob.id ≢ pos 1
logout-ends_example =
    logout-ends view auth_service auth-contract auth-Environment (pos 1) (authenticates "held" ∷ [])
      "bobs" both bob logged_out_test (tt, tt) bob_stays_test

request_login-links_example :
    Outcome view auth_service login mailed_db (request_login auth_service login mailed_db).1
request_login-links_example =
    request_login-links view auth_service auth-contract auth-Environment login mailed_db
