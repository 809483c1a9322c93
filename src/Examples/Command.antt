-- ===== src/Examples/Command.antt =====
-- A server in a world that is the list of what happened to it: its database opens, its authorizer is
-- refused.
use air_cover.Base.{pos, true, false, none, some, List, [], ◌∷◌, ◌++◌}
use air_cover.Errors.{Exec, not_found, sentinel, ok, err}
use air_cover.Email.Senders.{console_sender}
use air_cover.Config.{Config}
use air_cover.Http.Message.{plain, empty_reply}
use air_cover.Command.Assembly.{Repositories, NotifierPort}
use air_cover.Command.Running.{ServerDeps, closed, ended}
use air_cover.Command.Cleanup.{
  Moment, db_opened, notifier_started, stop_begun, notifier_stopped, db_closed,
}

abbrev World : Type 0
World = List Moment

abbrev fails : {A : Type 0} → Exec World A
fails w = (err (sentinel not_found), w)

abbrev works : Exec World (Unit {0})
works w = (ok tt, w)

abbrev repositories : Repositories World
repositories = record {
  startup = record { get_user_by_email = λ email. fails; create_user = λ email role. fails };
  auth = record {
    get_user_by_email = λ email. fails;
    get_user_by_id = λ id. fails;
    create_magic_link = λ user hash expires_at. works;
    use_magic_link = λ hash now. fails;
    create_session = λ id hash user expires_at. works;
    get_session_by_token = λ hash now. fails;
    delete_sessions_by_user_id = λ user. works;
  };
  sub_requests = record {
    create_sub_request = λ request. fails;
    get_sub_request_by_id = λ id. fails;
    delete_sub_request = λ id. fails;
    take_sub_request = λ id user now. fails;
    untake_sub_request = λ id user now. fails;
    list_dashboard_sub_requests = fails;
    get_sub_request_detail_by_id = λ id. fails;
  };
  active_users = fails;
  admin = record {
    list_users = fails;
    get_user_by_email = λ email. fails;
    create_user = λ email role. fails;
    update_user = λ id role is_enabled. fails;
    import_users = λ emails. fails;
  };
}

abbrev notifier_port : NotifierPort World
notifier_port = record {
  notifier = record {
    sub_request_created = λ event. works;
    sub_request_taken = λ event. works;
    sub_request_untaken = λ event. works;
  };
  start = λ w. w ++ notifier_started ∷ [];
  begin_stop = λ w. w ++ stop_begun ∷ [];
  await_stopped = λ w. w ++ notifier_stopped ∷ [];
  select_stopped = λ timeout w. (false, w);
}

abbrev cfg : Config
cfg = record {
  port = pos 8080;
  db_uri = "air.db";
  env = "test";
  master_email = "root@example.org";
  resend_api_key = "";
  send_grid_api_key = "";
  from_email = "air@example.org";
  app_base_url = "http://localhost:8080";
  spinitron_api_url = "https://spinitron.com/api";
  trusted_proxies = [];
}

abbrev deps : ServerDeps World (Unit {0})
deps = record {
  load_config = λ w. (ok cfg, w);
  init_db = λ uri w. (ok tt, w ++ db_opened ∷ []);
  close_db = λ d w. w ++ db_closed ∷ [];
  new_db_repository = λ d. repositories;
  new_sender = λ resend_api_key send_grid_api_key from_email. console_sender;
  new_catalog = λ url. record { list_shows = fails; list_personas = fails; prefetch = works };
  new_authorizer = λ d. fails;
  new_async_notifier = λ n. notifier_port;
  machine = record {
    now_func = λ w. (1000, w);
    token_generator = λ n w. (ok "drawn", w);
    hash_token = λ token. token;
  };
  platform = record {
    split_host_port = λ s. none;
    parse_addr = λ s. none;
    parse_url = λ s. none;
    is_email = λ s. true;
    bind_id = λ s. none;
    validate = λ r. none;
    limit = λ r w. (none, w);
    unrouted = λ r. plain (empty_reply 404);
  };
  shutdown_timeout = pos 10000000000;
  spawn = λ m w. w;
  listen = λ server w. (ended closed, w);
  shutdown_server = works;
  wait_for_server = λ w. (some closed, w);
}
