-- ===== src/Command/Running.antt =====
-- From the configuration to the end of the process. What runs at the same time, the listening and the
-- prefetch of the catalog, is behind `ServerDeps`.
use air_cover.Base.{ℤ, pos, ltb_ℤ, if◌then◌else◌, String, Option, none, some}
use air_cover.Errors.{
  Error, opaque, wrap, Result, ok, err, Exec, pure, raise, map_error, ◌>>=◌, ◌>>◌,
}
use air_cover.Authorization.{Subject, Resource}
use air_cover.Bootstrap.{ensure_master_user}
use air_cover.Recipients.{SubRequestNotifier}
use air_cover.Email.Senders.{EmailSender}
use air_cover.Config.{Config}
use air_cover.Http.Ports.{Platform}
use air_cover.Command.Assembly.{
  Repositories, CatalogPort, NotifierPort, Infrastructure, Machine, HttpServer,
  build_application_services, build_http_server,
}

-- How `ListenAndServe` ends: by the shutdown, or with an error.
pub data Ended : Type 0 where
  closed : Ended
  failed : Error → Ended

-- What `serveWithGracefulShutdown` waits for first.
pub data Waited : Type 0 where
  ended : Ended → Waited
  signalled : Waited

-- `serverDeps`. `listen` starts the server and waits for its end or a signal; `wait_for_server` is
-- `none` when the time for the shutdown is over.
pub record ServerDeps (W D : Type 0) : Type 0 where
  pub load_config : Exec W Config
  pub init_db : String → Exec W D
  pub close_db : D → W → W
  pub new_db_repository : D → Repositories W
  pub new_sender : String → String → String → EmailSender W
  pub new_catalog : String → CatalogPort W
  pub new_authorizer : D → Exec W (Subject → String → Resource → Exec W (Unit {0}))
  pub new_async_notifier : SubRequestNotifier W → NotifierPort W
  pub machine : Machine W
  pub platform : Platform W
  pub shutdown_timeout : ℤ
  pub spawn : Exec W (Unit {0}) → W → W
  pub listen : HttpServer W → W → Waited × W
  pub shutdown_server : Exec W (Unit {0})
  pub wait_for_server : W → Option Ended × W

-- `stopNotifierWithTimeout`: without a time limit it waits for the end of the notifier.
unfoldable pub stop_notifier_with_timeout :
    {W : Type 0} → Option (NotifierPort W) → ℤ → Exec W (Unit {0})
stop_notifier_with_timeout none timeout w = (ok tt, w)
stop_notifier_with_timeout (some notifier) timeout w =
    let w₁ = notifier.begin_stop w in
    let (stopped, w₂) = notifier.select_stopped timeout w₁ in
    if ltb_ℤ (pos 0) timeout
    then ((if stopped then ok tt else err (opaque "context deadline exceeded")), w₂)
    else (ok tt, notifier.await_stopped w₁)

module _ {W D : Type 0} (deps : ServerDeps W D) where
  abbrev pub infrastructure_of :
      Config → D → (Subject → String → Resource → Exec W (Unit {0})) → Infrastructure W D
  infrastructure_of cfg database authorizer =
      let repo = deps.new_db_repository database in
      let sender = deps.new_sender cfg.resend_api_key cfg.send_grid_api_key cfg.from_email in
      record {
        database = database;
        repositories = repo;
        catalog = deps.new_catalog cfg.spinitron_api_url;
        sender = sender;
        notifier = deps.new_async_notifier (record {
          users = some repo.active_users;
          sender = some sender.about_requests;
          base_url = cfg.app_base_url;
        });
        authorizer = authorizer;
      }

  abbrev assemble : Config → D → Exec W (Infrastructure W D)
  assemble cfg database = do
    authorizer ←
        map_error (λ e. wrap "failed to initialize authorization: " e "")
          (deps.new_authorizer database)
    pure (infrastructure_of cfg database authorizer)

  -- The deferred closing of `buildInfrastructure`, which a success calls off.
  abbrev pub kept_open : {A : Type 0} → D → Result A × W → Result A × W
  kept_open database (ok infra, w) = (ok infra, w)
  kept_open database (err e, w) = (err e, deps.close_db database w)

  -- `buildInfrastructure`
  unfoldable pub build_infrastructure : Config → Exec W (Infrastructure W D)
  build_infrastructure cfg =
      map_error (λ e. wrap "failed to initialize database: " e "") (deps.init_db cfg.db_uri)
      >>= λ database w. kept_open database (assemble cfg database w)

  abbrev pub result_of : Ended → Exec W (Unit {0})
  result_of closed = pure tt
  result_of (failed e) = raise e

  abbrev pub after_shutdown : Option Ended → Exec W (Unit {0})
  after_shutdown none = raise (opaque "context deadline exceeded")
  after_shutdown (some end) = result_of end

  abbrev pub wait : Exec W (Unit {0})
  wait w = let (end, w') = deps.wait_for_server w in after_shutdown end w'

  abbrev pub after_wait : Waited → Exec W (Unit {0})
  after_wait (ended end) = result_of end
  after_wait signalled =
      map_error (λ e. wrap "graceful shutdown failed: " e "") deps.shutdown_server >>= λ done. wait

  -- `serveWithGracefulShutdown`
  unfoldable pub serve_with_graceful_shutdown : HttpServer W → Exec W (Unit {0})
  serve_with_graceful_shutdown server w =
      let (waited, w') = deps.listen server w in after_wait waited w'

  -- `startCatalogPrefetch`
  abbrev start_catalog_prefetch : CatalogPort W → Exec W (Unit {0})
  start_catalog_prefetch catalog w = (ok tt, deps.spawn catalog.prefetch w)

  -- What `runServer` does between the start of the notifier and its end.
  unfoldable pub run_application : Config → Infrastructure W D → Exec W (Unit {0})
  run_application cfg infra = do
    ensure_master_user infra.repositories.startup cfg.master_email
    start_catalog_prefetch infra.catalog
    map_error (λ e. wrap "server failed to start: " e "")
        (serve_with_graceful_shutdown
          (build_http_server deps.platform cfg (build_application_services deps.machine infra)))

  -- With the two deferred calls of `runServer`: the notifier is stopped, in the time
  -- that there is, which only the log says if it was too short; then the database is closed.
  unfoldable pub run_with : Config → Infrastructure W D → Exec W (Unit {0})
  run_with cfg infra w =
      let (r, w') = run_application cfg infra (infra.notifier.start w) in
      let (stopped, w₂) =
        stop_notifier_with_timeout (some infra.notifier) deps.shutdown_timeout w' in
      (r, deps.close_db infra.database w₂)

  -- `runServer`
  unfoldable pub run_server : Exec W (Unit {0})
  run_server = do
    cfg ← map_error (λ e. wrap "failed to load configuration: " e "") deps.load_config
    infra ← build_infrastructure cfg
    run_with cfg infra
