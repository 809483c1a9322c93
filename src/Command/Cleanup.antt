-- ===== src/Command/Cleanup.antt =====
-- What was opened is closed again, however the server ends.
use air_cover.Base.{ℤ, pos, ◌<ℤ◌, true, false, String, ◌≡◌, ◌⊎◌, List, [], ◌∷◌, ◌++◌, string_eq}
use air_cover.Errors.{Error, wrap, Result, ok, err, Exec}
use air_cover.Errors.Steps.{Stable}
use air_cover.Authorization.{Subject, Resource}
use air_cover.Recipients.{SubRequestNotifier}
use air_cover.Config.{Config}
use air_cover.Command.Assembly.{Infrastructure, HttpServer}
use air_cover.Command.Running.{ServerDeps, infrastructure_of}

pub data Moment : Type 0 where
  db_opened notifier_started stop_begun notifier_stopped db_closed : Moment

module _ {W D : Type 0} (deps : ServerDeps W D) (trace : W → List Moment) where
  abbrev Silent : {A : Type 0} → Exec W A → Type 0
  Silent m = (t : List Moment) → Stable (λ w. trace w ≡ t) m

  -- The trace of a world has what opens and closes the database, and starts and stops the notifier.
  -- A wait for the notifier ends when it has stopped, or leaves the trace as it is when time is up.
  pub record Traced : Type 0 where
    pub load_lem : Silent deps.load_config
    pub init_lem :
        (uri : String) (w : W)
        → let p = deps.init_db uri w in
          ((d : D) × (p.0 ≡ ok d) × (trace p.1 ≡ trace w ++ db_opened ∷ []))
          ⊎ ((e : Error) × (p.0 ≡ err e) × (trace p.1 ≡ trace w))
    pub close_lem : (d : D) (w : W) → trace (deps.close_db d w) ≡ trace w ++ db_closed ∷ []
    pub authorizer_lem : (d : D) → Silent (deps.new_authorizer d)
    pub start_lem :
        (n : SubRequestNotifier W) (w : W)
        → trace ((deps.new_async_notifier n).start w) ≡ trace w ++ notifier_started ∷ []
    pub begin_lem :
        (n : SubRequestNotifier W) (w : W)
        → trace ((deps.new_async_notifier n).begin_stop w) ≡ trace w ++ stop_begun ∷ []
    pub await_lem :
        (n : SubRequestNotifier W) (w : W)
        → trace ((deps.new_async_notifier n).await_stopped w) ≡ trace w ++ notifier_stopped ∷ []
    pub select_lem :
        (n : SubRequestNotifier W) (timeout : ℤ) (w : W)
        → let p = (deps.new_async_notifier n).select_stopped timeout w in
          ((p.0 ≡ true) × (trace p.1 ≡ trace w ++ notifier_stopped ∷ []))
          ⊎ ((p.0 ≡ false) × (trace p.1 ≡ trace w))
    pub user_lem :
        (d : D) (email : String)
        → Silent ((deps.new_db_repository d).startup.get_user_by_email email)
    pub create_lem :
        (d : D) (email role : String)
        → Silent ((deps.new_db_repository d).startup.create_user email role)
    pub spawn_lem : (m : Exec W (Unit {0})) (w : W) → trace (deps.spawn m w) ≡ trace w
    pub listen_lem : (server : HttpServer W) (w : W) → trace (deps.listen server w).1 ≡ trace w
    pub shutdown_lem : Silent deps.shutdown_server
    pub wait_lem : (w : W) → trace (deps.wait_for_server w).1 ≡ trace w

  -- What stopping the notifier and closing the database adds: where there is a time limit, the
  -- notifier may still be at work.
  abbrev pub Stops : List Moment → W → Type 0
  Stops t w =
      (trace w ≡ t ++ stop_begun ∷ notifier_stopped ∷ db_closed ∷ [])
      ⊎ ((pos 0 <ℤ deps.shutdown_timeout) × (trace w ≡ t ++ stop_begun ∷ db_closed ∷ []))

  -- What a run added to the trace; only a run that went wrong ends before the notifier was started.
  abbrev pub CleansUp : List Moment → Result (Unit {0}) × W → Type 0
  CleansUp t p =
      (((e : Error) × (p.0 ≡ err e)) × (trace p.1 ≡ t))
      ⊎ (((e : Error) × (p.0 ≡ err e)) × (trace p.1 ≡ t ++ db_opened ∷ db_closed ∷ []))
      ⊎ Stops (t ++ db_opened ∷ notifier_started ∷ []) p.1

  module _ (traced : Traced) where
    abbrev startup : D → air_cover.Bootstrap.Repository W
    startup d = (deps.new_db_repository d).startup

    abbrev built :
        Config → D → (Subject → String → Resource → Exec W (Unit {0})) → Infrastructure W D
    built cfg d authorizer = infrastructure_of deps cfg d authorizer

    abbrev on_authorizer : Error → Error
    on_authorizer e = wrap "failed to initialize authorization: " e ""
