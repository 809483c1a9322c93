-- ===== src/Command/Assembly.antt =====
-- The services over the infrastructure, and the HTTP server over the services. What the services take
-- of the machine, the clock and the generator and the hash of tokens, is a record of its own.
use air_cover.Base.{ℕ, ℤ, Bool, String, ◌<>◌, some, List, of_int}
use air_cover.Errors.{Exec}
use air_cover.Domain.{User, Time}
use air_cover.Authorization.{Subject, Resource}
use air_cover.SubRequests.Ports.{Show, Persona, Notifier}
use air_cover.SubRequests.Ports as SubRequestPorts
use air_cover.Auth.Ports as AuthPorts
use air_cover.Admin.Ports as AdminPorts
use air_cover.Bootstrap as Bootstrap
use air_cover.Email.Senders.{EmailSender}
use air_cover.Config.{Config}
use air_cover.Http.Message.{Request, Response}
use air_cover.Http.Ports.{Platform}
use air_cover.Http.Services.{auth_of, sub_requests_of, admin_of}
use air_cover.Http.Router.{serve}

-- `repositories`
pub record Repositories (W : Type 0) : Type 0 where
  pub startup : Bootstrap.Repository W
  pub auth : AuthPorts.Repository W
  pub sub_requests : SubRequestPorts.Repository W
  pub active_users : Exec W (List User)
  pub admin : AdminPorts.Repository W

-- `catalog`, with the method that `startCatalogPrefetch` looks for.
pub record CatalogPort (W : Type 0) : Type 0 where
  pub list_shows : Exec W (List Show)
  pub list_personas : Exec W (List Persona)
  pub prefetch : Exec W (Unit {0})

-- `asyncNotifier`. `Stop` runs beside the program: `begin_stop` starts it in its own goroutine,
-- `await_stopped` waits until it has returned, and `select_stopped` waits for that or for the time
-- to run out, whichever comes first, and says whether it was the stop.
pub record NotifierPort (W : Type 0) : Type 0 where
  pub notifier : Notifier W
  pub start : W → W
  pub begin_stop : W → W
  pub await_stopped : W → W
  pub select_stopped : ℤ → W → Bool × W

-- `infrastructure`
pub record Infrastructure (W D : Type 0) : Type 0 where
  pub database : D
  pub repositories : Repositories W
  pub catalog : CatalogPort W
  pub sender : EmailSender W
  pub notifier : NotifierPort W
  pub authorizer : Subject → String → Resource → Exec W (Unit {0})

pub record Machine (W : Type 0) : Type 0 where
  pub now_func : W → Time × W
  pub token_generator : ℕ → Exec W String
  pub hash_token : String → String

-- `applicationServices`
pub record ApplicationServices (W : Type 0) : Type 0 where
  pub auth : AuthPorts.Service W
  pub sub_requests : SubRequestPorts.Service W
  pub admin : AdminPorts.Service W

-- `buildApplicationServices`
unfoldable pub build_application_services :
    {W D : Type 0} → Machine W → Infrastructure W D → ApplicationServices W
build_application_services machine infra = record {
  auth = record {
    repo = infra.repositories.auth;
    sender = some infra.sender.send_magic_link;
    token_generator = machine.token_generator;
    now_func = machine.now_func;
    hash_token = machine.hash_token;
  };
  sub_requests = record {
    repo = infra.repositories.sub_requests;
    catalog = some infra.catalog.list_shows;
    notifier = some infra.notifier.notifier;
    authorizer = infra.authorizer;
    now_func = machine.now_func;
  };
  admin = record {
    repo = infra.repositories.admin;
    catalog = some infra.catalog.list_personas;
    authorizer = infra.authorizer;
  };
}

-- `http.Server`: its address, and what it does with a request.
pub record HttpServer (W : Type 0) : Type 0 where
  pub addr : String
  pub handler : Request → W → Response × W

-- `buildHTTPServer`
unfoldable pub build_http_server :
    {W : Type 0} → Platform W → Config → ApplicationServices W → HttpServer W
build_http_server platform cfg services = record {
  addr = ":" <> of_int cfg.port;
  handler =
      serve platform
        (record {
          auth = auth_of services.auth;
          sub_requests = sub_requests_of services.sub_requests;
          admin = admin_of services.admin;
        })
        cfg.trusted_proxies;
}
