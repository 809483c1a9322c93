-- ===== src/Lib.antt =====
-- Air Cover: substitutes for radio shows.
--
-- DJs post requests for a substitute, take the requests of others and give them back. The program
-- is a hexagon: services in internal/app over ports, and adapters around them. This library models
-- the services that hold the rules, both authorizers, the queue of the notifier, the SQLite adapter
-- that keeps the state, the HTTP adapter that the browser talks to, the catalog of shows, the emails,
-- and the life of the server.
--
-- Parts, and where they are:
--   Base            Go's integers, strings, slices and sort.Slice, as far as the program uses them
--   Json            the values that encoding/json hands to the program
--   Calendar        Go's time, as far as forms are read with it and pages show it. `Counting` counts
--                   days, `RoundTrip` goes from a text to an instant and back.
--   Errors          internal/apperrors, errors.Is and wrapped errors; `Exec W A` is a Go call that
--                   returns a value or an error and may change the world `W`. What was written before
--                   an error stays written, as in the source.
--   Domain          internal/domain
--   Authorization   internal/app/authorization: subjects, resources, the parity authorizer
--   Casbin          internal/adapters/outbound/authorization/casbin: the authorizer over stored
--                   policies. `Parity` compares its policies with the parity authorizer, `Seeding` is
--                   about start-up.
--   SubRequests     internal/app/subrequests. `Ports` holds its ports and types, `Shows` the show
--                   helpers, `Service` Create and Delete, `Actions` ApplyAction, `Dashboard`
--                   ListDashboard and Get, `Listing` what they show. `Spec` states each use case as a
--                   transition of one row of a store, `Refinement` proves the methods against it, and
--                   `History` is about sequences of calls by any viewers.
--   Auth            internal/app/auth. `Ports` and `Service` are the methods, `Spec` says what they rely
--                   on, `Links` and `Sessions` are about what a token stands for, `Reading` about what
--                   reading a session leaves alone, `Logins` about what a login leaves, `History` about sequences of calls.
--   Admin           internal/app/admin: `Ports`, `Service`, and in `History` what any sequence of its
--                   calls keeps.
--   Bootstrap       internal/app/bootstrap
--   Notifier        AsyncNotifier of internal/adapters/outbound/email: its operations as functions on
--                   the queue and the state of its goroutine, in `Steps` a relation of what callers and
--                   goroutine may do next, in `Delivery` and `Draining` what follows.
--   Recipients      SubRequestNotifier of internal/adapters/outbound/email: who is told of what
--   Email           email.go of internal/adapters/outbound/email: `Messages` holds the texts, `Rendering`
--                   makes HTML and plain text of them, `Senders` sends them, `Escaping` is about the
--                   markup of the HTML.
--   Config          internal/platform/config
--   Command         internal/cmd/server.go: `Assembly` puts the services and the server together,
--                   `Running` goes from the configuration to the end of the process, `Cleanup` is about
--                   what is open when it ends.
--   Sqlite          internal/adapters/outbound/sqlite. `Tables` holds the rows and the conversions of
--                   repository.go, `Driver` the rule for a statement that may fail, `Queries` the
--                   statements of dbgen, `SubRequestRepository` subrequest_repository.go,
--                   `AuthRepository` auth_repository.go and `AdminRepository` admin_repository.go.
--                   `Contract` and `AuthContract` prove the first two to be repositories that
--                   `SubRequests` and `Auth` can use; `AdminRepository` has the theorems on the admin
--                   service and on start-up over it.
--   Http            internal/adapters/inbound/api. `Message` holds requests, contexts and responses,
--                   `Ports` the services and libraries that are called, `Errors` errors.go, `Origin`
--                   proxy.go and the same-origin test of router.go, `AuthHandler` auth.go and
--                   user_context.go, `SubRequestHandlers` and `AdminHandlers` the handlers, `Router`
--                   router.go and wrapper.go, `Services` puts the services of internal/app behind the
--                   ports, as internal/cmd/server.go does. `Access`, `Denials`, `Admins` and `Proxies` are
--                   about the guards of all routes, `SignIn` about two requests in a row, `Outcomes`
--                   about statuses, `Forms` about the form of a new request.
--   Presenter       internal/adapters/inbound/presenter; `Hours` is about durations.
--   Spinitron       internal/adapters/outbound/spinitron. `Pages` holds the fetching loops of catalog.go
--                   and `Cache` the rest of it, `Parsing` and `NextPage` the readers of spinitron.go and
--                   `Client` its requests. `Cache.Steps` is the relation of what callers and refreshes
--                   may do next.
--   Examples        the properties at concrete inputs, over the SQLite repository and small sources
--
-- How they interact: a service is a record of its ports over a world `W`, as the fields of the Go
-- struct are. The theorems on the sub request service hold for every world, repository, catalog,
-- notifier, clock and authorizer that fulfil the records `RepositoryContract` and `Environment` of
-- `SubRequests.Spec`; `Examples` fills them with the SQLite repository and the parity authorizer.
-- `Auth.Spec` has the records of the auth service.
--
-- Between two statements of one use case the world is what the first left: another request may run
-- between the use cases, not inside them. The conditions in the SQL statements (`taken_by_user_id IS
-- NULL`), which guard the steps where the program runs several at once, are in the model of the
-- statements, and the contract is about them.
--
-- A handler is a function from a context, a request and a world to a response and a world. A test of
-- the header `X-Forwarded-Proto`, of the session and of the role is where the source has it; the
-- theorems on the guards hold for any services behind the routes.
--
-- The loops of the program are over slices, so the recursion of the model is structural. The loops
-- over the pages of the catalog have a bound of their own, a hundred pages, which is the number of
-- rounds that the model counts down; the search for the year of an instant has as much fuel as the
-- instant has days, and a year has at least one. An `int` is an integer without a bound: the program
-- does not compute with them. Instants are numbers of nanoseconds since the start of the year 0, and
-- never before it; a duration is bounded as Go's is. `sort.Slice` is insertion sort. `strings.ToLower`,
-- `EqualFold` and `TrimSpace` are stated on the ASCII letters and spaces: what depends on the case of a
-- text, the order of shows and of users and the comparison of names, is the program's for texts whose
-- other characters have no case and are no spaces. Hours are shown from a `float64`, which is
-- rounded as Go rounds it.
--
-- A failure of a call that the program makes of others is an error that the world had in store:
-- `IsFault w e` of the contracts, which for SQLite is `IsPending`, the errors in the list `faults` of
-- the database. A theorem that allows for a failure names such an error, pending where the call
-- starts, so that where nothing is to fail only the other outcome is left. The program's own errors,
-- of a session that has expired or a user who is disabled, are no such failures.
--
-- Parameters: the casbin library with its adapter (`Casbin.Library`) and the database driver, whose
-- failures are the list `faults` of the database; the hash of a token (`HashToken`, SHA-256) and
-- the generator of random tokens, which are fields of the auth service; for the HTTP adapter
-- (`Http.Ports.Platform`) the readers of addresses and URLs, the validation against the OpenAPI
-- document, the rate limit, the binding of a path parameter, and the answer where there is no
-- route; for the catalog the HTTP client with the JSON decoder, and the reader of URLs; for the
-- emails the client of Resend and the HTTP client; for the configuration the environment and the
-- readers of addresses and prefixes; for the command what runs at the same time, the listening, the
-- prefetch and the notifier's `Stop` with the timer that it races with. A failed statement has changed nothing.
--
-- Not modelled: the templates and the API code that is generated, the other commands and logging,
-- which are input and output; the timeouts of contexts; the recovery from panics; database migrations;
-- foreign keys.
pub mod Base
pub mod Errors
pub mod Domain
pub mod Json
pub mod Calendar
pub mod Authorization
pub mod Casbin
pub mod SubRequests
pub mod Auth
pub mod Admin
pub mod Bootstrap
pub mod Presenter
pub mod Notifier
pub mod Recipients
pub mod Email
pub mod Spinitron
pub mod Http
pub mod Config
pub mod Command
pub mod Sqlite
pub mod Examples
