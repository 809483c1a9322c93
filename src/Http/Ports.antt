-- ===== src/Http/Ports.antt =====
-- What the HTTP server calls: the services, and the libraries that the repository does not hold.
use air_cover.Base.{ℕ, ◌-◌, ◌/◌, ◌^◌, ℤ, String, Bool, false, List, Option, ◌==◌, nat_eq}
use air_cover.Errors.{Exec}
use air_cover.Domain.{CurrentUser}
use air_cover.SubRequests.Ports.{CreateInput, Dashboard, Detail}
use air_cover.Admin.Ports.{CreateUserInput, UpdateUserInput, UserReadModel}
use air_cover.Auth.Ports.{LoginInput, LoginResult, VerifiedSession}
use air_cover.Http.Message.{Request, Response}

-- `authService`
pub record AuthService (W : Type 0) : Type 0 where
  pub request_login : LoginInput → Exec W LoginResult
  pub verify_magic_link : String → Exec W VerifiedSession
  pub logout : ℤ → Exec W (Unit {0})
  pub authenticate_session : String → Exec W CurrentUser

-- `subRequestService`
pub record SubRequestService (W : Type 0) : Type 0 where
  pub list_dashboard : CurrentUser → Exec W Dashboard
  pub get : CurrentUser → ℤ → Exec W Detail
  pub create : CurrentUser → CreateInput → Exec W (Unit {0})
  pub delete : CurrentUser → ℤ → Exec W (Unit {0})
  pub apply_action : CurrentUser → ℤ → String → Exec W (Unit {0})

-- `adminService`
pub record AdminService (W : Type 0) : Type 0 where
  pub list_users : CurrentUser → Exec W (List UserReadModel)
  pub create_user : CurrentUser → CreateUserInput → Exec W (Unit {0})
  pub update_user : CurrentUser → UpdateUserInput → Exec W (Unit {0})
  pub import_catalog_users : CurrentUser → Exec W (Unit {0})

-- `Server`, with its `AuthHandler`. The program fills in all three; the token generator that the
-- handler hands to the auth service is the service's own.
pub record Server (W : Type 0) : Type 0 where
  pub auth : AuthService W
  pub sub_requests : SubRequestService W
  pub admin : AdminService W

-- `netip.Addr`: an address of 32 or of 128 bits; one of 128 bits may have a zone.
pub data Addr : Type 0 where
  v4 : ℕ → Addr
  v6 : ℕ → Bool → Addr

-- `netip.Prefix`
pub record Prefix : Type 0 where
  pub addr : Addr
  pub bits : ℕ

-- `Prefix.Contains`: the same family and the same leading bits; an address with a zone is in no
-- prefix.
unfoldable pub prefix_contains : Prefix → Addr → Bool
prefix_contains p a = elim p.addr [
  | v4 n ↦ elim a [ v4 m ↦ n / 2 ^ (32 - p.bits) == m / 2 ^ (32 - p.bits) | v6 m zone ↦ false ]
  | v6 n _ ↦ elim a [
    | v4 m ↦ false
    | v6 m zone ↦ elim zone [
      | Bool.true ↦ false
      | Bool.false ↦ n / 2 ^ (128 - p.bits) == m / 2 ^ (128 - p.bits)
    ]
  ]
]

pub record Url : Type 0 where
  pub scheme : String
  pub url_host : String

-- The readers of Go's `net`, `net/netip` and `net/url`, and the libraries in front of the handlers:
-- the validation against the OpenAPI document, the rate limit, the binding of a path parameter, the
-- pattern of an email address, and the router's answer to what it has no route for. `none` of the
-- first two lets a request pass.
pub record Platform (W : Type 0) : Type 0 where
  pub split_host_port : String → Option String
  pub parse_addr : String → Option Addr
  pub parse_url : String → Option Url
  pub is_email : String → Bool
  pub bind_id : String → Option ℤ
  pub validate : Request → Option Response
  pub limit : Request → W → Option Response × W
  pub unrouted : Request → Response
