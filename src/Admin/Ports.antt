-- ===== src/Admin/Ports.antt =====
-- internal/app/admin/ports.go and the types of service.go, over a state `W` of the world.
use air_cover.Base.{ℤ, String, Bool, Option, List}
use air_cover.Errors.{Exec}
use air_cover.Domain.{User}
use air_cover.Authorization.{Subject, Resource}
use air_cover.SubRequests.Ports.{Persona}

pub record CreateUserInput : Type 0 where
  pub email : String
  pub role : String

pub record UpdateUserInput : Type 0 where
  pub id : ℤ
  pub role : Option String
  pub is_enabled : Option Bool

pub record UserReadModel : Type 0 where
  pub user : User
  pub can_deactivate : Bool

pub record Repository (W : Type 0) : Type 0 where
  pub list_users : Exec W (List User)
  pub get_user_by_email : String → Exec W User
  pub create_user : String → String → Exec W User
  pub update_user : ℤ → Option String → Option Bool → Exec W (Unit {0})
  pub import_users : List String → Exec W (Unit {0})

-- `Service`, with a nil catalog as `none`.
pub record Service (W : Type 0) : Type 0 where
  pub repo : Repository W
  pub catalog : Option (Exec W (List Persona))
  pub authorizer : Subject → String → Resource → Exec W (Unit {0})
