-- ===== src/Bootstrap.antt =====
-- internal/app/bootstrap/service.go: the first administrator.
use air_cover.Base.{String, ◌==◌, string_eq, if◌then◌else◌}
use air_cover.Errors.{not_found, is, wrap, Result, ok, err, Exec, pure, map_error, ◌>>◌}
use air_cover.Domain.{User, role_admin}

pub record Repository (W : Type 0) : Type 0 where
  pub get_user_by_email : String → Exec W User
  pub create_user : String → String → Exec W User

module _ {W : Type 0} (repo : Repository W) where
  unfoldable pub create_master : String → Exec W (Unit {0})
  create_master email =
      map_error (λ e. wrap "failed to create master user: " e "")
        (repo.create_user email role_admin)
      >> pure tt

  abbrev pub create_if_missing : String → Result User → Exec W (Unit {0})
  create_if_missing email (ok user) w = (ok tt, w)
  create_if_missing email (err e) w =
      if is e not_found
      then create_master email w
      else (err (wrap "failed to check master user: " e ""), w)

  unfoldable pub look_for_master : String → Exec W (Unit {0})
  look_for_master email w =
      let (r, w') = repo.get_user_by_email email w in create_if_missing email r w'

  -- `EnsureMasterUser`
  unfoldable pub ensure_master_user : String → Exec W (Unit {0})
  ensure_master_user email = if email == "" then pure tt else look_for_master email
