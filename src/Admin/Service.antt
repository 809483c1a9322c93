-- ===== src/Admin/Service.antt =====
-- internal/app/admin/service.go, method by method.
use air_cover.Base.{
  String, Bool, true, false, not, ◌&&◌, ◌||◌, Option, none, some, List, [], ◌∷◌, map, ◌==◌, ◌/=◌,
  string_eq, int_eq, str_ltb, lower, trim, sort_by, filter_by, if◌then◌else◌,
}
use air_cover.Errors.{
  Error, sentinel, invalid, not_found, forbidden, user_already_exists, is, Result, ok, err, fail,
  Exec, pure, lift, map_error, ◌>>=◌, ◌>>◌,
}
use air_cover.Domain.{User, CurrentUser, role_admin, role_member, is_valid_role}
use air_cover.Authorization.{
  subject_from_current_user, admin_resource, user_resource, action_user_list, action_user_create,
  action_user_update, Resource,
}
use air_cover.SubRequests.Ports.{Persona}
use air_cover.Admin.Ports.{CreateUserInput, UpdateUserInput, UserReadModel, Service}

-- Both are disabled, or both enabled with the same role, or not.
abbrev pub same_bool : Bool → Bool → Bool
same_bool true b = b
same_bool false b = not b

-- The comparison of `sortUsers`.
abbrev pub user_less : User → User → Bool
user_less a b =
    if not (same_bool a.is_enabled b.is_enabled)
    then a.is_enabled
    else if not a.is_enabled
    then str_ltb (lower a.email) (lower b.email)
    else if a.role /= b.role
    then a.role == role_admin
    else str_ltb (lower a.email) (lower b.email)

-- `sortUsers`
unfoldable pub sort_users : List User → List User
sort_users users = sort_by user_less users

abbrev pub role_or_member : String → String
role_or_member role = if role == "" then role_member else role

-- A missing role is fine.
abbrev pub is_valid_optional : Option String → Bool
is_valid_optional none = true
is_valid_optional (some role) = is_valid_role role

abbrev pub disables : Option Bool → Bool
disables none = false
disables (some is_enabled) = not is_enabled

-- `errors.Is(err, apperrors.ErrNotFound)`
abbrev pub plain_not_found : Error → Error
plain_not_found e = if is e not_found then sentinel not_found else e

-- What the look for a user with the email says of creating one.
abbrev pub free_email : Result User → Result (Unit {0})
free_email (ok _) = fail user_already_exists
free_email (err e) = if is e not_found then ok tt else err e

abbrev pub may : Result (Unit {0}) → Result Bool
may (ok _) = ok true
may (err e) = if is e forbidden then ok false else err e

-- The loop of `ImportCatalogUsers`.
unfoldable pub emails_of : List Persona → List String
emails_of personas = filter_by (λ email. trim email /= "") (map (λ (p : Persona). p.email) personas)

module _ {W : Type 0} (s : Service W) where
  -- `authorize`
  abbrev pub authorize : CurrentUser → String → Resource → Exec W (Unit {0})
  authorize viewer action r = s.authorizer (subject_from_current_user viewer) action r

  unfoldable pub asks_may : CurrentUser → User → Exec W Bool
  asks_may viewer user w =
      let (r, w') = authorize viewer action_user_update (user_resource user.id user.is_enabled) w in
      (may r, w')

  -- `canDeactivate`
  unfoldable pub can_deactivate : CurrentUser → User → Exec W Bool
  can_deactivate viewer user =
      if user.is_enabled && user.id == viewer.id then pure false else asks_may viewer user

  unfoldable pub read_models : CurrentUser → List User → Exec W (List UserReadModel)
  read_models viewer [] = pure []
  read_models viewer (user ∷ users) = do
    can ← can_deactivate viewer user
    models ← read_models viewer users
    pure (record { user = user; can_deactivate = can } ∷ models)

  -- `ListUsers`
  unfoldable pub list_users : CurrentUser → Exec W (List UserReadModel)
  list_users viewer = do
    authorize viewer action_user_list admin_resource
    users ← s.repo.list_users
    read_models viewer (sort_users users)

  unfoldable pub check_email : String → Exec W (Unit {0})
  check_email email w = let (r, w') = s.repo.get_user_by_email email w in (free_email r, w')

  -- `CreateUser`
  unfoldable pub create_user : CurrentUser → CreateUserInput → Exec W (Unit {0})
  create_user viewer input = do
    authorize viewer action_user_create admin_resource
    let role = role_or_member input.role
    lift (if input.email == "" || not (is_valid_role role) then fail invalid else ok tt)
    check_email input.email
    user ← s.repo.create_user input.email role
    pure tt

  -- `UpdateUser`
  unfoldable pub update_user : CurrentUser → UpdateUserInput → Exec W (Unit {0})
  update_user viewer input = do
    lift (if not (is_valid_optional input.role) then fail invalid else ok tt)
    lift (if disables input.is_enabled && input.id == viewer.id then fail forbidden else ok tt)
    authorize viewer action_user_update (user_resource input.id (disables input.is_enabled))
    map_error plain_not_found (s.repo.update_user input.id input.role input.is_enabled)

  unfoldable pub import_some : List String → Exec W (Unit {0})
  import_some [] = pure tt
  import_some (email ∷ emails) = s.repo.import_users (email ∷ emails)

  -- A catalog that fails is logged, and nothing is imported.
  unfoldable pub import_personas : Result (List Persona) → Exec W (Unit {0})
  import_personas (ok personas) w = import_some (emails_of personas) w
  import_personas (err e) w = (ok tt, w)

  unfoldable pub import_from : Option (Exec W (List Persona)) → Exec W (Unit {0})
  import_from none w = (ok tt, w)
  import_from (some list_personas) w = let (r, w') = list_personas w in import_personas r w'

  -- `ImportCatalogUsers`
  unfoldable pub import_catalog_users : CurrentUser → Exec W (Unit {0})
  import_catalog_users viewer =
      authorize viewer action_user_create admin_resource >> import_from s.catalog
