-- ===== src/Admin/History.antt =====
-- What every method of the repository keeps is kept by sequences of calls of the admin service.
use air_cover.Base.{
  ℤ, String, Bool, false, ◌&&◌, Option, none, some, List, [], ◌∷◌, ◌==◌, string_eq, int_eq, ◌≡◌,
  refl,
}
use air_cover.Errors.{Result, ok, err, Exec, lift, pure}
use air_cover.Errors.Steps.{
  Stable, pure-Stable, lift-Stable, map_error-Stable, if-Stable, >>=-Stable,
}
use air_cover.Domain.{User, CurrentUser}
use air_cover.Authorization.{
  Subject, Resource, admin_resource, action_user_list, action_user_create, action_user_update,
}
use air_cover.SubRequests.Ports.{Persona}
use air_cover.Admin.Ports.{CreateUserInput, UpdateUserInput, Repository, Service}
use air_cover.Admin.Service.{
  authorize, role_or_member, plain_not_found, emails_of, check_email, create_user, update_user,
  import_some, import_personas, import_from, import_catalog_users, asks_may, can_deactivate,
  read_models, list_users, sort_users,
}

pub record IsStable {W : Type 0} (P : W → Type 0) (repo : Repository W) : Type 0 where
  pub list : Stable P repo.list_users
  pub get : (email : String) → Stable P (repo.get_user_by_email email)
  pub create : (email role : String) → Stable P (repo.create_user email role)
  pub update :
      (id : ℤ) (role : Option String) (is_enabled : Option Bool)
      → Stable P (repo.update_user id role is_enabled)
  pub imports : (emails : List String) → Stable P (repo.import_users emails)

-- So do the authorizer and the catalog.
pub record Environment {W : Type 0} (P : W → Type 0) (s : Service W) : Type 0 where
  pub authorizer :
      (subject : Subject) (action : String) (r : Resource)
      → Stable P (s.authorizer subject action r)
  pub catalog : (list : Exec W (List Persona)) → s.catalog ≡ some list → Stable P list

pub data Call : Type 0 where
  lists : CurrentUser → Call
  creates : CurrentUser → CreateUserInput → Call
  updates : CurrentUser → UpdateUserInput → Call
  imports : CurrentUser → Call

module _ {W : Type 0} (s : Service W) where
  abbrev pub call : Call → W → W
  call (lists viewer) w = (list_users s viewer w).1
  call (creates viewer input) w = (create_user s viewer input w).1
  call (updates viewer input) w = (update_user s viewer input w).1
  call (imports viewer) w = (import_catalog_users s viewer w).1

  abbrev pub run : List Call → W → W
  run [] w = w
  run (c ∷ calls) w = run calls (call c w)

module _ {W : Type 0} (P : W → Type 0) (s : Service W) (repo : IsStable P s.repo)
    (env : Environment P s) where
  may-Stable : (viewer : CurrentUser) (user : User) → Stable P (asks_may s viewer user)
  unfolding asks_may
  may-Stable viewer user = record { at = (env.authorizer _ _ _).at }

  can-Stable : (viewer : CurrentUser) (user : User) → Stable P (can_deactivate s viewer user)
  unfolding can_deactivate
  can-Stable viewer user =
      if-Stable P (user.is_enabled && user.id == viewer.id) (pure false) (asks_may s viewer user)
        (pure-Stable P false) (may-Stable viewer user)

  models-Stable : (viewer : CurrentUser) (users : List User) → Stable P (read_models s viewer users)
  unfolding read_models
  models-Stable viewer [] = pure-Stable P []
  models-Stable viewer (user ∷ users) =
      >>=-Stable P (can_deactivate s viewer user) _ (can-Stable viewer user) λ can.
        >>=-Stable P (read_models s viewer users) _ (models-Stable viewer users)
          λ models. pure-Stable P _

  list-Stable : (viewer : CurrentUser) → Stable P (list_users s viewer)
  unfolding list_users
  list-Stable viewer =
      >>=-Stable P (authorize s viewer action_user_list admin_resource) _ (env.authorizer _ _ _)
        λ u.
          >>=-Stable P s.repo.list_users _ repo.list
            λ users. models-Stable viewer (sort_users users)

  check-Stable : (email : String) → Stable P (check_email s email)
  unfolding check_email
  check-Stable email = record { at = (repo.get email).at }

  create-Stable :
      (viewer : CurrentUser) (input : CreateUserInput) → Stable P (create_user s viewer input)
  unfolding create_user
  create-Stable viewer input =
      >>=-Stable P (authorize s viewer action_user_create admin_resource) _ (env.authorizer _ _ _)
        λ u. >>=-Stable P (lift _) _ (lift-Stable P _) λ v.
          >>=-Stable P (check_email s input.email) _ (check-Stable input.email) λ free.
            >>=-Stable P (s.repo.create_user input.email (role_or_member input.role)) _
              (repo.create input.email (role_or_member input.role)) λ user. pure-Stable P tt

  update-Stable :
      (viewer : CurrentUser) (input : UpdateUserInput) → Stable P (update_user s viewer input)
  unfolding update_user
  update-Stable viewer input = >>=-Stable P (lift _) _ (lift-Stable P _) λ u.
      >>=-Stable P (lift _) _ (lift-Stable P _) λ v.
        >>=-Stable P (authorize s viewer action_user_update _) _ (env.authorizer _ _ _) λ allowed.
          map_error-Stable P plain_not_found
            (s.repo.update_user input.id input.role input.is_enabled)
            (repo.update input.id input.role input.is_enabled)

  some-Stable : (emails : List String) → Stable P (import_some s emails)
  unfolding import_some
  some-Stable [] = pure-Stable P tt
  some-Stable (email ∷ emails) = repo.imports (email ∷ emails)

  personas-at : (r : Result (List Persona)) (w : W) → P w → P (import_personas s r w).1
  unfolding import_personas
  personas-at (ok personas) w h = (some-Stable (emails_of personas)).at w h
  personas-at (err e) w h = h

  from-at :
      (c : Option (Exec W (List Persona))) (w : W) → s.catalog ≡ c → P w → P (import_from s c w).1
  unfolding import_from
  from-at none w e h = h
  from-at (some list) w e h = personas-at (list w).0 (list w).1 ((env.catalog list e).at w h)

  import-Stable : (viewer : CurrentUser) → Stable P (import_catalog_users s viewer)
  unfolding import_catalog_users
  import-Stable viewer =
      >>=-Stable P (authorize s viewer action_user_create admin_resource) _ (env.authorizer _ _ _)
        λ u. record { at = λ w h. from-at s.catalog w refl h }

  call-Stable : (c : Call) (w : W) → P w → P (call s c w)
  call-Stable (lists viewer) w h = (list-Stable viewer).at w h
  call-Stable (creates viewer input) w h = (create-Stable viewer input).at w h
  call-Stable (updates viewer input) w h = (update-Stable viewer input).at w h
  call-Stable (imports viewer) w h = (import-Stable viewer).at w h

  pub run-Stable : (calls : List Call) (w : W) → P w → P (run s calls w)
  run-Stable [] w h = h
  run-Stable (c ∷ calls) w h = run-Stable calls (call s c w) (call-Stable c w h)
