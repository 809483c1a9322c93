-- ===== src/Auth/Logins.antt =====
-- What a login leaves behind.
use air_cover.Base.{
  ◌+◌, String, ◌≡◌, refl, ◌∙◌, ap, ◌⊎◌, inl, inr, Bool, true, false, Option, none, some, [], ◌∷◌,
  ◌++◌,
}
use air_cover.Errors.{ok, Exec}
use air_cover.Errors.Steps.{Stable, pure-Stable, raise-Stable, >>=-Stable, >>=-at}
use air_cover.Domain.{User, MagicLink, Time}
use air_cover.Auth.Ports.{LoginInput, Service, clock}
use air_cover.Auth.Service.{
  login_token_bytes, magic_link_ttl, deliver, issue, issue_if, request_login,
}
use air_cover.Auth.Spec.{View, Keeps, RepositoryContract, Environment}

module _ {W : Type 0} (view : View W) (s : Service W) where
  -- There is one link more, for the user with the email of the input, who is enabled.
  pub record Issued (input : LoginInput) (w w' : W) : Type 0 where
    pub user : User
    pub link : MagicLink
    pub under_email : (s.repo.get_user_by_email input.email w).0 ≡ ok user
    pub enabled : user.is_enabled ≡ true
    pub of_user : link.user_id ≡ user.id
    pub added : view.links w' ≡ view.links w ++ link ∷ []

  abbrev pub Outcome : LoginInput → W → W → Type 0
  Outcome input w w' = (view.links w' ≡ view.links w) ⊎ Issued input w w'

  moved :
      (input : LoginInput) (w a b : W)
      → view.links b ≡ view.links a
      → Outcome input w a
      → Outcome input w b
  moved input w a b same (inl h) = inl (same ∙ h)
  moved input w a b same (inr issued) = inr (record {
    user = issued.user;
    link = issued.link;
    under_email = issued.under_email;
    enabled = issued.enabled;
    of_user = issued.of_user;
    added = same ∙ issued.added;
  })

  module _ (contract : RepositoryContract view s.repo) (env : Environment view s)
      (input : LoginInput) (w : W) where
    Keeps-Stable : {A : Type 0} (m : Exec W A) → Keeps view m → Stable (Outcome input w) m
    Keeps-Stable m keeps = record { at = λ a h. moved input w a (m a).1 ((keeps.at a).links) h }

    deliver-Stable :
        (email raw : String) (url : Option (String → String))
        (sender : Option (String → String → Exec W (Unit {0})))
        → s.sender ≡ sender
        → Stable (Outcome input w) (deliver s email raw url sender)
    deliver-Stable email raw url none e = pure-Stable (Outcome input w) _
    deliver-Stable email raw none (some send) e = raise-Stable (Outcome input w) _
    deliver-Stable email raw (some url) (some send) e =
        >>=-Stable (Outcome input w) (send email (url raw)) _
          (Keeps-Stable (send email (url raw)) (env.sender_keeps send email (url raw) e))
          λ u. pure-Stable (Outcome input w) _

    created :
        (user : User) (hash : String) (expires_at : Time) (a : W)
        → (s.repo.get_user_by_email input.email w).0 ≡ ok user
        → user.is_enabled ≡ true
        → view.links a ≡ view.links w
        → Outcome input w (s.repo.create_magic_link user.id hash expires_at a).1
    created user hash expires_at a here enabled same =
        elim (contract.create_link_lem user.id hash expires_at a) [
          | inl (l, done, of_user, hashed, expires, added, sessions, users) ↦ inr (record {
            user = user;
            link = l;
            under_email = here;
            enabled = enabled;
            of_user = of_user;
            added = added ∙ ap (λ ls. ls ++ l ∷ []) same;
          })
          | inr broke ↦ inl (broke.1.links ∙ same)
        ]

    issued :
        (user : User) (b : Bool) (a : W)
        → (s.repo.get_user_by_email input.email w).0 ≡ ok user
        → user.is_enabled ≡ b
        → view.links a ≡ view.links w
        → Outcome input w (issue_if s input user b a).1
    unfolding issue clock
    issued user false a here enabled same = (pure-Stable (Outcome input w) _).at a (inl same)
    issued user true a here enabled same =
        let gen = s.token_generator login_token_bytes in
        let same₁ = ((env.generator_keeps login_token_bytes).at a).links ∙ same in
        >>=-at (Outcome input w) gen _ a (inl same₁) λ raw drawn.
          let a₂ = (s.now_func (gen a).1).1 in
          let same₂ = (env.clock_keeps (gen a).1).links ∙ same₁ in
          >>=-at (Outcome input w) (clock s) _ (gen a).1 (inl same₂) λ now read.
            >>=-at (Outcome input w)
              (s.repo.create_magic_link user.id (s.hash_token raw) (now + magic_link_ttl)) _ a₂
              (created user (s.hash_token raw) (now + magic_link_ttl) a₂ here enabled same₂)
              λ u done.
                (deliver-Stable user.email raw input.magic_link_url s.sender refl).at _
                  (created user (s.hash_token raw) (now + magic_link_ttl) a₂ here enabled same₂)

    -- A login adds at most one magic link, and only for the user whom the repository finds under the
    -- email and who is enabled; whatever fails, it changes no other link.
    pub request_login-links : Outcome input w (request_login s input w).1
    unfolding request_login
    request_login-links =
        let same = ((contract.email_keeps input.email).at w).links in
        >>=-at (Outcome input w) (s.repo.get_user_by_email input.email)
          (λ user. issue_if s input user user.is_enabled) w (inl same)
          λ user here.
            issued user user.is_enabled (s.repo.get_user_by_email input.email w).1 here refl same
