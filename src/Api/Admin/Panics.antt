-- ===== src/Api/Admin/Panics.antt =====
-- When a handler panics.
use threadr.Common.{
  Option, none, some, String, ◌≡◌, ◌↔◌, refl, subst, str_eq, str_eq_iff, sym, ◌∙◌, ap, Bool-cases,
  inl, inr,
}
use mathlib.Core.Bool.{false≢true}
use threadr.Common.Exec.{Result, ok, err}
use threadr.Api.Middleware.{
  Ctx, Claim, text, flag, other, api_key_middleware, IsEntitled, TokenVerifier,
  role_instance_middleware_iff,
}
use threadr.Api.Admin.{
  User, Directory, panicked, answer, log_admin, user_found, get_claims_of,
  get_custom_claims_handler, get_claims_route, secure_route,
}

module _ {W : Type 0} (directory : Directory W) where
  -- A claim that is there and no Boolean.
  abbrev pub IsNoFlag : Option Claim → Type 0
  IsNoFlag none = ⊥
  IsNoFlag (some (flag b)) = ⊥
  IsNoFlag (some (text t)) = Unit
  IsNoFlag (some other) = Unit

  log_admin_iff :
      (claim : Option Claim) (json : String) (w : W)
      → ((log_admin directory claim (answer 200 json w) w).0 ≡ panicked) ↔ IsNoFlag claim
  log_admin_iff none json w = ((λ h. cc), (λ h. absurd h))
  log_admin_iff (some (flag b)) json w = ((λ h. cc), (λ h. absurd h))
  log_admin_iff (some (text t)) json w = ((λ h. tt), (λ h. refl))
  log_admin_iff (some other) json w = ((λ h. tt), (λ h. refl))

  user_found_iff :
      (found : Result User) (w : W)
      → ((user_found directory found w).0 ≡ panicked)
        ↔ ((user : User) × (found ≡ ok user) × IsNoFlag (user.custom_claims "admin"))
  user_found_iff (err e) w = ((λ h. cc), (λ h. absurd cc))
  user_found_iff (ok user) w =
      let logged = log_admin_iff (user.custom_claims "admin") user.json w in
      (
        (λ h. (user, refl, logged.0 h)),
        (λ (given, same, bad). logged.1 (
            subst (λ (u : User). IsNoFlag (u.custom_claims "admin"))
              (ap (λ r. elim r [ ok u ↦ u | err e ↦ user ]) (sym same)) bad)),
      )

  get_claims_of_iff :
      (client : Result (Unit {0})) (user_id : String) (w : W)
      → ((get_claims_of directory client user_id w).0 ≡ panicked) ↔ (
          (client ≡ ok tt)
          × ((user : User) × ((directory.get_user user_id w).0 ≡ ok user)
              × IsNoFlag (user.custom_claims "admin")))
  get_claims_of_iff (err e) user_id w = ((λ h. cc), (λ h. absurd cc))
  get_claims_of_iff (ok tt) user_id w =
      let found =
        user_found_iff (directory.get_user user_id w).0 (directory.get_user user_id w).1 in
      ((λ h. (refl, found.0 h)), (λ (same, h). found.1 h))

  -- A request for a user's claims panics exactly if it carries the key, the user is found, and the
  -- user has a claim "admin" that is no Boolean.
  pub get_claims_route_panics_iff :
      (api_key : String) (c : Ctx) (w : W)
      → ((get_claims_route directory api_key c w).0 ≡ panicked) ↔ (
          (c.get "X-API-Key" ≡ api_key)
          × (directory.auth_client ≡ ok tt)
          × ((user : User) × ((directory.get_user (c.params "userId") w).0 ≡ ok user)
              × IsNoFlag (user.custom_claims "admin")))
  unfolding get_claims_route get_custom_claims_handler api_key_middleware
  get_claims_route_panics_iff api_key c w = elim (Bool-cases (str_eq (c.get "X-API-Key") api_key)) [
    | inl known ↦
        let of_user = get_claims_of_iff directory.auth_client (c.params "userId") w in
        rw known (
          (λ h. let (ready, found) = of_user.0 h in ((str_eq_iff _ _).0 known, ready, found)),
          (λ (key, ready, found). of_user.1 (ready, found)),
        )
    | inr unknown ↦ rw unknown (
      (λ h. absurd cc),
      (λ (key, ready, found). absurd (false≢true (sym unknown ∙ (str_eq_iff _ _).1 key))),
    )
  ]

-- The secured route panics on every request that its guard passes, since nothing has put the claims
-- where the handler takes them from: no administrator is ever welcomed.
secure_route_panics :
    {W : Type 0} (firebase : TokenVerifier) (c : Ctx) (w : W)
    → c.locals "user" ≡ none
    → IsEntitled "admin" "instanceId" firebase c
    → secure_route firebase c w ≡ (panicked, w)
unfolding secure_route
secure_route_panics firebase c w unset entitled =
    rw ((role_instance_middleware_iff firebase c).1 entitled, unset) refl
