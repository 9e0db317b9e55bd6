-- ===== src/Api/Admin/SetClaims.antt =====
-- When claims are set.
use threadr.Common.{
  String, false, ◌≡◌, ◌≢◌, ◌↔◌, refl, subst, str_eq, str_eq_iff, arith, sym, ◌∙◌, ap, Bool-cases,
  inl, inr,
}
use mathlib.Core.Bool.{false≢true}
use threadr.Common.Exec.{Result, ok, err}
use threadr.Api.Middleware.{Ctx, api_key_middleware}
use threadr.Api.Admin.{
  ClaimsRequest, Directory, status_of, answer, claims_set, set_claims_of, set_claims_parsed,
  set_custom_claims_handler, set_claims_route, get_claims_route,
}

module _ {W : Type 0} (directory : Directory W) where
  -- The claims are set, for the user and with the claims of the body.
  abbrev pub SetsClaims : ClaimsRequest → W → Type 0
  SetsClaims body w =
      (directory.auth_client ≡ ok tt)
      × ((directory.set_custom_user_claims body.user_id body.claims w).0 ≡ ok tt)

  claims_set_iff :
      (outcome : Result (Unit {0})) (w : W)
      → (status_of (claims_set directory outcome w).0 ≡ 200) ↔ (outcome ≡ ok tt)
  claims_set_iff (ok tt) w = ((λ h. refl), (λ h. refl))
  claims_set_iff (err e) w = ((λ h. absurd (omega arith)), (λ h. absurd cc))

  set_claims_of_iff :
      (client : Result (Unit {0})) (body : ClaimsRequest) (w : W)
      → (status_of (set_claims_of directory client body w).0 ≡ 200) ↔ (
          (client ≡ ok tt)
          × ((directory.set_custom_user_claims body.user_id body.claims w).0 ≡ ok tt))
  set_claims_of_iff (err e) body w = ((λ h. absurd (omega arith)), (λ h. absurd cc))
  set_claims_of_iff (ok tt) body w =
      let set =
        claims_set_iff (directory.set_custom_user_claims body.user_id body.claims w).0
          (directory.set_custom_user_claims body.user_id body.claims w).1 in
      ((λ h. (refl, set.0 h)), (λ (same, h). set.1 h))

  set_claims_parsed_iff :
      (parsed : Result ClaimsRequest) (w : W)
      → (status_of (set_claims_parsed directory parsed w).0 ≡ 200)
        ↔ ((body : ClaimsRequest) × (parsed ≡ ok body) × SetsClaims body w)
  set_claims_parsed_iff (err e) w = ((λ h. absurd (omega arith)), (λ h. absurd cc))
  set_claims_parsed_iff (ok body) w =
      let set = set_claims_of_iff directory.auth_client in
      (
        (λ h. (body, refl, (set body w).0 h)),
        (λ (given, same, sets). (set body w).1 (
            subst (λ (b : ClaimsRequest). SetsClaims b w)
              (ap (λ r. elim r [ ok b ↦ b | err e ↦ body ]) (sym same)) sets)),
      )

  -- A request to set claims is answered with success exactly if it carries the key that the API was
  -- started with, its body is read, and the directory sets the claims of that body for the user of
  -- that body. Without the key it is refused and nothing is called.
  pub set_claims_route_iff :
      (api_key : String) (c : Ctx) (w : W)
      → (status_of (set_claims_route directory api_key c w).0 ≡ 200) ↔ (
          (c.get "X-API-Key" ≡ api_key)
          × ((body : ClaimsRequest) × (directory.body_parser c ≡ ok body) × SetsClaims body w))
  unfolding set_claims_route set_custom_claims_handler api_key_middleware
  set_claims_route_iff api_key c w = elim (Bool-cases (str_eq (c.get "X-API-Key") api_key)) [
    | inl known ↦
        let parsed = set_claims_parsed_iff (directory.body_parser c) w in
        rw known ((λ h. ((str_eq_iff _ _).0 known, parsed.0 h)), (λ (key, set). parsed.1 set))
    | inr unknown ↦ rw unknown (
      (λ h. absurd (omega arith)),
      (λ (key, set). absurd (false≢true (sym unknown ∙ (str_eq_iff _ _).1 key))),
    )
  ]

  -- What a request that is answered with success leaves behind.
  pub set_claims_route_world :
      (api_key : String) (c : Ctx) (w : W) (body : ClaimsRequest)
      → c.get "X-API-Key" ≡ api_key
      → directory.body_parser c ≡ ok body
      → directory.auth_client ≡ ok tt
      → (directory.set_custom_user_claims body.user_id body.claims w).0 ≡ ok tt
      → (set_claims_route directory api_key c w).1
        ≡ (directory.set_custom_user_claims body.user_id body.claims w).1
  unfolding set_claims_route set_custom_claims_handler api_key_middleware
  set_claims_route_world api_key c w body key read client set =
      rw ((str_eq_iff _ _).1 key, read, client, set) refl

  -- Without the key neither administrative route calls anything.
  pub no_key_no_call :
      (api_key : String) (c : Ctx) (w : W)
      → c.get "X-API-Key" ≢ api_key
      → (set_claims_route directory api_key c w ≡ answer 401 "Invalid API key" w)
        × (get_claims_route directory api_key c w ≡ answer 401 "Invalid API key" w)
  unfolding set_claims_route get_claims_route api_key_middleware
  no_key_no_call api_key c w wrong =
      let refused : str_eq (c.get "X-API-Key") api_key ≡ false =
        ground (arith, str_eq_iff (c.get "X-API-Key") api_key) in
      rw refused (refl, refl)
