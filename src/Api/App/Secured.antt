-- ===== src/Api/App/Secured.antt =====
-- What becomes of a request to the secured group.
use threadr.Common.{
  String, none, [], ◌∷◌, ◌≡◌, ◌≢◌, ◌↔◌, refl, sym, ap, ◌∙◌, Bool-cases, inl, inr, arith,
}
use threadr.Common.Exec.{Result, ok, err}
use threadr.Api.Middleware.{
  Ctx, Claims, Reply, Verdict, stop, next, lacks_text, check_claims, verified, with_client,
  TokenVerifier, role_instance_middleware, IsEntitled, role_instance_middleware_iff,
}
use threadr.Api.Admin.{Outcome, panicked, status_of, guarded, welcome_user}
use threadr.Api.App.{FirebaseApp, secure_guard, secure_handler, served}

abbrev IsRefusal : Verdict → Type 0
IsRefusal next = Unit
IsRefusal (stop reply) = reply.status ≢ 200

check_claims-IsRefusal :
    (role instance_claim expected : String) (claims : Claims)
    → IsRefusal (check_claims role instance_claim expected claims)
check_claims-IsRefusal role instance_claim expected claims =
    elim (Bool-cases (lacks_text (claims "role") role)) [
      | inl lacks ↦ rw lacks (λ h. omega arith)
      | inr has ↦ elim (Bool-cases (lacks_text (claims instance_claim) expected)) [
        | inl lacks ↦ rw (has, lacks) (λ h. omega arith)
        | inr has_too ↦ rw (has, has_too) tt
      ]
    ]

verified-IsRefusal :
    (check : Claims → Verdict) (token : Result Claims)
    → ((claims : Claims) → IsRefusal (check claims))
    → IsRefusal (verified check token)
verified-IsRefusal check (ok claims) refuses = refuses claims
verified-IsRefusal check (err e) refuses = λ h. omega arith

with_client-IsRefusal :
    (client : Result (Unit {0})) (verdict : Verdict)
    → IsRefusal verdict
    → IsRefusal (with_client client verdict)
with_client-IsRefusal (ok tt) verdict refuses = refuses
with_client-IsRefusal (err e) verdict refuses = λ h. omega arith

role_instance_middleware-IsRefusal :
    (firebase : TokenVerifier) (c : Ctx) → IsRefusal (role_instance_middleware firebase c)
unfolding role_instance_middleware
role_instance_middleware-IsRefusal firebase c = with_client-IsRefusal firebase.auth_client _ (
    verified-IsRefusal _ (firebase.verify_id_token (c.get "Authorization"))
      (check_claims-IsRefusal "admin" "instanceId" (c.params "instance")))

module _ {D : Type 0} (handler : D → Outcome × D) where
  guarded_panics_iff :
      (verdict : Verdict) (d : D)
      → IsRefusal verdict
      → handler d ≡ (panicked, d)
      → (((guarded verdict handler d).0 ≡ panicked) ↔ (verdict ≡ next))
        × (status_of (guarded verdict handler d).0 ≢ 200)
  guarded_panics_iff (stop reply) d refuses panics = (((λ h. cc), (λ h. cc)), refuses)
  guarded_panics_iff next d refuses panics = (
    ((λ h. refl), (λ h. ap (λ r. r.0) panics)),
    (λ h. let clash : 0 ≡ 200 = sym (ap (λ r. status_of r.0) panics) ∙ h in omega arith),
  )

-- A request to the secured group, which fiber leads to the guard and from there to the handler, is
-- never answered with success: it panics exactly if the token that it carries is valid, and the
-- token's claims say "admin" and name the instance that the guard reads of the path, and is refused
-- otherwise. Nothing has put the claims where the handler takes them from.
pub secure_group_never_succeeds :
    {D : Type 0} (firebase : FirebaseApp D) (not_found : Reply) (c h : Ctx) (d : D)
    → h.locals "user" ≡ none
    → (((served not_found ((secure_guard firebase, c) ∷ (secure_handler, h) ∷ []) d).0 ≡ panicked)
        ↔ IsEntitled "admin" "instanceId" firebase.verifier c)
      × (status_of (served not_found ((secure_guard firebase, c) ∷ (secure_handler, h) ∷ []) d).0
          ≢ 200)
unfolding served
secure_group_never_succeeds firebase not_found c h d unset =
    let entitled = role_instance_middleware_iff firebase.verifier c in
    let (panics, fails) =
      guarded_panics_iff (served not_found ((secure_handler, h) ∷ []))
        (role_instance_middleware firebase.verifier c) d
        (role_instance_middleware-IsRefusal firebase.verifier c)
        (ap (λ claims. welcome_user claims d) unset) in
    (((λ p. entitled.0 (panics.0 p)), (λ e. panics.1 (entitled.1 e))), fails)
