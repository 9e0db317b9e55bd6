-- ===== src/Api/Middleware.antt =====
-- pkg/api/middleware: who is let through to the handlers.
use threadr.Common.{
  ℕ, String, Bool, true, false, Option, none, some, not, ◌≡◌, ◌↔◌, refl, sym, subst, if◌then◌else◌,
  str_eq, str_eq_iff, arith,
}
use threadr.Common.Exec.{Result, ok, err}

pub record Reply : Type 0 where
  pub status : ℕ
  pub body : String

-- The value of a claim: the code asks whether it is a string or a Boolean.
pub data Claim : Type 0 where
  text : String → Claim
  flag : Bool → Claim
  other : Claim

abbrev pub Claims : Type 0
Claims = String → Option Claim

-- What one route reads of a request: `c.Get`, `c.Params`, of the path of that route, and `c.Locals`,
-- which holds what a middleware has put there.
pub record Ctx : Type 0 where
  pub get : String → String
  pub params : String → String
  pub locals : String → Option Claims

-- `FirebaseApp.Auth` and `VerifyIDToken`.
pub record TokenVerifier : Type 0 where
  pub auth_client : Result (Unit {0})
  pub verify_id_token : String → Result Claims

-- A middleware answers itself, or passes the request on (`c.Next()`).
pub data Verdict : Type 0 where
  stop : Reply → Verdict
  next : Verdict

abbrev pub reply : ℕ → String → Verdict
reply status body = stop (record { status = status; body = body })

unfoldable pub api_key_middleware : String → Ctx → Verdict
api_key_middleware api_key c =
    if not (str_eq (c.get "X-API-Key") api_key) then reply 401 "Invalid API key" else next

-- `v, ok := claims[name].(string)`, then `!ok || v != wanted`.
abbrev pub lacks_text : Option Claim → String → Bool
lacks_text (some (text v)) wanted = not (str_eq v wanted)
lacks_text (some (flag b)) wanted = true
lacks_text (some other) wanted = true
lacks_text none wanted = true

abbrev pub check_claims : String → String → String → Claims → Verdict
check_claims role instance_claim expected_instance_id claims =
    if lacks_text (claims "role") role
    then reply 403 "Access denied - You must be an admin"
    else if lacks_text (claims instance_claim) expected_instance_id
    then reply 403 "Access denied - Invalid instance access"
    else next

abbrev pub verified : (Claims → Verdict) → Result Claims → Verdict
verified check (ok claims) = check claims
verified check (err e) = reply 401 "Unauthorized access - Invalid token"

abbrev pub with_client : Result (Unit {0}) → Verdict → Verdict
with_client (ok client) verdict = verdict
with_client (err e) verdict = reply 500 "Internal Server Error"

unfoldable pub role_instance_middleware : TokenVerifier → Ctx → Verdict
role_instance_middleware firebase c = with_client firebase.auth_client (
    verified (check_claims "admin" "instanceId" (c.params "instance"))
      (firebase.verify_id_token (c.get "Authorization")))

unfoldable pub super_admin_auth_middleware : TokenVerifier → Ctx → Verdict
super_admin_auth_middleware firebase c = with_client firebase.auth_client (
    verified (check_claims "super" "InstanceId" (c.params "instance"))
      (firebase.verify_id_token (c.get "Authorization")))

-- The token of the request is valid, and its claims give the role and the instance that is read of
-- the path.
abbrev pub IsEntitled : String → String → TokenVerifier → Ctx → Type 0
IsEntitled role instance_claim firebase c =
    (firebase.auth_client ≡ ok tt)
    × ((claims : Claims) × (firebase.verify_id_token (c.get "Authorization") ≡ ok claims)
        × (claims "role" ≡ some (text role))
        × (claims instance_claim ≡ some (text (c.params "instance"))))

has_text_iff :
    (claim : Option Claim) (wanted : String)
    → (lacks_text claim wanted ≡ false) ↔ (claim ≡ some (text wanted))
has_text_iff none wanted = ((λ h. cc), (λ h. cc))
has_text_iff (some (flag b)) wanted = ((λ h. cc), (λ h. cc))
has_text_iff (some other) wanted = ((λ h. cc), (λ h. cc))
has_text_iff (some (text v)) wanted = ground (arith, str_eq_iff v wanted)

check_claims_iff :
    (role instance_claim expected : String) (claims : Claims)
    → (check_claims role instance_claim expected claims ≡ next)
      ↔ ((claims "role" ≡ some (text role)) × (claims instance_claim ≡ some (text expected)))
check_claims_iff role instance_claim expected claims =
    ground (arith, has_text_iff (claims "role") role, has_text_iff (claims instance_claim) expected)

verified_iff :
    (check : Claims → Verdict) (token : Result Claims)
    → (verified check token ≡ next)
      ↔ ((claims : Claims) × (token ≡ ok claims) × (check claims ≡ next))
verified_iff check (ok claims) = (
  (λ h. (claims, refl, h)),
  (λ (given, same, passes). subst (λ r. verified check r ≡ next) (sym same) passes),
)
verified_iff check (err e) = ((λ h. cc), (λ (given, same, passes). cc))

entitled_iff :
    (role instance_claim : String) (firebase : TokenVerifier) (c : Ctx) (client : Result (Unit {0}))
    → (with_client client (
          verified
            (check_claims role instance_claim (c.params "instance"))
            (firebase.verify_id_token (c.get "Authorization")))
        ≡ next)
      ↔ ((client ≡ ok tt)
          × ((claims : Claims) × (firebase.verify_id_token (c.get "Authorization") ≡ ok claims)
              × (claims "role" ≡ some (text role))
              × (claims instance_claim ≡ some (text (c.params "instance")))))
entitled_iff role instance_claim firebase c (err e) = ((λ h. cc), (λ (same, rest). cc))
entitled_iff role instance_claim firebase c (ok tt) = (
  (λ h.
      let (claims, valid, passes) =
        (verified_iff _ (firebase.verify_id_token (c.get "Authorization"))).0 h in
      let (has_role, has_instance) =
        (check_claims_iff role instance_claim (c.params "instance") claims).0 passes in
      (refl, (claims, valid, has_role, has_instance))),
  (λ (same, (claims, valid, has_role, has_instance)).
      (verified_iff _ (firebase.verify_id_token (c.get "Authorization"))).1 (
        claims,
        valid,
        (check_claims_iff role instance_claim (c.params "instance") claims).1
            (has_role, has_instance),
      )),
)

-- A request to a secured route is passed on exactly if the token that it carries is valid, and the
-- token's claims say "admin" and name the instance that the guard reads of the path.
pub role_instance_middleware_iff :
    (firebase : TokenVerifier) (c : Ctx)
    → (role_instance_middleware firebase c ≡ next) ↔ IsEntitled "admin" "instanceId" firebase c
unfolding role_instance_middleware
role_instance_middleware_iff firebase c =
    entitled_iff "admin" "instanceId" firebase c firebase.auth_client

-- The guard for super administrators passes exactly the requests whose token is valid and says
-- "super", and names the instance that it reads of the path under "InstanceId", which is not the claim that the
-- guard of the secured routes reads.
pub super_admin_auth_middleware_iff :
    (firebase : TokenVerifier) (c : Ctx)
    → (super_admin_auth_middleware firebase c ≡ next) ↔ IsEntitled "super" "InstanceId" firebase c
unfolding super_admin_auth_middleware
super_admin_auth_middleware_iff firebase c =
    entitled_iff "super" "InstanceId" firebase c firebase.auth_client
