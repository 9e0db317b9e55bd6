-- ===== src/Api/Admin.antt =====
-- The administrative routes of pkg/api/routes and the handlers of pkg/api/handlers behind them.
pub mod SetClaims
pub mod Panics
use threadr.Common.{
  Option, none, some, ℕ, String, false, ◌≡◌, ◌≢◌, ◌↔◌, refl, subst, str_eq, str_eq_iff, arith, sym,
  ◌∙◌, ap, Bool-cases, inl, inr,
}
use Prim.Native.String.{◌++◌ as str_append}
use threadr.Common.Exec.{Result, ok, err, Exec}
use threadr.Api.Middleware.{
  Ctx, Claim, text, flag, other, Reply, Claims, Verdict, stop, next, api_key_middleware,
  role_instance_middleware, TokenVerifier,
}

pub record ClaimsRequest : Type 0 where
  pub user_id : String
  pub claims : Claims

-- A user record: as JSON, and the claims.
pub record User : Type 0 where
  pub json : String
  pub custom_claims : Claims

-- `c.BodyParser`, and the calls of the firebase Auth client on a world.
pub record Directory (W : Type 0) : Type 0 where
  pub body_parser : Ctx → Result ClaimsRequest
  pub auth_client : Result (Unit {0})
  pub set_custom_user_claims : String → Claims → Exec W Unit
  pub get_user : String → Exec W User

-- A handler answers, or panics.
pub data Outcome : Type 0 where
  answered : Reply → Outcome
  panicked : Outcome

abbrev pub status_of : Outcome → ℕ
status_of (answered reply) = reply.status
status_of panicked = 0

abbrev pub Handler : Type 0 → Type 0
Handler W = Ctx → W → Outcome × W

abbrev pub answer : {W : Type 0} → ℕ → String → W → Outcome × W
answer status body w = (answered (record { status = status; body = body }), w)

-- The routing: a middleware's own answer, or the handler behind it.
abbrev pub guarded : {W : Type 0} → Verdict → (W → Outcome × W) → W → Outcome × W
guarded (stop reply) handler w = (answered reply, w)
guarded next handler w = handler w

module _ {W : Type 0} (directory : Directory W) where
  abbrev pub claims_set : Result (Unit {0}) → W → Outcome × W
  claims_set (ok done) w = answer 200 "Custom claims updated successfully" w
  claims_set (err e) w = answer 500 "Failed to set custom claims" w

  abbrev pub set_claims_of : Result (Unit {0}) → ClaimsRequest → W → Outcome × W
  set_claims_of (err e) body w = answer 500 "Failed to get Auth client" w
  set_claims_of (ok client) body w =
      let (outcome, v) = directory.set_custom_user_claims body.user_id body.claims w in
      claims_set outcome v

  abbrev pub set_claims_parsed : Result ClaimsRequest → W → Outcome × W
  set_claims_parsed (err e) w = answer 400 "Bad request" w
  set_claims_parsed (ok body) w = set_claims_of directory.auth_client body w

  unfoldable pub set_custom_claims_handler : Handler W
  set_custom_claims_handler c = set_claims_parsed (directory.body_parser c)

  -- `admin.(bool)` has no second result: it panics on a claim that is no Boolean.
  abbrev pub log_admin : Option Claim → Outcome × W → W → Outcome × W
  log_admin none reply w = reply
  log_admin (some (flag admin)) reply w = reply
  log_admin (some (text t)) reply w = (panicked, w)
  log_admin (some other) reply w = (panicked, w)

  abbrev pub user_found : Result User → W → Outcome × W
  user_found (ok user) w = log_admin (user.custom_claims "admin") (answer 200 user.json w) w
  user_found (err e) w = answer 500 "Failed to get user" w

  abbrev pub get_claims_of : Result (Unit {0}) → String → W → Outcome × W
  get_claims_of (err e) user_id w = answer 500 "Failed to get Auth client" w
  get_claims_of (ok client) user_id w =
      let (outcome, v) = directory.get_user user_id w in user_found outcome v

  unfoldable pub get_custom_claims_handler : Handler W
  get_custom_claims_handler c = get_claims_of directory.auth_client (c.params "userId")

  -- `admin.Post("/set-claims", ApiKeyMiddleware(), …)` and `admin.Get("/get-claims/:userId", …)`.
  unfoldable pub set_claims_route : String → Handler W
  set_claims_route api_key c = guarded (api_key_middleware api_key c) (set_custom_claims_handler c)

  unfoldable pub get_claims_route : String → Handler W
  get_claims_route api_key c = guarded (api_key_middleware api_key c) (get_custom_claims_handler c)

-- The handler of `/:instance` takes the claims from where no middleware puts them.
abbrev pub welcome : {W : Type 0} → Option Claim → W → Outcome × W
welcome (some (text instance_id)) w =
    answer 200 (str_append "Welcome Admin, Instance ID: " instance_id) w
welcome (some (flag b)) w = (panicked, w)
welcome (some other) w = (panicked, w)
welcome none w = (panicked, w)

abbrev pub welcome_user : {W : Type 0} → Option Claims → W → Outcome × W
welcome_user none w = (panicked, w)
welcome_user (some claims) w = welcome (claims "instanceId") w

unfoldable pub secure_route : {W : Type 0} → TokenVerifier → Handler W
secure_route firebase c =
    guarded (role_instance_middleware firebase c) (welcome_user (c.locals "user"))
