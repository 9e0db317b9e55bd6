-- ===== src/Api/App.antt =====
-- cmd/api/main.go, pkg/api/firebase/firebase.go and pkg/api/routes/routes.go: which routes the API
-- serves. godotenv, firebase and fiber are parameters; fiber's choice of the routes for a request is a
-- list of picks.
pub mod Keyed
pub mod Secured
use threadr.Common.{String, List, [], ◌∷◌, ◌++◌}
use threadr.Common.Exec.{Exec, gets, attempt, wrap, ◌>>=◌, ◌>>◌}
use threadr.Api.Middleware.{Ctx, Claims, Reply, Verdict, TokenVerifier, role_instance_middleware}
use threadr.Api.Admin.{
  Directory, Outcome, answered, Handler, answer, guarded, set_claims_route, get_claims_route,
  welcome_user,
}

pub data Method : Type 0 where
  get : Method
  post : Method

-- A registration with fiber: a guard for all that is under a path, or a handler for one.
pub data Route (D : Type 0) : Type 0 where
  use_at : String → (Ctx → Verdict) → Route D
  handle : Method → String → Handler D → Route D

pub record FirebaseApp (D : Type 0) : Type 0 where
  pub verifier : TokenVerifier
  pub directory : Directory D

module _ {D : Type 0} where
  abbrev pub secure_guard : FirebaseApp D → Route D
  secure_guard firebase = use_at "/secure" (role_instance_middleware firebase.verifier)

  -- Behind the guard on the whole group, the handler is a route of its own.
  abbrev pub secure_handler : Route D
  secure_handler = handle get "/secure/:instance" (λ c. welcome_user (c.locals "user"))

  abbrev pub setup_secure_routes : FirebaseApp D → List (Route D)
  setup_secure_routes firebase = secure_guard firebase ∷ secure_handler ∷ []

  abbrev pub hello : Handler D
  hello c = answer 200 "Hello, World 👋!"

  abbrev pub setup_routes : String → FirebaseApp D → List (Route D)
  setup_routes api_key firebase =
      handle get "/" hello
      ∷ handle post "/admin/set-claims" (set_claims_route firebase.directory api_key)
      ∷ handle get "/admin/get-claims/:userId" (get_claims_route firebase.directory api_key)
      ∷ []

  abbrev pub app_routes : String → FirebaseApp D → List (Route D)
  app_routes api_key firebase = setup_secure_routes firebase ++ setup_routes api_key firebase

  -- The routes that fiber picks for a request, each with what it reads of the request: a guard that
  -- passes the request on leads to the next one, and behind the last there is only `not_found`.
  unfoldable pub served : Reply → List (Route D × Ctx) → D → Outcome × D
  served not_found [] d = (answered not_found, d)
  served not_found ((use_at path guard, c) ∷ picks) d = guarded (guard c) (served not_found picks) d
  served not_found ((handle method path handler, c) ∷ picks) d = handler c d

  -- `SetCustomClaims` of firebase.go; a failure is only logged.
  unfoldable pub set_custom_claims : FirebaseApp D → String → Claims → D → D
  set_custom_claims firebase user_id claims d =
      (firebase.directory.set_custom_user_claims user_id claims d).1

pub record ApiCalls (W D : Type 0) : Type 0 where
  pub load_env : Exec W (Unit {0})
  pub getenv : String → W → String
  pub new_app : String → Exec W (FirebaseApp D)
  pub listen : String → List (Route D) → Exec W (Unit {0})

module _ {W D : Type 0} (calls : ApiCalls W D) where
  unfoldable pub setup_firebase_app : Exec W (FirebaseApp D)
  setup_firebase_app = gets (calls.getenv "FIREBASE_CREDS_JSON") >>= calls.new_app

  -- A missing file for the environment is only logged; `ApiKeyMiddleware` reads the key when the
  -- routes are registered.
  unfoldable pub api_main : Exec W (Unit {0})
  api_main = do
    attempt calls.load_env
    firebase ← wrap "Error initializing Firebase App" setup_firebase_app
    api_key ← gets (calls.getenv "ADMIN_API_KEY")
    wrap "Error starting server" (calls.listen ":3001" (app_routes api_key firebase))
