-- ===== src/Api/Client.antt =====
-- The administrative client of cmd/client/admin: claims.go, secure.go and main.go. net/http and
-- encoding/json are the record `Transport`.
pub mod RoundTrip
use threadr.Common.{ℕ, String, [], ◌∷◌, not, ◌==◌, if◌then◌else◌, str_eq}
use threadr.Common.Maps.{Entries}
use threadr.Common.Http.{Request, set_header}
use threadr.Common.Exec.{Result, failed, Exec, pure, raise, lift, attempt, ◌>>=◌, ◌>>◌}
use Prim.Native.String.{◌++◌ as str_append}

-- The `Claims` that are sent: a map of texts.
pub record SentClaims : Type 0 where
  pub user_id : String
  pub claims : Entries

-- Reading the body of an answer may fail.
pub record Response : Type 0 where
  pub status_code : ℕ
  pub read_body : Result String

-- `new_request` takes a method, a URL and a body.
pub record Transport (W : Type 0) : Type 0 where
  pub new_request : String → String → String → Result Request
  pub send : Request → Exec W Response
  pub marshal : SentClaims → Result String
  pub decimal : ℕ → String

abbrev pub set_claims_url : String
set_claims_url = "http://localhost:3001/admin/set-claims"

abbrev pub get_claims_url : String → String
get_claims_url user_id = str_append "http://localhost:3001/admin/get-claims/" user_id

abbrev pub secure_endpoint : String → String
secure_endpoint instance_id = str_append "http://localhost:3001/secure/" instance_id

abbrev pub keyed : String → Request → Request
keyed api_key request =
    set_header "X-API-Key" api_key (set_header "Content-Type" "application/json" request)

-- The header is a placeholder in the code too.
abbrev pub with_token : String → Request → Request
with_token api_key request =
    set_header "X-API-Key" api_key (set_header "Authorization" "Bearer <Token>" request)

abbrev pub user_claims : Entries
user_claims = ("role", "admin") ∷ ("instanceId", "threadr") ∷ []

module _ {W : Type 0} (http : Transport W) where
  -- The body is read before the status is looked at.
  unfoldable pub check_answer : String → Response → Exec W (Unit {0})
  check_answer message response = do
    body ← lift response.read_body
    if not (response.status_code == 200)
        then raise (failed (str_append message (http.decimal response.status_code)))
        else pure tt

  -- The format of the URL is a function of the id.
  unfoldable pub get_claims : (String → String) → String → String → Exec W (Unit {0})
  get_claims api_url api_key user_id = do
    request ← lift (http.new_request "GET" (api_url user_id) "")
    response ← http.send (keyed api_key request)
    check_answer "failed to get claims, server responded with status code: " response

  unfoldable pub send_claims_update : String → String → String → Entries → Exec W (Unit {0})
  send_claims_update api_url api_key user_id user_claims = do
    claims_json ← lift (http.marshal (record { user_id = user_id; claims = user_claims }))
    request ← lift (http.new_request "POST" api_url claims_json)
    response ← http.send (keyed api_key request)
    check_answer "failed to set claims, server responded with status code: " response

  unfoldable pub access_secure_endpoint : String → String → Exec W (Unit {0})
  access_secure_endpoint url api_key = do
    request ← lift (http.new_request "GET" url "")
    response ← http.send (with_token api_key request)
    check_answer "failed to access secure endpoint, server responded with status code: " response

  -- `main`: an error is printed, and ends the program.
  unfoldable pub admin_main : (String → String) → Exec W (Unit {0})
  admin_main getenv =
      let api_key = getenv "ADMIN_API_KEY" in
      let user_id = getenv "FIREBASE_USER_ID" in
      if str_eq api_key ""
      then raise (failed "ADMIN_API_KEY is not set.")
      else (send_claims_update set_claims_url api_key user_id user_claims
          >> get_claims get_claims_url api_key user_id
          >> access_secure_endpoint (secure_endpoint "threadr") api_key)
