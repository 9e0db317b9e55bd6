-- ===== src/Api/Tests.antt =====
-- Requests to the guards and the routes.
mod Client
mod App
use threadr.Common.{ℕ, none, some, ◌≡◌, ◌↔◌, refl, str_eq, str_ne, if◌then◌else◌}
use threadr.Common.Exec.{ok}
use threadr.Api.Middleware.{
  Ctx, Claims, text, TokenVerifier, next, api_key_middleware, role_instance_middleware,
  super_admin_auth_middleware, IsEntitled, role_instance_middleware_iff,
  super_admin_auth_middleware_iff,
}
use threadr.Api.Admin.{
  ClaimsRequest, Directory, set_custom_claims_handler, set_claims_route, get_claims_route, answer,
  status_of, User, panicked,
}
use threadr.Api.Admin.SetClaims.{SetsClaims, set_claims_route_iff}
use threadr.Api.Admin.Panics.{IsNoFlag, get_claims_route_panics_iff}

abbrev request : Ctx
request = record {
  get = λ name. if str_eq name "X-API-Key" then "secret" else "token";
  params = λ name. "i1";
  locals = λ name. none;
}

-- An administrator of the instance i1, as the API's own claims spell it.
abbrev admin : Claims
admin name =
    if str_eq name "role"
    then some (text "admin")
    else if str_eq name "instanceId"
    then some (text "i1")
    else none

abbrev verifier : TokenVerifier
verifier = record { auth_client = ok tt; verify_id_token = λ token. ok admin }

passes_test : role_instance_middleware verifier request ≡ next
unfolding role_instance_middleware
passes_test = refl

role_instance_middleware_iff_example :
    (role_instance_middleware verifier request ≡ next)
    ↔ IsEntitled "admin" "instanceId" verifier request
role_instance_middleware_iff_example = role_instance_middleware_iff verifier request

super_admin_auth_middleware_iff_example :
    (super_admin_auth_middleware verifier request ≡ next)
    ↔ IsEntitled "super" "InstanceId" verifier request
super_admin_auth_middleware_iff_example = super_admin_auth_middleware_iff verifier request

-- A directory that counts its writes.
abbrev directory : Directory ℕ
directory = record {
  body_parser = λ c. ok (record { user_id = "u1"; claims = admin });
  auth_client = ok tt;
  set_custom_user_claims = λ user claims n. (ok tt, 1);
  get_user = λ user n. (ok (record { json = "{}"; custom_claims = λ name. some (text "yes") }), n);
}

set_test : (set_claims_route directory "secret" request 0).1 ≡ 1
unfolding set_claims_route set_custom_claims_handler api_key_middleware
set_test = refl

set_claims_route_iff_example :
    (status_of (set_claims_route directory "secret" request 0).0 ≡ 200) ↔ (
      (request.get "X-API-Key" ≡ "secret")
      × ((body : ClaimsRequest) × (directory.body_parser request ≡ ok body)
          × SetsClaims directory body 0))
set_claims_route_iff_example = set_claims_route_iff directory "secret" request 0

refused_test : get_claims_route directory "other" request 0 ≡ answer 401 "Invalid API key" 0
unfolding get_claims_route api_key_middleware
refused_test = refl

-- The claim "admin" of this user is the text "yes".
get_claims_route_panics_iff_example :
    ((get_claims_route directory "secret" request 0).0 ≡ panicked) ↔ (
      (request.get "X-API-Key" ≡ "secret")
      × (directory.auth_client ≡ ok tt)
      × ((user : User) × ((directory.get_user (request.params "userId") 0).0 ≡ ok user)
          × IsNoFlag directory (user.custom_claims "admin")))
get_claims_route_panics_iff_example = get_claims_route_panics_iff directory "secret" request 0
