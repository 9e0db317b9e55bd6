-- ===== src/Api/Tests/App.antt =====
-- The API with the key "secret", which its environment file sets; the directory is a number.
use threadr.Common.{
  ℕ, String, none, some, [], ◌∷◌, ◌≡◌, ◌≢◌, ◌↔◌, refl, length, str_eq, str_ne, if◌then◌else◌,
}
use mathlib.Core.List.{Memᴰ}
use threadr.Common.Exec.{ok, err, not_found, ◌>>=◌}
use threadr.Api.Middleware.{
  Ctx, text, Reply, api_key_middleware, role_instance_middleware, IsEntitled,
}
use threadr.Api.Admin.{panicked, status_of, set_custom_claims_handler, set_claims_route}
use threadr.Api.App.{
  Route, handle, secure_guard, secure_handler, post, FirebaseApp, served, set_custom_claims,
  ApiCalls, setup_firebase_app, api_main,
}
use threadr.Api.App.Keyed.{keyless_changes_nothing}
use threadr.Api.App.Secured.{secure_group_never_succeeds}

abbrev request : Ctx
request = record { get = λ name. "guess"; params = λ name. "i1"; locals = λ name. none }

abbrev firebase : FirebaseApp ℕ
firebase = record {
  verifier = record {
    auth_client = ok tt;
    verify_id_token =
        λ token. ok (λ name. if str_eq name "role" then some (text "admin") else some (text "i1"));
  };
  directory = record {
    body_parser = λ c. ok (record { user_id = "u1"; claims = λ name. none });
    auth_client = ok tt;
    set_custom_user_claims = λ user claims n. (ok tt, 1);
    get_user = λ user n. (err not_found, n);
  };
}

abbrev missing : Reply
missing = record { status = 404; body = "Cannot GET" }

abbrev set_claims : Route ℕ
set_claims = handle post "/admin/set-claims" (set_claims_route firebase.directory "secret")

-- The guard on the group passes, and the handler behind it panics.
secure_test :
    served {D = ℕ} missing ((secure_guard firebase, request) ∷ (secure_handler, request) ∷ []) 5
    ≡ (panicked, 5)
unfolding served role_instance_middleware
secure_test = refl

keyed_test : (served missing ((set_claims, record request { get = λ name. "secret" }) ∷ []) 0).1 ≡ 1
unfolding served set_claims_route set_custom_claims_handler api_key_middleware
keyed_test = refl

direct_test : set_custom_claims firebase "u1" (λ name. none) 0 ≡ 1
unfolding set_custom_claims
direct_test = refl

keyless_changes_nothing_example : (served missing ((set_claims, request) ∷ []) 0).1 ≡ 0
keyless_changes_nothing_example =
    keyless_changes_nothing "secret" firebase missing ((set_claims, request) ∷ []) 0
      ((Memᴰ.tail (Memᴰ.tail (Memᴰ.tail (Memᴰ.head refl))), str_ne "guess" "secret" refl), tt)

-- The world is the key that is set, and the number of routes that are served.
abbrev calls : ApiCalls (String × ℕ) ℕ
calls = record {
  load_env = λ w. (ok tt, ("secret", 0));
  getenv = λ name w. w.0;
  new_app = λ creds w. (ok firebase, w);
  listen = λ addr routes w. (ok tt, (w.0, length routes));
}

main_test : api_main calls ("", 0) ≡ (ok tt, ("secret", 5))
unfolding api_main setup_firebase_app ◌>>=◌
main_test = refl

secure_group_never_succeeds_example :
    (((served {D = ℕ} missing
          ((secure_guard firebase, request) ∷ (secure_handler, request) ∷ [])
          5).0
        ≡ panicked)
      ↔ IsEntitled "admin" "instanceId" firebase.verifier request)
    × (status_of
          (served {D = ℕ} missing
            ((secure_guard firebase, request) ∷ (secure_handler, request) ∷ [])
            5).0
        ≢ 200)
secure_group_never_succeeds_example =
    secure_group_never_succeeds firebase missing request request 5 refl
