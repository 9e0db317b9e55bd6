-- ===== src/Api/Tests/Client.antt =====
-- The administrative client against an API that knows one user.
use threadr.Common.{
  ℕ, String, Bool, true, none, some, [], ◌∷◌, ◌&&◌, ◌≡◌, ◌↔◌, refl, sym, ap, if◌then◌else◌, str_eq,
  str_eq_iff, arith, String-discrete, slices_discrete, deep_equal, deep_equal_iff, Bool-cases, inl,
  inr,
}
use threadr.Common.Maps.{Entries, lookup, insert, or_empty}
use threadr.Common.Http.{Request}
use threadr.Common.Exec.{Result, ok, err, not_found, ◌>>=◌}
use threadr.Api.Middleware.{Ctx, Claims, TokenVerifier, next, role_instance_middleware}
use threadr.Api.Middleware.{api_key_middleware}
use threadr.Api.Admin.{Directory, status_of, set_claims_route, set_custom_claims_handler}
use threadr.Api.Client.{
  SentClaims, Response, Transport, set_claims_url, user_claims, send_claims_update, check_answer,
}
use threadr.Api.Client.RoundTrip.{Serves, IssuesTokens, decoded_claims, claims_round_trip}

Entries-discrete : Discrete Entries
unfolding String-discrete slices_discrete
Entries-discrete = slices_discrete (hlevel String-discrete)

-- What the API knows is the claims of its user.
abbrev directory : Directory Claims
directory = record {
  body_parser = λ c.
      if str_eq (c.get "Content-Type") "application/json"
      then ok (record { user_id = "u1"; claims = decoded_claims user_claims })
      else err not_found;
  auth_client = ok tt;
  set_custom_user_claims = λ user_id claims w. (ok tt, claims);
  get_user = λ user_id w. (err not_found, w);
}

abbrev ctx_of : Request → Ctx
ctx_of request = record {
  get = λ name. or_empty (lookup name request.header);
  params = λ name. "threadr";
  locals = λ name. none;
}

-- The one update that can be encoded.
abbrev is_known : SentClaims → Bool
is_known sent = str_eq sent.user_id "u1" && deep_equal Entries-discrete sent.claims user_claims

abbrev http : Transport Claims
http = record {
  new_request =
      λ method url body. ok (record { method = method; url = url; body = body; header = [] });
  send = λ request w.
      let (outcome, v) = set_claims_route directory "secret" (ctx_of request) w in
      (ok (record { status_code = status_of outcome; read_body = ok "" }), v);
  marshal = λ sent. if is_known sent then ok "{}" else err not_found;
  decimal = λ n. "";
}

known_parts :
    (sent : SentClaims) → is_known sent ≡ true → (sent.user_id ≡ "u1") × (sent.claims ≡ user_claims)
known_parts sent h =
    ground
      (arith, str_eq_iff sent.user_id "u1", deep_equal_iff Entries-discrete sent.claims user_claims)

body_known :
    (sent : SentClaims) (request : Request)
    → http.marshal sent ≡ ok request.body
    → lookup "Content-Type" request.header ≡ some "application/json"
    → directory.body_parser (ctx_of request)
      ≡ ok (record { user_id = sent.user_id; claims = decoded_claims sent.claims })
body_known sent request h json = elim (Bool-cases (is_known sent)) [
  | inl known ↦
      let (user, same) = known_parts sent known in
      let typed = ap or_empty json in
      rw typed (sym (λ i. ok (record { user_id = user i; claims = decoded_claims (same i) })))
  | inr unknown ↦ absurd (cc (rw unknown at h))
]

abbrev asked : Request
asked = record {
  method = "GET";
  url = "http://localhost:3001/secure/threadr";
  body = "";
  header = ("Authorization", "t2") ∷ [];
}

abbrev status_in : Result Response → ℕ
status_in (ok response) = response.status_code
status_in (err e) = 0

serves : Serves http directory "secret"
serves = record {
  ctx_of = ctx_of;
  header_kept = λ request name value h. ap or_empty h;
  body_given = λ method url body request h. ground arith;
  body_read = body_known;
  set_claims_served = λ request response w w' posted addressed h. (
    sym (ap (λ (r : Result Response × Claims). status_in r.0) h),
    sym (ap (λ (r : Result Response × Claims). r.1) h),
  );
}

-- Two tokens of the user: "t2" was issued after the update, and any other before.
abbrev firebase : TokenVerifier
firebase = record {
  auth_client = ok tt;
  verify_id_token =
      λ token. ok (if str_eq token "t2" then decoded_claims user_claims else (λ name. none));
}

abbrev tokens : IssuesTokens directory firebase
tokens = record {
  IsIssued = λ claims user_id token. firebase.verify_id_token token ≡ ok claims;
  ready = refl;
  carries = λ user_id token claims w set issued. issued;
}

update_test :
    send_claims_update http set_claims_url "secret" "u1" user_claims (λ name. none)
    ≡ (ok tt, decoded_claims user_claims)
unfolding send_claims_update set_claims_route set_custom_claims_handler api_key_middleware
    check_answer lookup insert ◌>>=◌ String-discrete slices_discrete Entries-discrete
update_test = refl

claims_round_trip_example :
    ◌≡◌ {A = String} "secret" "secret"
    × ((role_instance_middleware firebase (ctx_of asked) ≡ next) ↔ (
        (lookup "role" user_claims ≡ some "admin")
        × (lookup "instanceId" user_claims ≡ some "threadr")))
unfolding lookup
claims_round_trip_example =
    claims_round_trip http directory "secret" firebase serves tokens "secret" "u1" user_claims
      (ctx_of asked) (λ name. none) (decoded_claims user_claims) update_test refl
