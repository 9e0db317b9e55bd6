-- ===== src/Api/Client/RoundTrip.antt =====
-- What the administrative client sets is what the guard of the secured routes reads.
use threadr.Common.{
  String, Option, none, some, ◌≡◌, ◌↔◌, refl, sym, ap, ◌∙◌, subst, ◌==◌, ==_iff, str_eq_iff,
  Bool-cases, inl, inr,
}
use threadr.Common.Maps.{Entries, lookup, insert, lookup-insert}
use threadr.Common.Http.{Request, set_header}
use threadr.Common.Exec.{ok, err, bind-eq-ok, lift-eq-ok, raise-ne-ok, pure-eq-ok}
use threadr.Api.Middleware.{
  Ctx, Claim, text, Claims, TokenVerifier, next, role_instance_middleware,
  role_instance_middleware_iff,
}
use threadr.Api.Admin.{ClaimsRequest, Directory, status_of, set_claims_route}
use threadr.Api.Admin.SetClaims.{set_claims_route_iff, set_claims_route_world}
use threadr.Api.Client.{
  SentClaims, Response, Transport, set_claims_url, keyed, check_answer, send_claims_update,
}

-- A map of texts as the API decodes it.
abbrev pub text_of : Option String → Option Claim
text_of none = none
text_of (some v) = some (text v)

abbrev pub decoded_claims : Entries → Claims
decoded_claims claims name = text_of (lookup name claims)

-- The API behind the transport: a request becomes the context that the router hands to the handlers,
-- and what one side encodes as JSON the other decodes, if the request says that it is JSON.
pub record Serves {W : Type 0} (http : Transport W) (directory : Directory W) (api_key : String)
    : Type 0 where
  pub ctx_of : Request → Ctx
  pub header_kept :
      (request : Request) (name value : String)
      → lookup name request.header ≡ some value
      → (ctx_of request).get name ≡ value
  pub body_given :
      (method url body : String) (request : Request)
      → http.new_request method url body ≡ ok request
      → (request.method ≡ method) × (request.url ≡ url) × (request.body ≡ body)
  pub body_read :
      (sent : SentClaims) (request : Request)
      → http.marshal sent ≡ ok request.body
      → lookup "Content-Type" request.header ≡ some "application/json"
      → directory.body_parser (ctx_of request)
        ≡ ok (record { user_id = sent.user_id; claims = decoded_claims sent.claims })
  pub set_claims_served :
      (request : Request) (response : Response) (w w' : W)
      → request.method ≡ "POST"
      → request.url ≡ set_claims_url
      → http.send request w ≡ (ok response, w')
      → (response.status_code ≡ status_of (set_claims_route directory api_key (ctx_of request) w).0)
        × (w' ≡ (set_claims_route directory api_key (ctx_of request) w).1)

-- Firebase: a token that is issued to a user once the user's claims are set carries these claims. What
-- a token carries is in the token, so that the verifier has no world, and one issued before keeps what
-- it carried. It is verified before it expires.
pub record IssuesTokens {W : Type 0} (directory : Directory W) (firebase : TokenVerifier)
    : Type 1 where
  pub IsIssued : W → String → String → Type 0
  pub ready : firebase.auth_client ≡ ok tt
  pub carries :
      (user_id token : String) (claims : Claims) (w : W)
      → (directory.set_custom_user_claims user_id claims w).0 ≡ ok tt
      → IsIssued (directory.set_custom_user_claims user_id claims w).1 user_id token
      → firebase.verify_id_token token ≡ ok claims

module _ {W : Type 0} (http : Transport W) where
  check_answer-ok :
      (message : String) (response : Response) (w w' : W)
      → check_answer http message response w ≡ (ok tt, w')
      → (response.status_code ≡ 200) × (w ≡ w')
  unfolding check_answer
  check_answer-ok message response w w' h =
      let (body, v, read, rest) = bind-eq-ok _ _ h in
      let (_, same) = lift-eq-ok read in
      elim (Bool-cases (response.status_code == 200)) [
        | inl good ↦
            let (_, still) = pure-eq-ok (rw good at rest) in ((==_iff _ _).0 good, same ∙ still)
        | inr bad ↦ absurd (raise-ne-ok _ v (rw bad at rest))
      ]

  -- The request that a successful update has sent, and its answer.
  pub sent_update :
      (api_url api_key user_id : String) (claims : Entries) (w w' : W)
      → send_claims_update http api_url api_key user_id claims w ≡ (ok tt, w')
      → (payload : String) × (request : Request) × (response : Response) × (http.marshal
            (record { user_id = user_id; claims = claims })
          ≡ ok payload)
        × (http.new_request "POST" api_url payload ≡ ok request)
        × (http.send (keyed api_key request) w ≡ (ok response, w'))
        × (response.status_code ≡ 200)
  unfolding send_claims_update
  sent_update api_url api_key user_id claims w w' h =
      let (payload, u, made, h1) = bind-eq-ok _ _ h in
      let (request, v, built, h2) = bind-eq-ok _ _ h1 in
      let (response, x, sent, h3) = bind-eq-ok _ _ h2 in
      let (encoded, wu) = lift-eq-ok made in
      let (asked, uv) = lift-eq-ok built in
      let (good, xw) = check_answer-ok _ response x w' h3 in
      (
        payload,
        request,
        response,
        encoded,
        asked,
        ap (http.send (keyed api_key request)) (wu ∙ uv) ∙ sent ∙ (λ i. (ok response, xw i)),
        good,
      )

lookup-insert_self : (k v : String) (es : Entries) → lookup k (insert k v es) ≡ some v
lookup-insert_self k v es = rw (lookup-insert k k v es, (str_eq_iff k k).1 refl) refl

keyed-json :
    (key : String) (request : Request)
    → lookup "Content-Type" (keyed key request).header ≡ some "application/json"
keyed-json key request =
    lookup-insert "X-API-Key" "Content-Type" key
      (set_header "Content-Type" "application/json" request).header
    ∙ lookup-insert_self "Content-Type" "application/json" request.header

text_of_iff : (o : Option String) (v : String) → (text_of o ≡ some (text v)) ↔ (o ≡ some v)
text_of_iff none v = ((λ h. cc), (λ h. cc))
text_of_iff (some u) v = ((λ h. cc), (λ h. cc))

ok-injective : {A : Type 0} (a b : A) → ok a ≡ ok b → a ≡ b
ok-injective a b h = ap (λ r. elim r [ ok x ↦ x | err e ↦ a ]) h

-- The guard, for a token that carries the claims of a map of texts.
admitted_iff :
    (firebase : TokenVerifier) (c : Ctx) (claims : Entries)
    → firebase.auth_client ≡ ok tt
    → firebase.verify_id_token (c.get "Authorization") ≡ ok (decoded_claims claims)
    → (role_instance_middleware firebase c ≡ next) ↔ (
        (lookup "role" claims ≡ some "admin")
        × (lookup "instanceId" claims ≡ some (c.params "instance")))
admitted_iff firebase c claims client carried =
    let entitled = role_instance_middleware_iff firebase c in
    let role = text_of_iff (lookup "role" claims) "admin" in
    let instance_of = text_of_iff (lookup "instanceId" claims) (c.params "instance") in
    (
      (λ h.
          let (_, (given, valid, has_role, has_instance)) = entitled.0 h in
          let same : given ≡ decoded_claims claims =
            ok-injective given (decoded_claims claims) (sym valid ∙ carried) in
          (
            role.0 (ap (λ (f : Claims). f "role") (sym same) ∙ has_role),
            instance_of.0 (ap (λ (f : Claims). f "instanceId") (sym same) ∙ has_instance),
          )),
      (λ (has_role, has_instance).
          entitled.1 (
            client,
            (decoded_claims claims, carried, role.1 has_role, instance_of.1 has_instance),
          )),
    )

module _ {W : Type 0} (http : Transport W) (directory : Directory W) (api_key : String)
    (firebase : TokenVerifier) (s : Serves http directory api_key)
    (t : IssuesTokens directory firebase) where
  -- What a request to set claims, answered with 200, has made of the world.
  claims_are_set :
      (sent : SentClaims) (request : Request) (w : W)
      → http.marshal sent ≡ ok request.body
      → lookup "Content-Type" request.header ≡ some "application/json"
      → status_of (set_claims_route directory api_key (s.ctx_of request) w).0 ≡ 200
      → ((s.ctx_of request).get "X-API-Key" ≡ api_key)
        × ((directory.set_custom_user_claims sent.user_id (decoded_claims sent.claims) w).0 ≡ ok tt)
        × ((set_claims_route directory api_key (s.ctx_of request) w).1
            ≡ (directory.set_custom_user_claims sent.user_id (decoded_claims sent.claims) w).1)
  claims_are_set sent request w encoded json good =
      let read = s.body_read sent request encoded json in
      let given : ClaimsRequest = record {
        user_id = sent.user_id;
        claims = decoded_claims sent.claims;
      } in
      let (key, (body, parsed, (client, set))) =
        (set_claims_route_iff directory api_key (s.ctx_of request) w).0 good in
      let same : body ≡ given = ok-injective body given (sym parsed ∙ read) in
      let done =
        subst
          (λ (b : ClaimsRequest). (directory.set_custom_user_claims b.user_id b.claims w).0 ≡ ok tt)
          same set in
      (
        key,
        done,
        set_claims_route_world directory api_key (s.ctx_of request) w given key read client done,
      )

  -- An update of a user's claims by the client succeeds only with the key of the API, and a request
  -- with a token that is issued to that user after it is passed on to a secured route exactly if the
  -- claims that were sent say "admin" as the role and name the instance that the guard reads of the
  -- path. The API decodes only a body that the request says is JSON.
  pub claims_round_trip :
      (key user_id : String) (claims : Entries) (c : Ctx) (w w' : W)
      → send_claims_update http set_claims_url key user_id claims w ≡ (ok tt, w')
      → t.IsIssued w' user_id (c.get "Authorization")
      → (key ≡ api_key)
        × ((role_instance_middleware firebase c ≡ next) ↔ (
            (lookup "role" claims ≡ some "admin")
            × (lookup "instanceId" claims ≡ some (c.params "instance"))))
  claims_round_trip key user_id claims c w w' h token =
      let (payload, request, response, encoded, asked, sent, good) =
        sent_update http set_claims_url key user_id claims w w' h in
      let (posted, addressed, filled) = s.body_given "POST" set_claims_url payload request asked in
      let (status, world) =
        s.set_claims_served (keyed key request) response w w' posted addressed sent in
      let (known, set, left) =
        claims_are_set (record { user_id = user_id; claims = claims }) (keyed key request) w
          (encoded ∙ ap ok (sym filled)) (keyed-json key request) (sym status ∙ good) in
      (
        sym (
              s.header_kept (keyed key request) "X-API-Key" key (
                lookup-insert_self "X-API-Key" key
                  (set_header "Content-Type" "application/json" request).header))
            ∙ known,
        admitted_iff firebase c claims t.ready (
            t.carries user_id (c.get "Authorization") (decoded_claims claims) w set
              (subst (λ x. t.IsIssued x user_id (c.get "Authorization")) (world ∙ left) token)),
      )
