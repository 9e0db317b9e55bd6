-- ===== src/Operator/ControlPlane/Http/Outcome.antt =====
-- When a call of the control plane succeeds.
use threadr.Common.{
  ℕ, String, List, ◌≡◌, ◌↔◌, ◌⊎◌, inl, inr, str_eq, str_eq_iff, ◌==◌, ==_iff, Bool-cases, arith,
  ◌&&◌, sym, ◌∙◌,
}
use threadr.Common.Exec.{
  ok, pure, wrap-eq-ok, lift-eq-ok, pure-eq-ok, raise-ne-ok, bind_ok, wrap_lifted, wrap_result,
}
use threadr.Operator.ControlPlane.{BotContract, StatusReport}
use threadr.Common.Http.{Request, set_header}
use threadr.Operator.ControlPlane.Http.{
  Response, Transport, authorized, status_body, status_path, check_report, check_contracts,
  report_bot_status, list_bot_contracts,
}

-- What the control plane may answer to a report.
abbrev pub IsAccepted : StatusReport → ℕ → Type 0
IsAccepted report code = (code ≡ 200) ⊎ ((report.status ≡ "deleted") × (code ≡ 404))

module _ {W : Type 0} (http : Transport W) (token : String) where
  -- The request that carries a payload, with its three headers.
  abbrev pub with_headers : Request → Request
  with_headers request = set_header "Content-Type" "application/json" (authorized token request)

  check_report-ok :
      (report : StatusReport) (response : Response) (w w' : W)
      → check_report http token report response w ≡ (ok tt, w')
      → IsAccepted report response.status_code × (w ≡ w')
  unfolding check_report
  check_report-ok report response w w' h =
      elim (Bool-cases (str_eq report.status "deleted" && response.status_code == 404)) [
        | inl gone ↦
            let (_, same) = pure-eq-ok (rw gone at h) in
            (
              ground (
                arith,
                gone,
                str_eq_iff report.status "deleted",
                ==_iff response.status_code 404,
              ),
              same,
            )
        | inr strict ↦ elim (Bool-cases (response.status_code == 200)) [
          | inl good ↦
              let (_, same) = pure-eq-ok (rw (strict, good) at h) in
              (inl ((==_iff response.status_code 200).0 good), same)
          | inr bad ↦ absurd (raise-ne-ok _ w (rw (strict, bad) at h))
        ]
      ]

  check_report_accepted :
      (report : StatusReport) (response : Response) (w : W)
      → IsAccepted report response.status_code
      → check_report http token report response w ≡ (ok tt, w)
  unfolding check_report pure
  check_report_accepted report response w accepted = ground (
    arith,
    str_eq_iff report.status "deleted",
    ==_iff response.status_code 200,
    ==_iff response.status_code 404,
  )

  report_is_checked :
      (report : StatusReport) (payload : String) (request : Request) (response : Response) (w v : W)
      → http.marshal (status_body report) ≡ ok payload
      → http.new_request "POST" (http.resolve (status_path report)) payload ≡ ok request
      → http.send (with_headers request) w ≡ (ok response, v)
      → report_bot_status http token report w ≡ check_report http token report response v
  unfolding report_bot_status
  report_is_checked report payload request response w v marshalled made sent =
      bind_ok _ _
        (wrap_lifted "marshal bot status report" (http.marshal (status_body report)) w marshalled)
      ∙ bind_ok _ _ (
          wrap_lifted "build bot status report request"
            (http.new_request "POST" (http.resolve (status_path report)) payload) w made)
      ∙ bind_ok _ _
          (wrap_result "request bot status report" (http.send (with_headers request)) sent)

  -- Once a report is encoded, its request built, and an answer received, the report succeeds exactly
  -- if the answer is 200, or is 404 to a report of the status "deleted".
  pub report_bot_status_iff :
      (report : StatusReport) (payload : String) (request : Request) (response : Response) (w v : W)
      → http.marshal (status_body report) ≡ ok payload
      → http.new_request "POST" (http.resolve (status_path report)) payload ≡ ok request
      → http.send (with_headers request) w ≡ (ok response, v)
      → (report_bot_status http token report w ≡ (ok tt, v))
        ↔ IsAccepted report response.status_code
  report_bot_status_iff report payload request response w v marshalled made sent =
      let checked = report_is_checked report payload request response w v marshalled made sent in
      (
        (λ h. (check_report-ok report response v v (sym checked ∙ h)).0),
        (λ accepted. checked ∙ check_report_accepted report response v accepted),
      )

  check_contracts-ok :
      (contracts : List BotContract) (response : Response) (w w' : W)
      → check_contracts http token response w ≡ (ok contracts, w')
      → (response.status_code ≡ 200) × (http.decode_contracts response.body ≡ ok contracts)
  unfolding check_contracts
  check_contracts-ok contracts response w w' h = elim (Bool-cases (response.status_code == 200)) [
    | inl good ↦
        let (decoded, _) = lift-eq-ok (wrap-eq-ok _ _ (rw good at h)) in
        ((==_iff response.status_code 200).0 good, decoded)
    | inr bad ↦ absurd (raise-ne-ok _ w (rw bad at h))
  ]

  check_contracts_decoded :
      (contracts : List BotContract) (response : Response) (w : W)
      → response.status_code ≡ 200
      → http.decode_contracts response.body ≡ ok contracts
      → check_contracts http token response w ≡ (ok contracts, w)
  unfolding check_contracts
  check_contracts_decoded contracts response w good decoded =
      rw ((==_iff response.status_code 200).1 good) (
        wrap_lifted "decode bot contracts response" (http.decode_contracts response.body) w decoded)

  -- Once the request for the contracts is built and an answer received, the contracts are those that
  -- the body of the answer decodes to, and only if its status is 200: any other status, and a body
  -- that does not decode, is an error.
  pub list_bot_contracts_iff :
      (contracts : List BotContract) (request : Request) (response : Response) (w v : W)
      → http.new_request "GET" (http.resolve "/api/control-plane/bot-contracts") "" ≡ ok request
      → http.send (authorized token request) w ≡ (ok response, v)
      → (list_bot_contracts http token w ≡ (ok contracts, v))
        ↔ ((response.status_code ≡ 200) × (http.decode_contracts response.body ≡ ok contracts))
  unfolding list_bot_contracts
  list_bot_contracts_iff contracts request response w v made sent =
      let checked : list_bot_contracts http token w ≡ check_contracts http token response v =
        bind_ok _ _ (
          wrap_lifted "build list contracts request"
            (http.new_request "GET" (http.resolve "/api/control-plane/bot-contracts") "") w made)
        ∙ bind_ok _ _
            (wrap_result "request bot contracts" (http.send (authorized token request)) sent) in
      (
        (λ h. check_contracts-ok contracts response v v (sym checked ∙ h)),
        (λ (good, decoded). checked ∙ check_contracts_decoded contracts response v good decoded),
      )
