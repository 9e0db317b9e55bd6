-- ===== src/Operator/ControlPlane/Http.antt =====
-- The HTTP client of internal/controlplane/client.go. net/http, net/url and encoding/json are the
-- record `Transport`.
pub mod Outcome
use threadr.Common.{
  ℕ, String, Bool, true, false, none, some, List, [], ◌∷◌, ◌&&◌, not, ◌==◌, if◌then◌else◌, str_eq,
}
use threadr.Common.Http.{Request, set_header}
use threadr.Common.Exec.{Result, ok, err, failed, Exec, pure, raise, lift, wrap, ◌>>=◌, ◌>>◌}
use threadr.Operator.ControlPlane.{BotContract, StatusReport}
use Prim.Native.String.{◌++◌ as str_append}

pub record Response : Type 0 where
  pub status_code : ℕ
  pub body : String

-- The map that is encoded as the body of a report; the metadata are the two replica counts.
pub record StatusBody : Type 0 where
  pub status : String
  pub reason : String
  pub deployment_name : String
  pub observed_at : ℕ
  pub generation : ℕ
  pub ready_replicas : ℕ
  pub available_replicas : ℕ

-- `resolve` makes a path absolute by the base URL, and `new_request` takes a method, a URL and a body.
pub record Transport (W : Type 0) : Type 0 where
  pub resolve : String → String
  pub new_request : String → String → String → Result Request
  pub send : Request → Exec W Response
  pub marshal : StatusBody → Result String
  pub decode_contracts : String → Result (List BotContract)
  pub decimal : ℕ → String

abbrev pub authorized : String → Request → Request
authorized token request =
    set_header "Accept" "application/json"
      (set_header "Authorization" (str_append "Bearer " token) request)

unfoldable pub status_body : StatusReport → StatusBody
status_body report = record {
  status = report.status;
  reason = report.reason;
  deployment_name = report.deployment_name;
  observed_at = report.observed_at;
  generation = report.generation;
  ready_replicas = report.ready_replicas;
  available_replicas = report.available_replicas;
}

abbrev pub status_path : StatusReport → String
status_path report =
    str_append "/api/control-plane/tenants/"
      (str_append report.tenant_subject (str_append "/bots/" (str_append report.bot_id "/status")))

module _ {W : Type 0} (http : Transport W) (token : String) where
  unfoldable pub check_contracts : Response → Exec W (List BotContract)
  check_contracts response =
      if not (response.status_code == 200)
      then raise (
          failed (
            str_append "request bot contracts: unexpected status "
              (http.decimal response.status_code)))
      else wrap "decode bot contracts response" (lift (http.decode_contracts response.body))

  unfoldable pub list_bot_contracts : Exec W (List BotContract)
  list_bot_contracts = do
    request ←
        wrap "build list contracts request"
          (lift (http.new_request "GET" (http.resolve "/api/control-plane/bot-contracts") ""))
    response ← wrap "request bot contracts" (http.send (authorized token request))
    check_contracts response

  unfoldable pub check_report : StatusReport → Response → Exec W (Unit {0})
  check_report report response =
      if str_eq report.status "deleted" && response.status_code == 404
      then pure tt
      else if not (response.status_code == 200)
      then raise (
          failed (
            str_append "request bot status report: unexpected status "
              (http.decimal response.status_code)))
      else pure tt

  unfoldable pub report_bot_status : StatusReport → Exec W (Unit {0})
  report_bot_status report = do
    payload ← wrap "marshal bot status report" (lift (http.marshal (status_body report)))
    request ←
        wrap "build bot status report request"
          (lift (http.new_request "POST" (http.resolve (status_path report)) payload))
    response ←
        wrap "request bot status report"
          (http.send (set_header "Content-Type" "application/json" (authorized token request)))
    check_report report response
