-- ===== src/Operator/Status/Quiet.antt =====
-- What the status update leaves alone.
use threadr.Common.{String, Option, none, some}
use threadr.Common.Exec.Preserves.{Preserves, pure-Preserves, preserves_rules}
use threadr.Operator.Kube.{Deployment}
use threadr.Operator.Types.{ThreadrBot, ThreadrBotStatus}
use threadr.Operator.ControlPlane.{StatusReport}
use threadr.Operator.Client.{Client}
use threadr.Operator.Status.{
  StatusReporter, report_status_to_control_plane, status_report, write_status,
  update_threadr_bot_status,
}

-- Reporting a status does not touch what `view` shows.
abbrev pub Quiet : {W X : Type 0} → (W → X) → StatusReporter W → Type 0
Quiet view none = Unit
Quiet view (some report) = (r : StatusReport) → Preserves view (report r)

pub by_reporter :
    {W X : Type 0} {view : W → X} (reporter : StatusReporter W)
    → Quiet view reporter
    → (bot : ThreadrBot) → Preserves view (report_status_to_control_plane reporter bot)
unfolding report_status_to_control_plane
by_reporter none quiet bot = pure-Preserves tt
by_reporter (some report) quiet bot = quiet (status_report bot)

module _ {W X : Type 0} (c : Client W) (reporter : StatusReporter W) (view : W → X)
    (quiet : Quiet view reporter)
    (keeps : (b : ThreadrBot) → Preserves view (c.update_bot_status b)) where
  report-Preserves :
      (bot : ThreadrBot) → Preserves view (report_status_to_control_plane reporter bot)
  report-Preserves = by_reporter reporter quiet

  write_status-Preserves :
      (bot : ThreadrBot) (status : ThreadrBotStatus)
      → Preserves view (write_status c reporter bot status)
  unfolding write_status
  write_status-Preserves bot status = search (preserves_rules, keeps, report-Preserves)

  pub update_status-Preserves :
      (bot : ThreadrBot) (d : Option Deployment) (phase : String)
      → Preserves view (update_threadr_bot_status c reporter bot d phase)
  unfolding update_threadr_bot_status
  update_status-Preserves bot d phase = search (preserves_rules, write_status-Preserves)
