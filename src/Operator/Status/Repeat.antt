-- ===== src/Operator/Status/Repeat.antt =====
-- An observation that is made again, also after a report that failed.
use threadr.Common.{
  ℕ, String, true, false, Option, none, some, List, [], ◌∷◌, ◌≡◌, refl, ◌∙◌, str_eq_iff, arith,
  deep_equal_iff,
}
use threadr.Common.Exec.{Err, ok, err, Exec, pure, gets, bind_ok}
use threadr.Operator.Kube.{Deployment, DeploymentCondition, Condition}
use threadr.Operator.Types.{ThreadrBot, ThreadrBotStatus, omitted, read_back}
use threadr.Operator.ControlPlane.{StatusReport}
use threadr.Operator.Client.{Client}
use threadr.Operator.Status.{
  StatusReporter, Conditions-discrete, conditions_equivalent, normalize_deployment_conditions,
  threadr_bot_status_equivalent, observed_status, stamped, write_status, update_threadr_bot_status,
  report_status_to_control_plane, status_report,
}

conditions_equivalent_refl : (cs : Option (List Condition)) → conditions_equivalent cs cs ≡ true
unfolding conditions_equivalent
conditions_equivalent_refl cs = ground (arith, deep_equal_iff Conditions-discrete cs cs)

-- An empty slice of conditions counts as one that is left out.
omitted-equivalent :
    (cs : List DeploymentCondition)
    → conditions_equivalent
        (omitted (normalize_deployment_conditions cs))
        (normalize_deployment_conditions cs)
      ≡ true
unfolding normalize_deployment_conditions
omitted-equivalent [] = unfold conditions_equivalent in refl
omitted-equivalent (c ∷ cs) = conditions_equivalent_refl _

-- Statuses that differ in the time of the last observation and in equivalent conditions at most.
status_equivalent_by :
    (a b : ThreadrBotStatus)
    → record a { conditions = none; last_observed_at = 0 }
      ≡ record b { conditions = none; last_observed_at = 0 }
    → conditions_equivalent a.conditions b.conditions ≡ true
    → threadr_bot_status_equivalent a b ≡ true
unfolding threadr_bot_status_equivalent
status_equivalent_by a b h same =
    ground (arith, str_eq_iff a.phase b.phase, str_eq_iff a.deployment_name b.deployment_name)

-- Statuses that differ in the time of the last observation at most.
status_equivalent_refl :
    (a b : ThreadrBotStatus)
    → record a { last_observed_at = 0 } ≡ record b { last_observed_at = 0 }
    → threadr_bot_status_equivalent a b ≡ true
unfolding threadr_bot_status_equivalent
status_equivalent_refl a b h = ground (
  arith,
  str_eq_iff a.phase b.phase,
  str_eq_iff a.deployment_name b.deployment_name,
  conditions_equivalent_refl a.conditions,
)

module _ {W : Type 0} (c : Client W) (reporter : StatusReporter W) where
  observed-stamped :
      (bot : ThreadrBot) (d : Option Deployment) (phase : String) (time : ℕ)
      → threadr_bot_status_equivalent
          (stamped c reporter bot (observed_status bot d phase) time).status
          (observed_status (stamped c reporter bot (observed_status bot d phase) time) d phase)
        ≡ true
  observed-stamped bot none phase time = status_equivalent_refl _ _ (unfold observed_status in refl)
  observed-stamped bot (some d) phase time =
      status_equivalent_refl _ _ (unfold observed_status in refl)

  pub observed-read_back :
      (bot : ThreadrBot) (d : Option Deployment) (phase : String) (time : ℕ)
      → let told = read_back (stamped c reporter bot (observed_status bot d phase) time) in
        threadr_bot_status_equivalent told.status (observed_status told d phase) ≡ true
  unfolding observed_status
  observed-read_back bot none phase time = status_equivalent_refl _ _ refl
  observed-read_back bot (some d) phase time =
      status_equivalent_by _ _ refl (omitted-equivalent d.status.conditions)

  -- Once a bot carries the status of an observation, the same observation makes no call at all: no
  -- write, no report, and no error.
  update_status_again :
      (bot : ThreadrBot) (d : Option Deployment) (phase : String) (time : ℕ) (w : W)
      → update_threadr_bot_status c reporter
          (stamped c reporter bot (observed_status bot d phase) time)
          d
          phase
          w
        ≡ (ok tt, w)
  unfolding update_threadr_bot_status pure
  update_status_again bot d phase time w = rw observed-stamped

update_status_read_back :
    {W : Type 0} (c : Client W) (reporter : StatusReporter W) (bot : ThreadrBot)
    (d : Option Deployment) (phase : String) (time : ℕ) (w : W)
    → update_threadr_bot_status c reporter
        (read_back (stamped c reporter bot (observed_status bot d phase) time))
        d
        phase
        w
      ≡ (ok tt, w)
unfolding update_threadr_bot_status pure
update_status_read_back c reporter bot d phase time w =
    rw (observed-read_back c reporter bot d phase time) refl

update_status_changed :
    {W : Type 0} (c : Client W) (reporter : StatusReporter W) (bot : ThreadrBot)
    (d : Option Deployment) (phase : String) (w : W)
    → threadr_bot_status_equivalent bot.status (observed_status bot d phase) ≡ false
    → update_threadr_bot_status c reporter bot d phase w
      ≡ write_status c reporter bot (observed_status bot d phase) w
unfolding update_threadr_bot_status
update_status_changed c reporter bot d phase w changed = rw changed

write_status-fails :
    {W : Type 0} (c : Client W) (report : StatusReport → Exec W (Unit {0})) (bot : ThreadrBot)
    (status : ThreadrBotStatus) (e : Err) (w v v' : W)
    → let stored = stamped c (some report) bot status (c.now w) in
      c.update_bot_status stored w ≡ (ok stored, v)
      → report (status_report stored) v ≡ (err e, v')
      → write_status c (some report) bot status w ≡ (err e, v')
unfolding write_status report_status_to_control_plane
write_status-fails c report bot status e w v v' wrote failed =
    bind_ok (gets c.now) _ {a = c.now w} {w = w} {v = w} (unfold gets in refl)
    ∙ bind_ok (c.update_bot_status (stamped c (some report) bot status (c.now w))) _ wrote
    ∙ failed

-- A report that fails is lost: the reconciliation that it fails in returns the error, and the status
-- is stored by then, so that every later update with the same observation returns without an error
-- and without a report, whatever the reporter, of the bot as it was sent and as it is read back.
pub failed_report_is_lost :
    {W : Type 0} (c : Client W) (report : StatusReport → Exec W (Unit {0})) (bot : ThreadrBot)
    (d : Option Deployment) (phase : String) (e : Err) (w v v' : W)
    → threadr_bot_status_equivalent bot.status (observed_status bot d phase) ≡ false
    → let stored = stamped c (some report) bot (observed_status bot d phase) (c.now w) in
      c.update_bot_status stored w ≡ (ok stored, v)
      → report (status_report stored) v ≡ (err e, v')
      → (update_threadr_bot_status c (some report) bot d phase w ≡ (err e, v'))
        × ((later : StatusReporter W) (u : W)
            → (update_threadr_bot_status c later stored d phase u ≡ (ok tt, u))
              × (update_threadr_bot_status c later (read_back stored) d phase u ≡ (ok tt, u)))
failed_report_is_lost c report bot d phase e w v v' changed wrote failed = (
  rw (update_status_changed c (some report) bot d phase w changed)
      (write_status-fails c report bot (observed_status bot d phase) e w v v' wrote failed),
  (λ later u. (
    update_status_again c later bot d phase (c.now w) u,
    update_status_read_back c later bot d phase (c.now w) u,
  )),
)
