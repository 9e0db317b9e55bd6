-- ===== src/Operator/Smoke/Run/Quiet.antt =====
-- What a smoke run leaves alone between the start of the test cluster and its stop.
use threadr.Common.{ℕ, zero, suc, String, Bool, true, false, Option, none, some, List, [], ◌∷◌, ltb}
use threadr.Common.Int.{ℤ}
use threadr.Common.Exec.{Result, ok, err, Exec}
use threadr.Common.Exec.Preserves.{
  Preserves, pure-Preserves, raise-Preserves, attempt-Preserves, if-Preserves, bind-Preserves,
  wrap-Preserves, gets-Preserves, lift-Preserves,
}
use threadr.Operator.Kube.{ObjectKey, Deployment}
use threadr.Operator.Types.{ThreadrBot}
use threadr.Operator.ControlPlane.Config.{Config, HttpClient}
use threadr.Operator.Smoke.{SmokeTarget}
use threadr.Operator.Smoke.Wait.{
  Poller, Realized, deployment_key_of, first_realized, found_or, or_again, poll_if, wait,
}
use threadr.Operator.Smoke.Run.{SmokeCluster, SmokeSyncer, smoke_run}

-- The calls of a wait leave the view alone.
pub record PollsQuietly {W X : Type 0} (poller : Poller W) (view : W → X) : Type 0 where
  pub list_all : Preserves view poller.list_all
  pub get_deployment : (key : ObjectKey) → Preserves view (poller.get_deployment key)
  pub sleep : Preserves view poller.sleep

module _ {W X : Type 0} (poller : Poller W) (view : W → X) (quiet : PollsQuietly poller view) where
  found_or-Preserves :
      (bot : ThreadrBot) (found : Result Deployment) (rest : Exec W (Option Realized))
      → Preserves view rest
      → Preserves view (found_or poller bot found rest)
  found_or-Preserves bot (ok deployment) rest k = pure-Preserves _
  found_or-Preserves bot (err e) rest k = k

  first_realized-Preserves :
      (target : SmokeTarget) (bots : List ThreadrBot)
      → Preserves view (first_realized poller target bots)
  unfolding first_realized
  first_realized-Preserves target [] = pure-Preserves _
  first_realized-Preserves target (bot ∷ bots) =
      let rest = first_realized-Preserves target bots in
      if-Preserves _ _ _ rest (
        if-Preserves _ _ _ rest (
          bind-Preserves _ _ (attempt-Preserves _ (quiet.get_deployment (deployment_key_of bot)))
            λ found. found_or-Preserves bot found _ rest))

  or_again-Preserves :
      (found : Option Realized) (again : Exec W (Option Realized))
      → Preserves view again
      → Preserves view (or_again poller found again)
  or_again-Preserves none again k = bind-Preserves _ _ quiet.sleep λ _. k
  or_again-Preserves (some realized) again k = pure-Preserves _

  poll_if-Preserves :
      (early : Bool) (target : SmokeTarget) (again : Exec W (Option Realized))
      → Preserves view again
      → Preserves view (poll_if poller early target again)
  poll_if-Preserves false target again k = raise-Preserves _
  poll_if-Preserves true target again k =
      bind-Preserves _ _ (bind-Preserves _ _ quiet.list_all (first_realized-Preserves target))
        λ found. or_again-Preserves found again k

  wait-Preserves :
      (fuel deadline : ℕ) (target : SmokeTarget) → Preserves view (wait poller fuel deadline target)
  unfolding wait
  wait-Preserves zero deadline target = pure-Preserves _
  wait-Preserves (suc fuel) deadline target =
      bind-Preserves _ _ (gets-Preserves poller.now)
        λ time. poll_if-Preserves (ltb time deadline) target _ (wait-Preserves fuel deadline target)

-- The calls of a smoke run between the start of the test cluster and its stop leave the view alone.
pub record RunsQuietly {W U X : Type 0} (smoke : SmokeCluster W U) (view : W → X) : Type 0 where
  pub new_manager : Preserves view smoke.new_manager
  pub set_up_threadr_bots :
      (client : HttpClient U) → Preserves view (smoke.set_up_threadr_bots client)
  pub add_syncer : (syncer : SmokeSyncer W) → Preserves view (smoke.add_syncer syncer)
  pub launch : Preserves view smoke.launch
  pub polls : PollsQuietly smoke.reader view

module _ {W U X : Type 0} (smoke : SmokeCluster W U) (parse_url : String → Result U) where
  pub smoke_run-Preserves :
      (view : W → X) (quiet : RunsQuietly smoke view) (fuel : ℕ) (target : SmokeTarget)
      (config : Config) (timeout : ℤ)
      → Preserves view (smoke_run smoke parse_url fuel target config timeout)
  unfolding smoke_run
  smoke_run-Preserves view quiet fuel target config timeout =
      bind-Preserves _ _ (wrap-Preserves _ _ quiet.new_manager) λ _.
        bind-Preserves _ _ (wrap-Preserves _ _ (lift-Preserves _)) λ client.
          bind-Preserves _ _ (wrap-Preserves _ _ (quiet.set_up_threadr_bots client)) λ _.
            bind-Preserves _ _ (wrap-Preserves _ _ (quiet.add_syncer _)) λ _.
              bind-Preserves _ _ quiet.launch λ _.
                bind-Preserves _ _ (gets-Preserves smoke.reader.now) λ time.
                  wrap-Preserves _ _ (wait-Preserves smoke.reader view quiet.polls fuel _ target)
