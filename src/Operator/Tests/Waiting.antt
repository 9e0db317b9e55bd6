-- ===== src/Operator/Tests/Waiting.antt =====
-- A wait for a bot whose deployment is there from the third tick of the clock on.
use threadr.Common.{
  ℕ, ◌+◌, ◌≡◌, ◌≢◌, none, some, List, [], ◌∷◌, refl, ltb, if◌then◌else◌, ap, arith,
}
use threadr.Common.Exec.{Result, ok, err, not_found, ◌>>=◌}
use threadr.Operator.Kube.{Deployment}
use threadr.Operator.Types.{ThreadrBot}
use threadr.Operator.Smoke.{SmokeTarget}
use threadr.Operator.Smoke.Wait.{Poller, first_realized, wait}
use threadr.Operator.Smoke.Wait.Ends.{PollerClock, wait_ends}
use threadr.Operator.Tests.Samples.{bot, desired}

abbrev poller : Poller ℕ
poller = record {
  list_all = λ n. (ok (bot ∷ []), n);
  get_deployment = λ k n. (if ltb n 3 then err not_found else ok desired, n);
  sleep = λ n. (ok tt, n + 1);
  now = λ n. n;
}

abbrev target : SmokeTarget
target = record { namespace = "bots"; deployment_name = "" }

realized_test : wait poller 10 9 target 0 ≡ (ok (some (bot, desired)), 3)
unfolding wait first_realized ◌>>=◌
realized_test = refl

clock : PollerClock poller
clock = record {
  list_later = λ bots w w' h. omega (arith, ap (λ (r : Result (List ThreadrBot) × ℕ). r.1) h);
  get_later = λ key found w w' h. omega (arith, ap (λ (r : Result Deployment × ℕ). r.1) h);
  sleep_later = λ w w' h. omega (arith, ap (λ (r : Result (Unit {0}) × ℕ). r.1) h);
}

wait_ends_example : wait poller 10 9 target 0 ≢ (ok none, 9)
wait_ends_example = wait_ends poller clock 10 9 target 0 9 (omega arith)
