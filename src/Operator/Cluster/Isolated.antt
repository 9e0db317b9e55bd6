-- ===== src/Operator/Cluster/Isolated.antt =====
-- A call on one deployment of the cluster in memory leaves the others alone.
use threadr.Common.{true, false, Option, none, some, ◌≡◌, ◌≢◌, refl, ap, ◌∙◌, arith, deep_equal_iff}
use threadr.Operator.Kube.{ObjectKey, ObjectKey-discrete, Deployment}
use threadr.Operator.Client.{deployment_key}
use threadr.Operator.Client.Server.{Isolates, StatusServer}
use threadr.Operator.Sync.{key_eq}
use threadr.Operator.Cluster.{Cluster, client, deployment_in, bot_in, or_not_found, set_deployment}
use threadr.Operator.Cluster.Deployments.{deployments_lawful}
use threadr.Operator.Cluster.Bots.{bots_lawful, status_written}
use threadr.Operator.Types.{ThreadrBot, bot_key, read_back}
use threadr.Common.Exec.{ok}

or_not_found_still : {A : Type 0} (o : Option A) (w : Cluster) → (or_not_found o w).1 ≡ w
or_not_found_still none w = refl
or_not_found_still (some a) w = refl

key_eq_apart : (k j : ObjectKey) → k ≢ j → key_eq k j ≡ false
key_eq_apart k j apart = ground (arith, deep_equal_iff ObjectKey-discrete k j)

set_elsewhere :
    (k j : ObjectKey) (o : Option Deployment) (w : Cluster)
    → k ≢ j
    → deployment_in (set_deployment k o w) j ≡ deployment_in w j
set_elsewhere k j o w apart = rw (key_eq_apart k j apart) refl

pub deployments_isolated : Isolates client deployments_lawful.deployment_at
unfolding deployments_lawful
deployments_isolated = record {
  get_bot_keeps = λ k. record { at = λ w. ap deployment_in (or_not_found_still _ w) };
  get_keeps = λ k. record { at = λ w. ap deployment_in (or_not_found_still _ w) };
  create_keeps =
      λ d j apart. record { at = λ w. set_elsewhere (deployment_key d) j (some d) w apart };
  update_keeps =
      λ d j apart. record { at = λ w. set_elsewhere (deployment_key d) j (some d) w apart };
  delete_keeps = λ d j apart. record { at = λ w. set_elsewhere (deployment_key d) j none w apart };
}

key_eq_same : (k : ObjectKey) → key_eq k k ≡ true
key_eq_same k = (deep_equal_iff ObjectKey-discrete k k).1 refl

status_stored :
    (b answered : ThreadrBot) (w w' : Cluster)
    → client.update_bot_status b w ≡ (ok answered, w')
    → bots_lawful.bot_at w' (bot_key b) ≡ some (read_back b)
unfolding bots_lawful
status_stored b answered w w' h =
    status_written b answered w w' h (bot_key b) ∙ rw (key_eq_same (bot_key b)) refl

pub bots_status : StatusServer client bots_lawful.bot_at
unfolding bots_lawful
bots_status = record {
  status_ok = λ b answered stored w w' h there same. status_stored b answered w w' h;
  get_deployment_keeps = λ k. record { at = λ w. ap bot_in (or_not_found_still _ w) };
  update_deployment_keeps = λ d. record { at = λ w. refl };
}
