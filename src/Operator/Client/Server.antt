-- ===== src/Operator/Client/Server.antt =====
-- What the operator relies on of the Kubernetes API server: its documented behaviour towards one
-- client, as named hypotheses about the calls of `Client`. `deployment_at` and `bot_at` are the
-- stored objects. A call that fails promises nothing about the object that it was sent for.
-- A read answers what is stored: the cache that the client reads from is taken to be in step.
use threadr.Common.{List, All, map, String, Option, none, some, ◌≡◌, ◌≢◌, true}
use threadr.Common.Exec.{Err, ok, err, is_not_found}
use threadr.Common.Exec.Preserves.{Preserves}
use threadr.Operator.Kube.{ObjectKey, Deployment}
use threadr.Operator.Types.{ThreadrBot, bot_key, read_back}
use threadr.Common.Maps.{find}
use threadr.Operator.Sync.{is_expected}
use threadr.Operator.Sync.Spec.{put}
use threadr.Operator.Client.{Client, deployment_key}
use threadr.Operator.Deployment.Drift.Managed.{Persists}

module _ {W : Type 0} (c : Client W) where
  -- The calls on deployments, `deployment_at` being what is stored.
  pub record DeploymentServer : Type 0 where
    pub deployment_at : W → ObjectKey → Option Deployment
    pub get_ok :
        (k : ObjectKey) (d : Deployment) (w w' : W)
        → c.get_deployment k w ≡ (ok d, w')
        → (deployment_at w' k ≡ some d) × (deployment_key d ≡ k)
    pub get_not_found :
        (k : ObjectKey) (e : Err) (w w' : W)
        → c.get_deployment k w ≡ (err e, w')
        → is_not_found e ≡ true
        → deployment_at w' k ≡ none
    pub create_ok :
        (d live : Deployment) (w w' : W)
        → c.create_deployment d w ≡ (ok live, w')
        → (deployment_at w' (deployment_key d) ≡ some live) × Persists d live
    pub update_ok :
        (d live : Deployment) (w w' : W)
        → c.update_deployment d w ≡ (ok live, w')
        → (deployment_at w' (deployment_key d) ≡ some live) × Persists d live
    pub delete_ok :
        (d : Deployment) (w w' : W)
        → c.delete_deployment d w ≡ (ok tt, w')
        → deployment_at w' (deployment_key d) ≡ none
    pub status_keeps : (b : ThreadrBot) → Preserves deployment_at (c.update_bot_status b)
    pub controller_reference :
        (b : ThreadrBot) (d owned : Deployment)
        → c.set_controller_reference b d ≡ ok owned
        → (o : Option String) × (owned ≡ record d { metadata = record d.metadata { owner = o } })

  -- A call on a deployment, whether it fails or not, leaves the others alone, and so does a read.
  pub record Isolates (deployment_at : W → ObjectKey → Option Deployment) : Type 0 where
    pub get_bot_keeps : (k : ObjectKey) → Preserves deployment_at (c.get_bot k)
    pub get_keeps : (k : ObjectKey) → Preserves deployment_at (c.get_deployment k)
    pub create_keeps :
        (d : Deployment) (j : ObjectKey)
        → deployment_key d ≢ j
        → Preserves (λ w. deployment_at w j) (c.create_deployment d)
    pub update_keeps :
        (d : Deployment) (j : ObjectKey)
        → deployment_key d ≢ j
        → Preserves (λ w. deployment_at w j) (c.update_deployment d)
    pub delete_keeps :
        (d : Deployment) (j : ObjectKey)
        → deployment_key d ≢ j
        → Preserves (λ w. deployment_at w j) (c.delete_deployment d)

-- The calls on bots. `admit` is what the server stores of a bot that it is sent, defaults filled in;
-- bots carry no finalizers, so that a deleted one is gone at once.
module _ {W : Type 0} (c : Client W) where
  pub record BotServer : Type 0 where
    pub bot_at : W → ObjectKey → Option ThreadrBot
    pub admit : ThreadrBot → ThreadrBot
    pub admit_metadata : (b : ThreadrBot) → (admit b).metadata ≡ b.metadata
    pub get_keeps : (k : ObjectKey) → Preserves bot_at (c.get_bot k)
    pub get_ok :
        (k : ObjectKey) (b : ThreadrBot) (w w' : W)
        → c.get_bot k w ≡ (ok b, w')
        → (bot_at w k ≡ some b) × (bot_key b ≡ k)
    pub get_not_found :
        (k : ObjectKey) (e : Err) (w w' : W)
        → c.get_bot k w ≡ (err e, w')
        → is_not_found e ≡ true
        → bot_at w k ≡ none
    pub create_ok :
        (b live : ThreadrBot) (w w' : W)
        → c.create_bot b w ≡ (ok live, w')
        → (j : ObjectKey) → bot_at w' j ≡ put (bot_at w) (bot_key b) (some (admit b)) j
    pub update_ok :
        (b live : ThreadrBot) (w w' : W)
        → c.update_bot b w ≡ (ok live, w')
        → (j : ObjectKey) → bot_at w' j ≡ put (bot_at w) (bot_key b) (some (admit b)) j
    pub delete_ok :
        (b : ThreadrBot) (w w' : W)
        → c.delete_bot b w ≡ (ok tt, w')
        → (j : ObjectKey) → bot_at w' j ≡ put (bot_at w) (bot_key b) none j
    pub delete_not_found :
        (b : ThreadrBot) (e : Err) (w w' : W)
        → c.delete_bot b w ≡ (err e, w')
        → is_not_found e ≡ true
        → (j : ObjectKey) → bot_at w' j ≡ put (bot_at w) (bot_key b) none j
    pub list_keeps : (label value : String) → Preserves bot_at (c.list_bots label value)
    pub list_sound :
        (label value : String) (bs : List ThreadrBot) (w w' : W)
        → c.list_bots label value w ≡ (ok bs, w')
        → All
            (λ (b : ThreadrBot).
              (bot_at w (bot_key b) ≡ some b) × (find label b.metadata.labels ≡ some value))
            bs
    pub list_complete :
        (label value : String) (bs : List ThreadrBot) (w w' : W)
        → c.list_bots label value w ≡ (ok bs, w')
        → (k : ObjectKey) (b : ThreadrBot) → bot_at w k ≡ some b
        → find label b.metadata.labels ≡ some value
        → is_expected (map bot_key bs) k ≡ true
    pub namespace_get_keeps : (n : String) → Preserves bot_at (c.get_namespace n)
    pub namespace_create_keeps : (n : String) → Preserves bot_at (c.create_namespace n)

  -- The status of a bot is written apart from the rest, and loses an empty slice of conditions on its
  -- way. Calls on deployments leave bots alone.
  pub record StatusServer (bot_at : W → ObjectKey → Option ThreadrBot) : Type 0 where
    pub status_ok :
        (b answered stored : ThreadrBot) (w w' : W)
        → c.update_bot_status b w ≡ (ok answered, w')
        → bot_at w (bot_key b) ≡ some stored
        → record stored { status = b.status } ≡ b
        → bot_at w' (bot_key b) ≡ some (read_back b)
    pub get_deployment_keeps : (k : ObjectKey) → Preserves bot_at (c.get_deployment k)
    pub update_deployment_keeps : (d : Deployment) → Preserves bot_at (c.update_deployment d)
