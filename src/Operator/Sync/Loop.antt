-- ===== src/Operator/Sync/Loop.antt =====
-- `Start`: a pass at once, and one at each tick, until the context is done. A pass that fails is only
-- logged.
use threadr.Common.{ℕ, zero, suc, List, [], ◌∷◌, ◌≡◌, refl, ap, ◌∙◌}
use threadr.Common.Exec.{ok, Exec}
use threadr.Common.Exec.Preserves.{Preserves}
use threadr.Operator.Kube.{ObjectKey}
use threadr.Operator.ControlPlane.{BotContract}
use threadr.Operator.Client.{Client}
use threadr.Operator.Client.Server.{BotServer}
use threadr.Operator.Sync.{sync_once}
use threadr.Operator.Sync.Spec.{synced}
use threadr.Operator.Sync.Refine.{sync_once_refines}

pub data Signal : Type 0 where
  done : Signal
  tick : Signal

module _ {W : Type 0} (c : Client W) (list_bot_contracts : Exec W (List BotContract)) where
  -- The world after a pass, whatever its result.
  abbrev pub logged_pass : W → W
  logged_pass w = (sync_once c list_bot_contracts w).1

  -- The `select` of the loop, over the signals as they come in.
  unfoldable pub sync_loop : List Signal → W → W
  sync_loop [] w = w
  sync_loop (done ∷ signals) w = w
  sync_loop (tick ∷ signals) w = sync_loop signals (logged_pass w)

  unfoldable pub start : List Signal → W → W
  start signals w = sync_loop signals (logged_pass w)

  abbrev pub passes : ℕ → W → W
  passes zero w = w
  passes (suc n) w = passes n (logged_pass w)

  abbrev pub ticks : ℕ → List Signal → List Signal
  ticks zero rest = rest
  ticks (suc n) rest = tick ∷ ticks n rest

  loop_passes :
      (n : ℕ) (late : List Signal) (w : W) → sync_loop (ticks n (done ∷ late)) w ≡ passes n w
  unfolding sync_loop
  loop_passes zero late w = refl
  loop_passes (suc n) late w = loop_passes n late (logged_pass w)

  passes-suc : (n : ℕ) (w : W) → passes (suc n) w ≡ logged_pass (passes n w)
  passes-suc zero w = refl
  passes-suc (suc n) w = passes-suc n (logged_pass w)

  module _ (s : BotServer c) where
    open s use {bot_at, admit}

    -- However many passes have failed before, once the last pass before the end succeeds the stored
    -- bots are those that its contracts specify, on top of what the passes before it left; a signal
    -- that comes after the end changes nothing.
    pub start_recovers :
        (n : ℕ) (late : List Signal) (contracts : List BotContract) (w v : W)
        → Preserves bot_at list_bot_contracts
        → list_bot_contracts (passes n w) ≡ (ok contracts, v)
        → (sync_once c list_bot_contracts (passes n w)).0 ≡ ok tt
        → (k : ObjectKey)
        → bot_at (start (ticks n (done ∷ late)) w) k
          ≡ synced admit (bot_at (passes n w)) contracts k
    unfolding start
    start_recovers n late contracts w v quiet listed succeeded k =
        ap (λ x. bot_at x k) (loop_passes n late (logged_pass w) ∙ passes-suc n w)
        ∙ sync_once_refines c s list_bot_contracts contracts (passes n w) v
            (logged_pass (passes n w)) quiet listed (λ i. (succeeded i, logged_pass (passes n w))) k
