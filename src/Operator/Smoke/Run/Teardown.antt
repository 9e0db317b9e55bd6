-- ===== src/Operator/Smoke/Run/Teardown.antt =====
-- How a smoke run ends.
use threadr.Common.{ℕ, String, Option, none, some, ◌≡◌, refl, sym, ◌∙◌, subst}
use threadr.Common.Int.{ℤ}
use threadr.Common.Exec.{
  Result, ok, err, lift, continue, wrap_result, ◌>>=◌, bind_ok, bind-eq-ok, wrap-eq-ok,
}
use threadr.Operator.ControlPlane.Config.{Config}
use threadr.Operator.Smoke.{SmokeTarget}
use threadr.Operator.Smoke.Wait.{Realized}
use threadr.Operator.Smoke.Wait.Sound.{IsRealized, wait_sound}
use threadr.Operator.Smoke.Run.{
  SmokeCluster, smoke_settings, smoke_target, assets_directory, smoke_run, torn_down, smoke_main,
}
use threadr.Operator.Smoke.Run.Quiet.{RunsQuietly, smoke_run-Preserves}

module _ {W U : Type 0} (smoke : SmokeCluster W U) (parse_url : String → Result U) where
  smoke_run-IsRealized :
      (fuel : ℕ) (target : SmokeTarget) (config : Config) (timeout : ℤ) (u v : W)
      (realized : Realized)
      → smoke_run smoke parse_url fuel target config timeout u ≡ (ok (some realized), v)
      → IsRealized smoke.reader target realized
  unfolding smoke_run
  smoke_run-IsRealized fuel target config timeout u v realized h =
      let (_, u1, _, h1) = bind-eq-ok _ _ h in
      let (client, u2, _, h2) = bind-eq-ok _ _ h1 in
      let (_, u3, _, h3) = bind-eq-ok _ _ h2 in
      let (_, u4, _, h4) = bind-eq-ok _ _ h3 in
      let (_, u5, _, h5) = bind-eq-ok _ _ h4 in
      let (time, u6, _, h6) = bind-eq-ok _ _ h5 in
      wait_sound smoke.reader fuel _ target u6 v realized (wrap-eq-ok _ _ h6)

  -- The world after the deferred calls.
  abbrev pub after_defers : W → W
  after_defers v = (smoke.stop_env (smoke.cancel v).1).1

  -- A run that passes has found a bot of the target with its deployment, and has stopped the test
  -- cluster last; a run that fails leaves the view as the start of the cluster has left it.
  abbrev pub EndsWell :
      {X : Type 0} → (W → X) → SmokeTarget → W → Result (Option Realized) × W → Type 0
  EndsWell view target u (ok none, w') = (v : W) × (w' ≡ after_defers v)
  EndsWell view target u (ok (some realized), w') =
      IsRealized smoke.reader target realized × ((v : W) × (w' ≡ after_defers v))
  EndsWell view target u (err e, w') = view w' ≡ view u

  torn_down_ends :
      {X : Type 0} (view : W → X) (target : SmokeTarget) (u v : W) (r : Result (Option Realized))
      → ((realized : Realized) → r ≡ ok (some realized) → IsRealized smoke.reader target realized)
      → view v ≡ view u
      → EndsWell view target u (continue r (torn_down smoke parse_url) v)
  unfolding ◌>>=◌
  torn_down_ends view target u v (ok none) found same = (v, refl)
  torn_down_ends view target u v (ok (some realized)) found same = (found realized refl, (v, refl))
  torn_down_ends view target u v (err e) found same = same

  -- Once the settings are read and the test cluster has started, a smoke run that passes has found a
  -- bot of the target with its deployment, and stops the test cluster last; a run that fails stops
  -- nothing: it leaves the test cluster as its start has left it, since `os.Exit` runs no deferred call.
  pub smoke_main_ends :
      {X : Type 0} (view : W → X) (quiet : RunsQuietly smoke view) (fuel : ℕ)
      (parse_duration : String → Result ℤ) (getenv : String → String) (config : Config)
      (timeout : ℤ) (w u : W)
      → smoke_settings parse_duration getenv ≡ ok (config, timeout)
      → smoke.start_env (assets_directory smoke.platform (getenv "KUBEBUILDER_ASSETS")) w
        ≡ (ok tt, u)
      → EndsWell view
          (smoke_target getenv)
          u
          (smoke_main smoke parse_url fuel parse_duration getenv w)
  unfolding smoke_main
  smoke_main_ends view quiet fuel parse_duration getenv config timeout w u set started =
      let target = smoke_target getenv in
      let run = smoke_run smoke parse_url fuel target config timeout in
      let opened : smoke_main smoke parse_url fuel parse_duration getenv w
          ≡ continue (run u).0 (torn_down smoke parse_url) (run u).1 =
        bind_ok (lift (smoke_settings parse_duration getenv)) _ {a = (config, timeout)} {w = w}
          {v = w} (unfold lift in λ i. (set i, w))
        ∙ bind_ok _ _ (wrap_result "start envtest" (smoke.start_env _) started)
        ∙ (unfold ◌>>=◌ in refl) in
      subst (EndsWell view target u) (sym opened) (
        torn_down_ends view target u (run u).1 (run u).0
          (λ realized h.
            smoke_run-IsRealized fuel target config timeout u (run u).1 realized
              (λ i. (h i, (run u).1)))
          ((smoke_run-Preserves smoke parse_url view quiet fuel target config timeout).at u))
