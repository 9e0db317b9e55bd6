-- ===== src/Operator/IrcBot/Cleanup.antt =====
-- Which jobs the clean-up of old jobs deletes.
use threadr.Common.{
  ℕ, List, [], ◌∷◌, true, false, length, leb, ltb, if◌then◌else◌, Bool-cases, inl, inr, ◌≡◌, refl,
  arith,
}
use threadr.Common.Exec.{Exec, pure, ◌>>◌}
use threadr.Operator.IrcBot.{IrcClient, IrcBot, Job, cleanup_from, cleanup_old_jobs}

module _ {W : Type 0} (irc : IrcClient W) where
  -- Every job deleted in order, up to the first call that fails.
  unfoldable pub delete_each : List Job → Exec W (Unit {0})
  delete_each [] = pure tt
  delete_each (job ∷ jobs) = irc.delete_job job >> delete_each jobs

  cleanup_all :
      (items : List Job) (limit : ℕ) (jobs : List Job)
      → leb (length items) limit ≡ false
      → cleanup_from irc items limit jobs ≡ delete_each jobs
  unfolding cleanup_from delete_each
  cleanup_all items limit [] over = refl
  cleanup_all items limit (job ∷ jobs) over = rw (over, cleanup_all items limit jobs over) refl

  cleanup_none :
      (items : List Job) (limit : ℕ) (jobs : List Job)
      → leb (length items) limit ≡ true
      → cleanup_from irc items limit jobs ≡ pure tt
  unfolding cleanup_from
  cleanup_none items limit [] within = refl
  cleanup_none items limit (job ∷ jobs) within = rw within refl

  -- The clean-up makes no call while the bot has no more jobs than its history limit, and deletes all
  -- of its jobs, the newest and the active ones too, as soon as there is one more.
  pub cleanup_all_or_none :
      (bot : IrcBot) (jobs : List Job)
      → cleanup_old_jobs irc bot jobs
        ≡ (if ltb bot.spec.history_limit (length jobs) then delete_each jobs else pure tt)
  unfolding cleanup_old_jobs
  cleanup_all_or_none bot jobs = elim (Bool-cases (leb (length jobs) bot.spec.history_limit)) [
    | inl within ↦
        let few : ltb bot.spec.history_limit (length jobs) ≡ false = ground arith in
        rw few (cleanup_none jobs bot.spec.history_limit jobs within)
    | inr over ↦
        let many : ltb bot.spec.history_limit (length jobs) ≡ true = ground arith in
        rw many (cleanup_all jobs bot.spec.history_limit jobs over)
  ]
