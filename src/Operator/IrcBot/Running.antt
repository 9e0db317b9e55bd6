-- ===== src/Operator/IrcBot/Running.antt =====
-- What it means that a deployment runs an IRCBot, and that what the API server stores of a request does.
use threadr.Common.{ℕ, String, some, List, [], ◌∷◌, ◌≡◌}
use threadr.Common.Maps.{StringMap}
use threadr.Operator.Kube.{Container, Deployment}
use Prim.Native.String.{◌++◌ as str_append}
use threadr.Operator.Deployment.Drift.Managed.{Stores, Pointwise, SameContainer}
use threadr.Operator.IrcBot.{IrcBot, joined, irc_container, irc_deployment}

-- There is one element, and it has the property.
abbrev pub OnlyOne : {A : Type 0} → (A → Type 0) → List A → Type 0
OnlyOne P [] = ⊥
OnlyOne P (a ∷ []) = P a
OnlyOne P (a ∷ b ∷ cs) = ⊥

-- The container runs the image of the bot's version, and is told the bot's server, port, channels and
-- nickname.
pub record IsBotContainer (decimal : ℕ → String) (bot : IrcBot) (container : Container)
    : Type 0 where
  pub image : container.image ≡ str_append "ghcr.io/carverauto/threadr:" bot.spec.image_version
  pub told :
      container.env
      ≡ record { name = "IRC_SERVER"; value = bot.spec.server }
        ∷ record { name = "IRC_PORT"; value = decimal bot.spec.port }
        ∷ record { name = "IRC_CHANNELS"; value = joined "," bot.spec.channels }
        ∷ record { name = "IRC_NICK"; value = bot.spec.nick }
        ∷ []

-- The deployment keeps one pod of the bot: the pods that it selects are those that it makes, and a pod
-- has the bot's container and nothing else, whose image is pulled with the registry's secret.
pub record IsBotDeployment (decimal : ℕ → String) (bot : IrcBot) (live : Deployment) : Type 0 where
  pub one : live.spec.replicas ≡ some 1
  pub selects : live.spec.selector ≡ some (some (("app", bot.metadata.name) ∷ []))
  pub labels : live.spec.template.labels ≡ some (("app", bot.metadata.name) ∷ [])
  pub container : OnlyOne (IsBotContainer decimal bot) live.spec.template.spec.containers
  pub pulls : live.spec.template.spec.image_pull_secrets ≡ record { name = "ghcr-secret" } ∷ []

only_container :
    (decimal : ℕ → String) (bot : IrcBot) (live : List Container)
    → Pointwise SameContainer live (irc_container decimal bot ∷ [])
    → OnlyOne (IsBotContainer decimal bot) live
only_container decimal bot [] h = h
only_container decimal bot (c ∷ []) h = record { image = h.0.image; told = h.0.env }
only_container decimal bot (c ∷ d ∷ cs) h = h.1

pub stored-IsBotDeployment :
    (decimal : ℕ → String) (bot : IrcBot) (labels annotations : StringMap) (live : Deployment)
    → Stores labels annotations (irc_deployment decimal bot).spec live
    → IsBotDeployment decimal bot live
unfolding irc_deployment
stored-IsBotDeployment decimal bot labels annotations live h = record {
  one = h.replicas;
  selects = h.selector;
  labels = h.template_labels;
  container = only_container decimal bot live.spec.template.spec.containers h.containers;
  pulls = h.pull_secrets;
}
