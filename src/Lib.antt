-- ===== src/Lib.antt =====
-- Threadr runs chat bots for its tenants. This library models the Go code of the repository: the
-- Kubernetes operator of the bots in k8s/operators/ircbot-operator, the adapters of the chat
-- networks and of NATS in pkg/adapters with the bots of cmd/bots that use them, the guards and
-- administrative routes of the web API in pkg/api with their client in cmd/client/admin, and the
-- command line of cmd/natsctl.
--
-- The operator has two sources of bots. The control plane, a web service, hands out contracts; the
-- contract syncer writes them into the cluster as ThreadrBot resources and deletes the ones it made
-- that no contract names any more. The reconciler brings the deployment of each ThreadrBot to what
-- the bot asks for, writes the bot's status, and reports it to the control plane. The older IRCBot
-- resource has a reconciler of its own.
--
-- Common: the shared names, string maps (Maps), indexed slices (Slices) and Go's calls with errors
--   (Exec): a call takes a world and returns a result and a world, since what was done before an
--   error stays done. Exec.Preserves says that a call leaves a view of the world alone, and
--   Exec.Keeps that it keeps a property of the world. Space is strings.TrimSpace, Texts are texts as
--   code points, Int are signed integers, and Http the requests of net/http.
-- Operator.Kube, Operator.Types: the Kubernetes objects, and
--   k8s/operators/ircbot-operator/api/v1alpha1/threadrbot_types.go.
-- Operator.Client: the calls of controller-runtime as a record over a world. Client.Server holds
--   what the operator relies on of the API server, as named hypotheses: it fills in the default
--   that the resource declares (Types.defaulted), and an empty slice of conditions comes back as nil
--   (Types.read_back). Operator.Cluster is a server in memory that meets them, on which the tests
--   run.
-- Operator.Deployment: desiredDeployment and mergeStringMaps (Desired) and deploymentUpdateReasons
--   with its helpers (Drift) of
--   k8s/operators/ircbot-operator/internal/controller/threadrbot_controller.go. Drift.Managed says
--   with no test of the code what a live deployment must have; Drift.Exact ties the two together.
-- Operator.Status: phaseFor, updateThreadrBotStatus and reportStatusToControlPlane of that file.
-- Operator.Reconcile: Reconcile and deleteDeploymentIfPresent of that file: where it leads (Converge),
--   what it leaves alone (Isolated), and that the next one has nothing to do (Settled, Again).
-- Operator.Sync: k8s/operators/ircbot-operator/internal/controller/threadrbot_contract_syncer.go.
--   Sync.Spec is what a pass makes of the stored bots, as a function; Sync.Loop is the loop of
--   Start, over the ticks as they come in.
-- Operator.Contract: a pass of the syncer and a reconciliation after it, together. Contract.Stays goes
--   on with reconciliations of other bots, as a relation between worlds.
-- Operator.ControlPlane: k8s/operators/ircbot-operator/internal/controlplane/client.go, net/http
--   and encoding/json being the record Transport. ControlPlane.Config is its configuration.
-- Operator.Start: k8s/operators/ircbot-operator/cmd/main.go, from the parsed flags on.
-- Operator.Utils: k8s/operators/ircbot-operator/test/utils/utils.go.
-- Operator.Smoke: the filtered contract client of
--   k8s/operators/ircbot-operator/cmd/threadrbot-smoke/main.go, and in Smoke.Wait its polling loop.
--   A unit of fuel is a round; more fuel than there is time left is enough. Smoke.Run is its main.
-- Operator.IrcBot: k8s/operators/ircbot-operator/api/v1alpha1/ircbot_types.go and
--   k8s/operators/ircbot-operator/internal/controller/ircbot_controller.go. IrcBot.Running is what it
--   means that a deployment runs a bot.
-- Messages.Irc: Send of pkg/adapters/messages/irc.go, on bytes. The loop runs on fuel, one turn
--   more than the message has bytes, since a turn takes a byte at least.
-- Messages.Privmsg: the callbacks of that file for messages, on code points; a string that is not
--   valid UTF-8 is not covered.
-- Messages.Handlers: pkg/ports/composite_message_handler.go,
--   pkg/adapters/messages/mistral7b_analyzer.go, and PublishEvent and Listen of
--   pkg/adapters/broker/nats_adapter.go.
-- Messages.Nats: the set-up of the handler in pkg/adapters/broker/nats_adapter.go, its subscription,
--   and pkg/adapters/cloudevents/handlers.go.
-- Messages.Adapter: NewIRCAdapter and the callback that joins the channels of
--   pkg/adapters/messages/irc.go, and the chat callback of cmd/bots/IRC/main.go. Adapter.Events puts
--   the callbacks for one message together.
-- Messages.Results: the callback for results in cmd/bots/IRC/main.go.
-- Messages.Bot: main of cmd/bots/IRC/main.go, its set-up and its callbacks; what happens is a
--   sequence of events. A context is its deadline.
-- Messages.Discord: pkg/adapters/messages/discord.go and cmd/bots/discord/main.go. Discord.Run is
--   its main, and Discord.Effects says what its events are to make it do. discordgo runs each handler
--   in a goroutine of its own: the events stand in the order in which they are handled, which may be
--   any, and are taken to be handled one at a time.
-- Messages.Batch: pkg/adapters/messages/batch_processor.go. Both operations hold a mutex, so that a
--   run of the two goroutines is a sequence of whole steps. Batch.Kept is what becomes of the events.
-- Api.Middleware, Api.Admin: pkg/api/middleware, and pkg/api/handlers behind the routes of
--   pkg/api/routes.
-- Api.App: cmd/api/main.go, pkg/api/firebase and the registrations of pkg/api/routes.
-- Api.Client: cmd/client/admin. Client.RoundTrip puts it together with the routes and the guard.
-- Natsctl: cmd/natsctl, over the package pkg/api/natsctl, which is not in the repository.
--
-- Numbers: int32 and int64 fields that the CRD or the API server keeps from being negative are
-- natural numbers; the count of active jobs keeps its wrap at 2 ^ 32. Times are opaque numbers,
-- but for the deadlines of the IRC bot, which are seconds. A
-- nil map, a nil pointer and a nil interface are `none`. An object's resource version is not
-- modelled: a write that conflicts is a call that fails. Reads are taken to answer what is stored,
-- as if the client had no cache. Log lines are left out.
--
-- Not modelled: the parsing of flags, registration with the manager, generated deep copies, the Neo4j
-- adapter, pkg/api/user/user.go, which does not compile, and everything in other languages than Go.
pub mod Api
pub mod Common
pub mod Messages
pub mod Natsctl
pub mod Operator
