-- ===== src/Lib.antt =====
-- ironbird launches blockchain testnets: a Temporal workflow builds an image, creates a provider
-- (Docker or DigitalOcean), launches a chain on it, starts a load balancer and a load test, waits, and
-- tears the provider down. A local runner measures such networks and attributes clock time.
--
-- Base holds what the parts share: tests on numbers, lists, membership, integers (Base/Int.antt), and
-- `Action`, a state passed through code that may fail (Base/Action.antt).
--
-- Messages (messages/testnet.go, types/config.go, petri/cosmos/chain/genesis.go): the request of the
-- workflow and `validate`, which is `TestnetWorkflowRequest.Validate`. Int fields are numbers, for the
-- code only passes them on.
--
-- Workflow (workflows/testnet/testnet.go, util/util.go): each function of the file under its name in
-- snake case. The state is the history of the calls to activities, newest first; Temporal, the
-- activities, time.ParseDuration and gzip are the fields of the parameter `Env`, and each answer may
-- depend on the whole history. `start_workflow` is split where the deferred teardown starts
-- (`run_testnet`, `cleanup`). Timeouts and retries belong to Temporal.
--
-- Definition (petri/core/provider/definitions.go, provider.go): task definitions and their validation.
--
-- Docker (petri/core/provider/docker): `World` holds the provider's state, one cell for each task's
-- state (the provider and the task share it by pointer) and the log of all calls to Docker, to the
-- address allocator and to the operating system; what these answer is the parameter `Client`. The
-- allocator's documentation, that it gives out no address twice, is the hypothesis `AllocatesFresh`.
-- Network.antt is network.go and the volumes of volume.go, Task.antt is task.go, Provider.antt is
-- provider.go. The wait for a status runs on fuel, one unit for each poll; `wait_for_status_ends` says
-- how much is enough. Locks guard single steps and are left out. JSON of the provider's state is the
-- identity. Commands in containers, tar streams and logs are not modelled.
--
-- Report (cmd/local-report-runner/main.go): the arithmetic of load windows. Merge.antt clips and
-- merges intervals, Attribution.antt groups them by class, Phases.antt places phases. Times are
-- nanoseconds, and so are the durations that the source shows as seconds in floating point. The rest
-- of that program is input and output.
--
-- Store (server/db/models.go, sqlite.go): the table of workflows as a list of rows whose columns hold
-- the encoded texts. The encoders are the parameter `Codec`; the SQL statements are functions on the
-- list, and the database file does not fail. Rows that ORDER BY does not tell apart keep their order.
-- Store/View describes the table as a partial map. Store/Templates is the table of templates.
--
-- Service (server/services/workflow/workflow.go): UpdateWorkflowData and UpdateWorkflowStatuses on that
-- table, where the parameter `describe` is what Temporal tells of a workflow; the conversions between the
-- service's request and the workflow's (Requests.antt), with JSON and YAML as the parameter `Coding`; and
-- CreateWorkflow (Create.antt), with Temporal's start of a workflow as the parameter `execute`. There an
-- int, an int32 or an uint64 is its bit pattern. The other handlers are not modelled.
--
-- Cleanup (cmd/cleanup/main.go): the program that deletes what testnets left on DigitalOcean, as requests
-- to DigitalOcean in a log. The loops over pages run on fuel, one unit for each page.
--
-- Genesis (petri/cosmos/chain/chain.go): the accounts and balances that are added to a genesis file, with
-- big.Int's reading and writing of decimal texts as the parameter `Decimal`. Amounts are integers.
--
-- Chain (petri/cosmos/chain, petri/core/types): validation (Config.antt), creation (Create.antt), peers
-- (Peers.antt), initialisation (Setup.antt), waits and teardown (Waiting.antt) of a chain. The nodes, with
-- the clock and the random choice of a node, are the parameter `Nodes`, each request to a node stands in a
-- log, and the JSON of the genesis file and the derivation of wallets are the parameter `Codec`. The jobs
-- of an errgroup run one after the other, in the order in which they are started, and all of them run.
-- An int is its bit pattern. Saving and restoring a chain are not modelled.
--
-- DigitalOcean (petri/core/provider/digitalocean): the provider and its tasks, with the droplets' Docker
-- daemons, Tailscale and DigitalOcean behind the parameter `Cloud`. As for Docker, a task's state is a
-- cell. The poll loop of petri/core/util/wait.go runs on fuel, one unit for each poll. Commands in
-- containers, files on droplets and SSH are not modelled.
--
-- Activity (activities/testnet/testnet.go): the configuration of the chain that a launch request asks for.
-- The text of an HD path is a parameter.
--
-- The Cosmos node, the rest of the activities, the other commands and the frontend are not modelled.
pub mod Base
pub mod Messages
pub mod Workflow
pub mod Definition
pub mod Docker
pub mod Report
pub mod Store
pub mod Service
pub mod Cleanup
pub mod Genesis
pub mod Chain
pub mod DigitalOcean
pub mod Activity
