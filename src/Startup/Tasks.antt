-- ===== src/Startup/Tasks.antt =====
-- alerter/src/main.rs: `main`, from the connection to the end of the join set. A run sees the answers
-- of the world: the node, the files, and what each task's loop waits for.
use subspace_chain_alerts.Base.{ℕ, List, [], ◌∷◌, ◌++◌, Option, none, some, Bool, Text, get_elem?}
use subspace_chain_alerts.Error.{
  Exec, ok, err, panic, running, ◌>>=◌, ◌>>◌, Call, Foreign, try, from, Source,
}
use subspace_chain_alerts.Chain.{AccountId, BlockHash, BlocksExt}
use subspace_chain_alerts.Gossip.{PoTInfo}
use subspace_chain_alerts.Config.{
  Config, UptimekumaConfig, StallAndReorgConfig, SlotsConfig, Duration,
}
use subspace_chain_alerts.Monitor
use subspace_chain_alerts.Message.{Rendering, FormatConfig}
use subspace_chain_alerts.Slack.{SecretFile, SlackAlerter}
use subspace_chain_alerts.Slack
use subspace_chain_alerts.Uptime.{push_uptime_status}
use subspace_chain_alerts.Stall.{watch_chain_stall_and_reorg}
use subspace_chain_alerts.Slots.{BoundedVec, monitor_slots}
use subspace_chain_alerts.Events.{Account, Received, watch_events}
use subspace_chain_alerts.Network.{Network}
use subspace_chain_alerts.Network.Swarm.{SwarmBuilder, build_swarm}
use subspace_chain_alerts.Network
use subspace_chain_alerts.Listener.Actions.{Library, Listener}
use subspace_chain_alerts.Listener.Sessions.{Session, listen_for_all_blocks}
use subspace_chain_alerts.Startup.{ChainRpc, NetworkConfig, NetworksConfig, network_config}

-- What the program asks for until its tasks run.
pub record Surroundings : Type 0 where
  pub rpc_client : Call (Unit {0})
  pub client : Call (Unit {0})
  pub rpc : ChainRpc
  pub files : Text → Call Text
  pub from_str : Text → Call NetworksConfig
  pub swarm_builder : SwarmBuilder
  pub secret_files : Text → SecretFile

-- `Subspace::new_from_url`, but for the handles that it keeps.
unfoldable pub new_from_url : Surroundings → Exec (Unit {0})
new_from_url world = do try Source.rpc_error world.rpc_client; try Source.subxt_error world.client

-- `Network::new`.
unfoldable pub new_network : Surroundings → NetworkConfig → BlockHash → Exec Network
new_network world config genesis_hash = do
  swarm ← build_swarm world.swarm_builder genesis_hash
  ok (Network.start config.bootnodes)

-- The variables of `main` that its tasks take.
pub record Ready : Type 0 where
  pub network : Network
  pub slack : SlackAlerter
  pub accounts : List Account
  pub format_config : FormatConfig

-- `main`, up to the last call that can fail. (`set_default_ss58_version` sets a value of sp_core's,
-- which no other code of the program reads.)
unfoldable pub set_up : Surroundings → Config → Exec Ready
set_up world cli = do
  new_from_url world
  (details, config) ← network_config world.from_str world.rpc (world.files cli.network_config_path)
  network ← new_network world config details.genesis_hash
  slack ← Slack.new world.secret_files cli.slack
  ok (record {
    network = network;
    slack = slack;
    accounts = config.accounts;
    format_config = record {
      rpc_url = cli.rpc_url;
      token_name = details.token_symbol;
      token_decimals = details.token_decimals;
    };
  })

-- What a task was spawned with.
pub data Task : Type 0 where
  runtime_updates : Task
  uptime : Text → Duration → Task
  stall_and_reorg : StallAndReorgConfig → Task
  events : List Account → Task
  slots : SlotsConfig → Task
  slack : SlackAlerter → FormatConfig → Task
  listener : Task
  network : Network → Task

-- `if let Some(uptimekuma_url)`.
unfoldable pub uptime_task : UptimekumaConfig → Option Text → List Task
uptime_task config none = []
uptime_task config (some url) = uptime url config.uptimekuma_interval ∷ []

-- The join set, in the order of the calls of `spawn`.
unfoldable pub tasks : Config → Ready → List Task
unfolding uptime_task
tasks cli ready =
    runtime_updates ∷ uptime_task cli.uptimekuma cli.uptimekuma.uptimekuma_url
    ++ (stall_and_reorg cli.stall_and_reorg
        ∷ events ready.accounts
        ∷ slots cli.slots
        ∷ slack ready.slack ready.format_config
        ∷ listener
        ∷ network ready.network
        ∷ [])

-- What the tasks see while they run, and the code of other crates that they call.
pub record Inputs : Type 1 where
  pub perform_runtime_updates : Option (Call (Unit {0}))
  pub interval : Duration → Exec (Unit {0})
  pub http_client : Call (Unit {0})
  pub pushes : List (Call Bool)
  pub block_waits : List (Monitor.Input BlocksExt)
  pub account_of : Text → Option AccountId
  pub block_events : List Received
  pub vec : BoundedVec
  pub now : ℕ
  pub proof_waits : List (Monitor.Input PoTInfo)
  pub version : Text
  pub rendering : Rendering
  pub connector : Call (Unit {0})
  pub auth_test : Call (Unit {0})
  pub alerts : List Slack.Input
  pub library : Library
  pub fuel : ℕ
  pub before : Listener
  pub sessions : List Session
  pub swarm : List Network.Input

-- The updater's future, which the runtime's subscription may end.
unfoldable pub updated : Option (Call (Unit {0})) → Exec (Unit {0})
updated none = running
updated (some result) = try Source.subxt_error result

-- How far a task has come.
unfoldable pub outcome : Inputs → Task → Exec (Unit {0})
outcome i runtime_updates = updated i.perform_runtime_updates
outcome i (uptime url every) = (push_uptime_status i.interval i.http_client url every i.pushes).0
outcome i (stall_and_reorg config) = (watch_chain_stall_and_reorg config i.block_waits).ends
outcome i (events accounts) = (watch_events i.account_of accounts i.block_events).0
outcome i (slots config) = (monitor_slots i.vec config i.now i.proof_waits).ends
outcome i (slack alerter config) =
    (Slack.run i.version i.rendering config alerter i.connector i.auth_test i.alerts).0
outcome i listener = (listen_for_all_blocks i.library i.fuel i.sessions i.before).0
outcome i (network n) = running

-- `update??`: a task that panicked is a `JoinError`, with the text `panicked`.
unfoldable pub update : Foreign → Exec (Unit {0}) → Exec (Unit {0})
update panicked (ok _) = ok tt
update panicked (err e) = err e
update panicked panic = err (from Source.join_error panicked)
update panicked running = running

-- `join_next`: the task that ends first; as long as none has, `main` waits.
unfoldable pub joined : Foreign → Inputs → Option Task → Exec (Unit {0})
unfolding outcome update
joined panicked i none = running
joined panicked i (some task) = update panicked (outcome i task)

-- `main`; `first` is the place of the task that ends first, if there is one.
unfoldable pub main : Surroundings → Foreign → Inputs → Config → ℕ → Exec (Unit {0})
unfolding set_up tasks joined
main world panicked i cli first = do
  ready ← set_up world cli
  joined panicked i (get_elem? (tasks cli ready) first)
