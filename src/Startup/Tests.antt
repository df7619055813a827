-- ===== src/Startup/Tests.antt =====
-- The network's details on a small input.
use subspace_chain_alerts.Base.{
  ◌≡◌, ◌↔◌, ◌++◌, [], ◌∷◌, none, some, get_elem?, get, Text, codes, text_eq,
}
use subspace_chain_alerts.Error.{ok, Call, done}
use subspace_chain_alerts.Startup.{
  u64, string, ChainRpc, NetworkDetails, NetworkConfig, NetworksConfig, network_details,
  network_config,
}
use subspace_chain_alerts.Config.{Config, default_config}
use subspace_chain_alerts.Slack.{SlackSecret}
use subspace_chain_alerts.Message.Fixture.{rendering}
use subspace_chain_alerts.Listener.Fixture
use subspace_chain_alerts.Startup.Tasks.{Surroundings, Ready, Inputs, Task, set_up, tasks, main}
use subspace_chain_alerts.Startup.Preparation.{Prepared, ready_of, set_up_iff}
use subspace_chain_alerts.Startup.Ends.{main_iff}
use subspace_chain_alerts.Startup.Details.{Describes, network_details_iff, network_config_iff}

abbrev rpc : ChainRpc
rpc = record {
  system_chain = done (codes "Taurus");
  system_properties = done (
      (codes "ss58Format", u64 6094)
      ∷ (codes "tokenSymbol", string (codes "AI3"))
      ∷ (codes "tokenDecimals", u64 18)
      ∷ []);
  genesis_hash = done (some 77);
}

abbrev details : NetworkDetails
details = record {
  name = codes "Taurus";
  ss58_format = 6094;
  token_symbol = codes "AI3";
  token_decimals = 18;
  genesis_hash = 77;
}

network_details_iff_example : (network_details rpc ≡ ok details) ↔ Describes rpc details
network_details_iff_example = network_details_iff rpc details

abbrev config : NetworkConfig
config = record { accounts = []; bootnodes = [] }

abbrev from_str : Text → Call NetworksConfig
from_str text = done (record { networks = (text, config) ∷ [] })

network_config_iff_example :
    (network_config from_str rpc (done (codes "Taurus")) ≡ ok (details, config)) ↔ (
      Describes rpc details
      × ((text : Text) × (networks : NetworksConfig) × (done (codes "Taurus") ≡ done text)
          × (from_str text ≡ done networks)
          × (get details.name networks.networks ≡ some config)))
network_config_iff_example = network_config_iff from_str rpc (done (codes "Taurus")) details config

abbrev cli : Config
cli = default_config (codes "ws://node") (codes "bot") (codes "alerts")

-- A node of Taurus, a settings file that has its name, and a secret that only its owner may read.
abbrev world : Surroundings
world = record {
  rpc_client = done tt;
  client = done tt;
  rpc = rpc;
  files = λ path. done (codes "Taurus");
  from_str = from_str;
  swarm_builder = record {
    with_tcp = done tt;
    with_dns = done tt;
    with_behaviour = λ settings. done tt;
    parse = λ address. done [];
    listen_on = λ address. done tt;
  };
  secret_files = λ path. record { mode = done 33152; content = done (codes "xoxb") };
}

abbrev secret : SlackSecret
secret = record { token_value = codes "xoxb"; team_id = codes "T03LJ85UR5G" }

abbrev ready : Ready
ready = ready_of cli details config secret

set_up_iff_example : (set_up world cli ≡ ok ready) ↔ Prepared world cli ready
set_up_iff_example = set_up_iff world cli ready

-- The updates have ended; nothing else has come in.
abbrev inputs : Inputs
inputs = record {
  perform_runtime_updates = some (done tt);
  interval = λ every. ok tt;
  http_client = done tt;
  pushes = [];
  block_waits = [];
  account_of = λ address. none;
  block_events = [];
  vec = record { force_push = λ slots x. slots ++ x ∷ [] };
  now = 0;
  proof_waits = [];
  version = codes "0.1.0";
  rendering = rendering;
  connector = done tt;
  auth_test = done tt;
  alerts = [];
  library = Fixture.lib;
  fuel = 8;
  before = Fixture.start;
  sessions = [];
  swarm = [];
}

main_iff_example : (main world (codes "panicked") inputs cli 0 ≡ ok tt) ↔ (
    (r : Ready) × (set_up world cli ≡ ok r)
    × (get_elem? (tasks cli r) 0 ≡ some Task.runtime_updates)
    × (inputs.perform_runtime_updates ≡ some (done tt)))
main_iff_example = main_iff world (codes "panicked") inputs cli 0
