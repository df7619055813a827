-- ===== src/Startup/Preparation.antt =====
-- alerter/src/main.rs with alerter/src/subspace.rs, p2p_network.rs and slack.rs: what `main` needs before
-- its tasks run.
use subspace_chain_alerts.Base.{◌≡◌, ◌↔◌, refl, ap, sym, ◌∙◌, some, get, Text, text_eq, codes}
use subspace_chain_alerts.Error.{
  ok, done, >>=-eq-ok, ok-injective, try-ok, try, Source, expect_done,
}
use subspace_chain_alerts.Config.{Config, SlackConfig}
use subspace_chain_alerts.Slack.{SlackSecret, SecretFile, SlackAlerter, new_secret, channel_of}
use subspace_chain_alerts.Slack
use subspace_chain_alerts.Slack.Secrets.{Loaded, new_secret_iff}
use subspace_chain_alerts.Network
use subspace_chain_alerts.Network.{Network}
use subspace_chain_alerts.Network.Swarm.{SwarmBuilder, SwarmSettings, swarm_settings, build_swarm}
use subspace_chain_alerts.Chain.{BlockHash}
use subspace_chain_alerts.Startup.{NetworkDetails, NetworkConfig, NetworksConfig, network_config}
use subspace_chain_alerts.Startup.Details.{Describes, network_config_iff}
use subspace_chain_alerts.Startup.Tasks.{Surroundings, Ready, new_from_url, new_network, set_up}

-- The alerter of a secret.
abbrev pub alerter_of : SlackConfig → SlackSecret → SlackAlerter
alerter_of config secret = record {
  bot_name = config.slack_bot_name;
  bot_icon = config.slack_bot_icon;
  channel_name = channel_of config.slack_channel_name;
  secret = secret;
}

abbrev pub ready_of : Config → NetworkDetails → NetworkConfig → SlackSecret → Ready
ready_of cli details config secret = record {
  network = Network.start config.bootnodes;
  slack = alerter_of cli.slack secret;
  accounts = config.accounts;
  format_config = record {
    rpc_url = cli.rpc_url;
    token_name = details.token_symbol;
    token_decimals = details.token_decimals;
  };
}

-- The settings of the chain's network, in the file of that path.
abbrev pub Configured : Surroundings → Config → NetworkDetails → NetworkConfig → Type 0
Configured world cli details config =
    (text : Text) × (networks : NetworksConfig) × (world.files cli.network_config_path ≡ done text)
    × (world.from_str text ≡ done networks)
    × (get details.name networks.networks ≡ some config)

-- Everything is there that the tasks start with.
pub record Prepared (world : Surroundings) (cli : Config) (ready : Ready) : Type 0 where
  pub details : NetworkDetails
  pub config : NetworkConfig
  pub secret : SlackSecret
  pub connected : world.rpc_client ≡ done tt
  pub subscribed : world.client ≡ done tt
  pub described : Describes world.rpc details
  pub configured : Configured world cli details config
  pub has_swarm :
      build_swarm world.swarm_builder details.genesis_hash
      ≡ ok (swarm_settings details.genesis_hash)
  pub has_secret :
      Loaded (world.secret_files cli.slack.slack_secret_path) cli.slack.slack_team_id secret
  pub is_ready : ready ≡ ready_of cli details config secret

build_swarm-settings :
    (builder : SwarmBuilder) (genesis_hash : BlockHash) (settings : SwarmSettings)
    → build_swarm builder genesis_hash ≡ ok settings
    → settings ≡ swarm_settings genesis_hash
unfolding build_swarm
build_swarm-settings builder genesis_hash settings e =
    let (tcp, e1, f1) = >>=-eq-ok (expect_done builder.with_tcp) _ e in
    let (dns, e2, f2) = >>=-eq-ok (try Source.io_error builder.with_dns) _ f1 in
    let (behaviour, e3, f3) =
      >>=-eq-ok (expect_done (builder.with_behaviour (swarm_settings genesis_hash))) _ f2 in
    let (address, e4, f4) =
      >>=-eq-ok (expect_done (builder.parse (codes "/ip4/0.0.0.0/tcp/0"))) _ f3 in
    let (listening, e5, f5) = >>=-eq-ok (expect_done (builder.listen_on address)) _ f4 in
    sym (ok-injective f5)

new_network-ok :
    (world : Surroundings) (details : NetworkDetails) (config : NetworkConfig) (network : Network)
    → new_network world config details.genesis_hash ≡ ok network
    → (build_swarm world.swarm_builder details.genesis_hash
        ≡ ok (swarm_settings details.genesis_hash))
      × (Network.start config.bootnodes ≡ network)
unfolding new_network
new_network-ok world details config network e =
    let (built, has, e') = >>=-eq-ok (build_swarm world.swarm_builder details.genesis_hash) _ e in
    (
      has ∙ ap ok (build_swarm-settings world.swarm_builder details.genesis_hash built has),
      ok-injective e',
    )

new-ok :
    (files : Text → SecretFile) (config : SlackConfig) (slack : SlackAlerter)
    → Slack.new files config ≡ ok slack
    → (secret : SlackSecret) × Loaded (files config.slack_secret_path) config.slack_team_id secret
      × (alerter_of config secret ≡ slack)
unfolding Slack.new
new-ok files config slack e =
    let (secret, has, e') =
      >>=-eq-ok (new_secret (files config.slack_secret_path) config.slack_team_id) _ e in
    (secret, (new_secret_iff _ _ secret).0 has, ok-injective e')

set_up-ok :
    (world : Surroundings) (cli : Config) (ready : Ready)
    → set_up world cli ≡ ok ready
    → Prepared world cli ready
unfolding set_up new_from_url
set_up-ok world cli ready e =
    let (opened, url, e1) = >>=-eq-ok (new_from_url world) _ e in
    let (_, rpc_client, url') = >>=-eq-ok (try Source.rpc_error world.rpc_client) _ url in
    let ((details, config), settings, e2) =
      >>=-eq-ok (network_config world.from_str world.rpc (world.files cli.network_config_path)) _
        e1 in
    let (network, joins, e3) = >>=-eq-ok (new_network world config details.genesis_hash) _ e2 in
    let (slack, alerts, e4) = >>=-eq-ok (Slack.new world.secret_files cli.slack) _ e3 in
    let (described, configured) = (network_config_iff _ _ _ details config).0 settings in
    let (built, is_network) = new_network-ok world details config network joins in
    let (secret, loaded, is_slack) = new-ok world.secret_files cli.slack slack alerts in
    record {
      details = details;
      config = config;
      secret = secret;
      connected = try-ok Source.rpc_error world.rpc_client rpc_client;
      subscribed = try-ok Source.subxt_error world.client url';
      described = described;
      configured = configured;
      has_swarm = built;
      has_secret = loaded;
      is_ready =
          sym (ok-injective e4)
          ∙ ap (λ n. record (ready_of cli details config secret) { network = n; slack = slack })
              (sym is_network)
          ∙ ap (λ a. record (ready_of cli details config secret) { slack = a }) (sym is_slack);
    }

set_up-of_Prepared :
    (world : Surroundings) (cli : Config) (ready : Ready)
    → Prepared world cli ready
    → set_up world cli ≡ ok ready
unfolding set_up new_from_url new_network Slack.new
set_up-of_Prepared world cli ready p =
    let settings =
      (network_config_iff world.from_str world.rpc (world.files cli.network_config_path) p.details
          p.config).1
        (p.described, p.configured) in
    let loaded = (new_secret_iff _ _ p.secret).1 p.has_secret in
    rw (p.connected, p.subscribed, settings, p.has_swarm, loaded, p.is_ready) refl

-- The tasks are started exactly if both connections to the node stand, the node describes its chain,
-- the settings file has settings under the chain's name, the swarm can be built, and the secret is of a
-- file that only its owner may read. They start with these settings and this secret, and with the
-- token's name and decimals that the node gives.
pub set_up_iff :
    (world : Surroundings) (cli : Config) (ready : Ready)
    → (set_up world cli ≡ ok ready) ↔ Prepared world cli ready
set_up_iff world cli ready = (set_up-ok world cli ready, set_up-of_Prepared world cli ready)
