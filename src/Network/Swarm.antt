-- ===== src/Network/Swarm.antt =====
-- alerter/src/p2p_network.rs, `build_swarm`: what libp2p is asked for, and what follows from its
-- answers, which are arguments.
use subspace_chain_alerts.Base.{ℕ, ◌*◌, Text, codes}
use subspace_chain_alerts.Error.{Exec, ok, ◌>>=◌, ◌>>◌, expect_done, Call, try, Source}
use subspace_chain_alerts.Chain.{BlockHash}
use subspace_chain_alerts.Config.{Duration, seconds}
use subspace_chain_alerts.Network.{Multiaddr}

abbrev pot_protocol : Text
pot_protocol = codes "/subspace/subspace-proof-of-time/1"

-- The settings of the swarm's behaviour and of the swarm.
pub record SwarmSettings : Type 0 where
  pub pot_protocol : Text
  pub genesis_hash : BlockHash
  pub record_ttl : Duration
  pub provider_ttl : Duration
  pub query_timeout : Duration
  pub max_established : ℕ
  pub max_established_incoming : ℕ
  pub max_established_outgoing : ℕ
  pub idle_connection_timeout : Duration

unfoldable pub swarm_settings : BlockHash → SwarmSettings
swarm_settings genesis_hash = record {
  pot_protocol = pot_protocol;
  genesis_hash = genesis_hash;
  record_ttl = seconds (60 * 30);
  provider_ttl = seconds (60 * 30);
  query_timeout = seconds (5 * 60);
  max_established = 500;
  max_established_incoming = 500;
  max_established_outgoing = 500;
  idle_connection_timeout = seconds 18446744073709551615;
}

-- What libp2p says while the swarm is built.
pub record SwarmBuilder : Type 0 where
  pub with_tcp : Call (Unit {0})
  pub with_dns : Call (Unit {0})
  pub with_behaviour : SwarmSettings → Call (Unit {0})
  pub parse : Text → Call Multiaddr
  pub listen_on : Multiaddr → Call (Unit {0})

-- Only the reading of the DNS settings is an error that is passed up; any other refusal is a panic.
unfoldable pub build_swarm : SwarmBuilder → BlockHash → Exec SwarmSettings
build_swarm builder genesis_hash = do
  expect_done builder.with_tcp
  try Source.io_error builder.with_dns
  expect_done (builder.with_behaviour (swarm_settings genesis_hash))
  address ← expect_done (builder.parse (codes "/ip4/0.0.0.0/tcp/0"))
  expect_done (builder.listen_on address)
  ok (swarm_settings genesis_hash)
