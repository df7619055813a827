-- ===== src/Startup.antt =====
-- alerter/src/subspace.rs, `network_details`, and alerter/src/main.rs, the choice of the network's
-- settings. The RPC node is seen by its answers.
pub mod Details
pub mod Tasks
pub mod Values
pub mod Ends
pub mod Preparation
pub mod Pipeline
mod Tests
use subspace_chain_alerts.Base.{
  ℕ, ◌%◌, List, [], ◌∷◌, ◌++◌, Option, none, some, get, Map, Text, codes, text_eq,
}
use subspace_chain_alerts.Error.{Exec, ok, err, ◌>>=◌, ok_or, expect, Call, try, Source}
use subspace_chain_alerts.Error
use subspace_chain_alerts.Chain.{BlockHash}
use subspace_chain_alerts.Events.{Account}
use subspace_chain_alerts.Network.{Multiaddr}

-- `serde_json::Value`, as far as the code tells values apart: those that are a u64, strings, and others.
pub data Value : Type 0 where
  u64 : ℕ → Value
  string : Text → Value
  other : Value

abbrev pub as_u64 : Value → Option ℕ
as_u64 (u64 n) = some n
as_u64 _ = none

abbrev pub as_str : Value → Option Text
as_str (string s) = some s
as_str _ = none

-- `get(key)` and then a reading of the value.
abbrev pub read {ℓ} : {A : Type ℓ} → (Value → Option A) → Option Value → Option A
read f none = none
read f (some v) = f v

-- The answers of the node.
pub record ChainRpc : Type 0 where
  pub system_chain : Call Text
  pub system_properties : Call (Map Text Value)
  pub genesis_hash : Call (Option BlockHash)

pub record NetworkDetails : Type 0 where
  pub name : Text
  pub ss58_format : ℕ
  pub token_symbol : Text
  pub token_decimals : ℕ
  pub genesis_hash : BlockHash

-- `as u16` and `as u8` keep the lowest bits.
unfoldable pub network_details : ChainRpc → Exec NetworkDetails
network_details rpc = do
  name ← try Source.rpc_error rpc.system_chain
  system_properties ← try Source.rpc_error rpc.system_properties
  maybe_genesis ← try Source.rpc_error rpc.genesis_hash
  genesis_hash ← expect maybe_genesis
  ss58_format ←
      ok_or (read as_u64 (get (codes "ss58Format") system_properties))
        (Error.config (codes "Failed to get Ss58Format"))
  token_symbol ←
      ok_or (read as_str (get (codes "tokenSymbol") system_properties))
        (Error.config (codes "Failed to get Token Symbol"))
  token_decimals ←
      ok_or (read as_u64 (get (codes "tokenDecimals") system_properties))
        (Error.config (codes "Failed to get Token Symbol"))
  ok (record {
    name = name;
    ss58_format = ss58_format % 65536;
    token_symbol = token_symbol;
    token_decimals = token_decimals % 256;
    genesis_hash = genesis_hash;
  })

-- alerter/src/main.rs, `NetworkConfig` and `NetworksConfig`.
pub record NetworkConfig : Type 0 where
  pub accounts : List Account
  pub bootnodes : List Multiaddr

pub record NetworksConfig : Type 0 where
  pub networks : Map Text NetworkConfig

-- `load_networks_config`: the file's text, or an error, and what the TOML reader says of it.
unfoldable pub load_networks_config : (Text → Call NetworksConfig) → Call Text → Exec NetworksConfig
load_networks_config from_str file = do
  config ← try Source.io_error file
  try Source.toml_error (from_str config)

-- `main`, up to the network's settings.
unfoldable pub network_config :
    (Text → Call NetworksConfig) → ChainRpc → Call Text → Exec (NetworkDetails × NetworkConfig)
network_config from_str rpc file = do
  details ← network_details rpc
  networks ← load_networks_config from_str file
  config ←
      ok_or (get details.name networks.networks)
        (Error.config (codes "Missing network config: " ++ details.name))
  ok (details, config)
