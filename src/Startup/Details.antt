-- ===== src/Startup/Details.antt =====
-- alerter/src/subspace.rs and main.rs: the network's details and settings, by the answers.
use subspace_chain_alerts.Base.{
  ℕ, ◌%◌, ◌≡◌, ◌↔◌, ap, sym, ◌∙◌, Option, none, some, get, Map, Text, codes, text_eq, arith,
}
use subspace_chain_alerts.Error.{
  Exec, ok, Call, done, >>=-eq-ok, try, ok_or, expect, Error, Source, try-ok, expect-ok, ok_or-some,
  value_or,
}
use subspace_chain_alerts.Startup.{
  Value, u64, string, other, as_u64, as_str, read, ChainRpc, NetworkDetails, network_details,
  NetworkConfig, NetworksConfig, load_networks_config, network_config,
}

-- The details are what the node says of the chain.
pub record Describes (rpc : ChainRpc) (d : NetworkDetails) : Type 0 where
  pub properties : Map Text Value
  pub format : ℕ
  pub decimals : ℕ
  pub has_name : rpc.system_chain ≡ done d.name
  pub has_properties : rpc.system_properties ≡ done properties
  pub has_genesis : rpc.genesis_hash ≡ done (some d.genesis_hash)
  pub has_format : get (codes "ss58Format") properties ≡ some (u64 format)
  pub has_symbol : get (codes "tokenSymbol") properties ≡ some (string d.token_symbol)
  pub has_decimals : get (codes "tokenDecimals") properties ≡ some (u64 decimals)
  pub is_format : d.ss58_format ≡ format % 65536
  pub is_decimals : d.token_decimals ≡ decimals % 256

ok_or-u64 :
    (o : Option Value) (e : Error) {n : ℕ} → ok_or (read as_u64 o) e ≡ ok n → o ≡ some (u64 n)
ok_or-u64 none e h = ground arith
ok_or-u64 (some (u64 n)) e h = ground arith
ok_or-u64 (some (string s)) e h = ground arith
ok_or-u64 (some other) e h = ground arith

ok_or-string :
    (o : Option Value) (e : Error) {s : Text} → ok_or (read as_str o) e ≡ ok s → o ≡ some (string s)
ok_or-string none e h = ground arith
ok_or-string (some (u64 n)) e h = ground arith
ok_or-string (some (string s)) e h = ground arith
ok_or-string (some other) e h = ground arith

network_details-ok :
    (rpc : ChainRpc) (d : NetworkDetails) → network_details rpc ≡ ok d → Describes rpc d
unfolding network_details
network_details-ok rpc d e =
    let (name, named, e1) = >>=-eq-ok (try Source.rpc_error rpc.system_chain) _ e in
    let (properties, given, e2) = >>=-eq-ok (try Source.rpc_error rpc.system_properties) _ e1 in
    let (maybe_genesis, answered, e3) = >>=-eq-ok (try Source.rpc_error rpc.genesis_hash) _ e2 in
    let (genesis, exists, e4) = >>=-eq-ok (expect maybe_genesis) _ e3 in
    let (format, formatted, e5) =
      >>=-eq-ok (ok_or (read as_u64 (get (codes "ss58Format") properties)) _) _ e4 in
    let (symbol, signed, e6) =
      >>=-eq-ok (ok_or (read as_str (get (codes "tokenSymbol") properties)) _) _ e5 in
    let (decimals, counted, e7) =
      >>=-eq-ok (ok_or (read as_u64 (get (codes "tokenDecimals") properties)) _) _ e6 in
    record {
      properties = properties;
      format = format;
      decimals = decimals;
      has_name =
          try-ok Source.rpc_error rpc.system_chain named ∙ ap (λ r. done (value_or d r).name) e7;
      has_properties = try-ok Source.rpc_error rpc.system_properties given;
      has_genesis =
          try-ok Source.rpc_error rpc.genesis_hash answered
          ∙ ap done
              (expect-ok maybe_genesis exists ∙ ap (λ r. some (value_or d r).genesis_hash) e7);
      has_format = ok_or-u64 (get (codes "ss58Format") properties) _ formatted;
      has_symbol =
          ok_or-string (get (codes "tokenSymbol") properties) _ signed
          ∙ ap (λ r. some (string (value_or d r).token_symbol)) e7;
      has_decimals = ok_or-u64 (get (codes "tokenDecimals") properties) _ counted;
      is_format = sym (ap (λ r. (value_or d r).ss58_format) e7);
      is_decimals = sym (ap (λ r. (value_or d r).token_decimals) e7);
    }

network_details-of_Describes :
    (rpc : ChainRpc) (d : NetworkDetails) → Describes rpc d → network_details rpc ≡ ok d
unfolding network_details
network_details-of_Describes rpc d h =
    rw (h.has_name, h.has_properties, h.has_genesis, h.has_format, h.has_symbol, h.has_decimals)
      (ap (λ f. ok (record d { ss58_format = f; token_decimals = h.decimals % 256 }))
          (sym h.is_format)
        ∙ ap (λ t. ok (record d { token_decimals = t })) (sym h.is_decimals))

-- The details are returned exactly if the node answers, knows the genesis block, and gives the address
-- format and the decimals as u64 and the symbol as a string; they are then those answers, with the
-- format's lowest 16 bits and the decimals' lowest 8.
pub network_details_iff :
    (rpc : ChainRpc) (d : NetworkDetails) → (network_details rpc ≡ ok d) ↔ Describes rpc d
network_details_iff rpc d = (network_details-ok rpc d, network_details-of_Describes rpc d)

-- The settings that the program starts with are those that the file has under the name of the chain;
-- without an answer of the node, a file that can be read, or an entry of that name it does not start.
pub network_config_iff :
    (from_str : Text → Call NetworksConfig) (rpc : ChainRpc) (file : Call Text)
    → (d : NetworkDetails) (config : NetworkConfig)
    → (network_config from_str rpc file ≡ ok (d, config)) ↔ (
        Describes rpc d
        × ((text : Text) × (networks : NetworksConfig) × (file ≡ done text)
            × (from_str text ≡ done networks)
            × (get d.name networks.networks ≡ some config)))
unfolding network_config load_networks_config
network_config_iff from_str rpc file d config = (finds, found)
  where
    finds :
        network_config from_str rpc file ≡ ok (d, config)
        → Describes rpc d
          × ((text : Text) × (networks : NetworksConfig) × (file ≡ done text)
              × (from_str text ≡ done networks)
              × (get d.name networks.networks ≡ some config))
    finds e =
        let (details, described, e1) = >>=-eq-ok (network_details rpc) _ e in
        let (networks, loaded, e2) = >>=-eq-ok (load_networks_config from_str file) _ e1 in
        let (text, was_read, parsed) = >>=-eq-ok (try Source.io_error file) _ loaded in
        let (chosen, has, e3) = >>=-eq-ok (ok_or (get details.name networks.networks) _) _ e2 in
        let same : details ≡ d =
          ap
            (λ (r : Exec (NetworkDetails × NetworkConfig)).
              (value_or {A = NetworkDetails × NetworkConfig} (d, config) r).0)
            e3 in
        let same_config : chosen ≡ config =
          ap
            (λ (r : Exec (NetworkDetails × NetworkConfig)).
              (value_or {A = NetworkDetails × NetworkConfig} (d, config) r).1)
            e3 in
        (
          network_details-ok rpc d (described ∙ ap ok same),
          (
            text,
            networks,
            try-ok Source.io_error file was_read,
            try-ok Source.toml_error (from_str text) parsed,
            ap (λ x. get x.name networks.networks) (sym same)
                ∙ ok_or-some _ _ has
                ∙ ap some same_config,
          ),
        )

    found :
        Describes rpc d
          × ((text : Text) × (networks : NetworksConfig) × (file ≡ done text)
              × (from_str text ≡ done networks)
              × (get d.name networks.networks ≡ some config))
        → network_config from_str rpc file ≡ ok (d, config)
    found (described, (text, networks, was_read, parsed, has)) =
        rw (network_details-of_Describes rpc d described, was_read, parsed, has)
