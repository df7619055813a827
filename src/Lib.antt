-- ===== src/Lib.antt =====
-- A model of the Subspace chain alerter (alerter/src): a program that follows the blocks and the proof
-- of time of a Subspace network, and posts alerts to Slack.
--
-- The parts and their files:
-- - Error: alerter/src/error.rs, and `Exec`, the ways in which code ends (a value, an error that `?`
--   passes up, a panic, or that it still runs). The release profile has overflow checks, so that an
--   overflow is a panic.
-- - Chain: the data of alerter/src/subspace.rs. Hashes are numbers.
-- - Cache: `HeadersMetadataCache` of subspace.rs. Its BTreeMaps are association lists with one entry
--   for each key, its BTreeSet a list without repetition.
-- - Listener: `listen_for_all_blocks` of subspace.rs and what it calls. An action takes the state
--   (the cache, the best block and what was broadcast) to a result and the next state; it keeps what
--   was done before a failure. Actions has the state, Route `recursive_tree_route`, Import the body of
--   `listen_for_blocks`, Sessions the loops around it. The subscription is a list of items, each with
--   the answers of the RPC node while it is handled; a listener that has had all items still runs.
-- - Reading: the methods of `BlockExt` in subspace.rs, with the answers of the client.
-- - Config: alerter/src/cli.rs. Durations are in nanoseconds.
-- - EventTypes: alerter/src/event_types.rs. Alert: the alerts of slack.rs, slots.rs and
--   stall_and_reorg.rs.
-- - Monitor: the loop that the monitors share. Its inputs are the messages of the channel and the
--   waits that ran out, in the order in which `time::timeout` gives them.
-- - Stall: alerter/src/stall_and_reorg.rs, which handles what the listener broadcasts.
-- - Gossip: the data of alerter/src/p2p_network.rs. Network: its peers' roles, events and loop. The
--   swarm is the list of its events, and the calls made to it are recorded; Swarm is how it is built.
-- - Slots: alerter/src/slots.rs, which handles the proofs that the network passes on.
-- - Events: alerter/src/events.rs, which handles what the listener broadcasts, with the answers of the
--   client for each block.
-- - Message: alerter/src/md_format.rs, the texts of the alerts.
-- - Slack: alerter/src/slack.rs, with the answers of the file system and of Slack. It posts what Message
--   writes.
-- - Uptime: alerter/src/uptime.rs, with the answers of the HTTP client.
-- - Startup: `network_details` of alerter/src/subspace.rs, and alerter/src/main.rs: the choice of the
--   network's settings, the tasks that are spawned, each with the loop of its part, and the end of the
--   join set. Which task ends first is an input.
--
-- Parameters stand for the code of other crates: the header hash and the digest codec (`Hashing`),
-- `sp_blockchain::tree_route` (`Library`, with its contract `IsFaithful` and `Supplied`), the RPC
-- node (`Node`, `ChainRpc`), the texts of decimals, hashes, durations and URLs (`Rendering`, with
-- its contracts `Has96Bits` and `IsFlat`), the events of a block, the reading of addresses and of
-- TOML, and sp_runtime's `BoundedVec` (with its contract `Truncates`).
--
-- Fuel: `remove_header_until` is given `number + 2` rounds, one for each height from `number` down
-- to 0 and one for the repeated 0. `recursive_tree_route` is given fuel by its caller, a unit for
-- each header that may be fetched. Other loops run over their list of inputs.
--
-- Numbers are natural. Block numbers, slots and durations keep their machine bounds where the code
-- can pass them: the addition to a slot, the sum and the saturating sum of durations.
--
-- Logging, the inside of the Slack API, and the peer-to-peer stack are not modelled, and of
-- alerter/src/main.rs `init_logger`, the parsing of the arguments, and the setting of sp_core's
-- default address format, which no other code of the program reads. A refusal of a channel's `send`
-- is only logged by the code and changes nothing, so that the model keeps what is given to `send`.
mod Base
pub mod Error
pub mod Chain
pub mod Cache
pub mod Listener
pub mod Config
pub mod EventTypes
pub mod Events
pub mod Alert
pub mod Message
pub mod Monitor
pub mod Network
pub mod Stall
pub mod Gossip
pub mod Slack
pub mod Slots
pub mod Startup
pub mod Uptime
pub mod Reading
