-- ===== src/Network.antt =====
-- alerter/src/p2p_network.rs: the peers' roles, and what the network hands on. The swarm of libp2p is
-- seen by its events, and by the calls that are made to it.
pub mod Roles
pub mod Effects
pub mod Swarm
mod Tests
use subspace_chain_alerts.Base.{
  ℕ, zero, suc, ◌+◌, List, [], ◌∷◌, ◌++◌, Option, none, some, Bool, true, false, set_insert,
  set_remove, nat_eq, ◌==◌, if◌then◌else◌, Text,
}
use subspace_chain_alerts.Gossip.{GossipProof, PoTInfo}

-- `PeerId`, as the number that its bytes write.
abbrev pub PeerId : Type 0
PeerId = ℕ

-- The parts of an address that `Multiaddr::iter` gives.
pub data MultiAddrProtocol : Type 0 where
  p2p : PeerId → MultiAddrProtocol
  other : Text → MultiAddrProtocol

abbrev pub Multiaddr : Type 0
Multiaddr = List MultiAddrProtocol

pub data ProtocolRole : Type 0 where
  full_node light_node authority : ProtocolRole

-- The events of the swarm that `handle_event` tells apart; `other_event` is any other, of the swarm or
-- of a behaviour.
pub data SwarmEvent : Type 0 where
  routable_peer : PeerId → Multiaddr → SwarmEvent
  pot_protocol_open : PeerId → ProtocolRole → SwarmEvent
  pot_protocol_closed : PeerId → SwarmEvent
  pot_notification : PeerId → GossipProof → SwarmEvent
  block_announce_open : PeerId → ProtocolRole → SwarmEvent
  connection_closed : PeerId → ℕ → SwarmEvent
  other_event : SwarmEvent

-- The sets of peers, and what was done to the outside, the oldest first: the proofs sent, the addresses
-- dialled, the addresses added to the discovery, and the number of its queries. (A refusal of `dial` or
-- of `send` is logged, and changes nothing.)
pub record Network : Type 0 where
  pub bootnodes : List Multiaddr
  pub authorities : List PeerId
  pub fullnodes : List PeerId
  pub sent : List PoTInfo
  pub dialled : List Multiaddr
  pub added : List (PeerId × Multiaddr)
  pub queries : ℕ

-- `Network::new`, but for the swarm.
abbrev pub start : List Multiaddr → Network
start bootnodes = record {
  bootnodes = bootnodes;
  authorities = [];
  fullnodes = [];
  sent = [];
  dialled = [];
  added = [];
  queries = 0;
}

unfoldable pub add_peer_role : PeerId → ProtocolRole → Network → Network
add_peer_role peer full_node n = record n {
  authorities = set_remove peer n.authorities;
  fullnodes = set_insert peer n.fullnodes;
}
add_peer_role peer light_node n = n
add_peer_role peer authority n = record n {
  fullnodes = set_remove peer n.fullnodes;
  authorities = set_insert peer n.authorities;
}

unfoldable pub remove_peer : PeerId → Network → Network
remove_peer peer n = record n {
  authorities = set_remove peer n.authorities;
  fullnodes = set_remove peer n.fullnodes;
}

-- `now` is `Instant::now()`.
unfoldable pub handle_event : ℕ → SwarmEvent → Network → Network
unfolding add_peer_role remove_peer
handle_event now (routable_peer peer address) n = record n { dialled = n.dialled ++ address ∷ [] }
handle_event now (pot_protocol_open peer role) n = add_peer_role peer role n
handle_event now (pot_protocol_closed peer) n = n
handle_event now (pot_notification peer message) n = record n {
  sent = n.sent ++ record { at = now; proof = message } ∷ [];
}
handle_event now (block_announce_open peer role) n = add_peer_role peer role n
handle_event now (connection_closed peer num_established) n =
    if num_established == 0 then remove_peer peer n else n
handle_event now other_event n = n

unfoldable pub extract_peer_id : Multiaddr → Option PeerId
extract_peer_id [] = none
extract_peer_id (p2p peer ∷ addr) = some peer
extract_peer_id (other text ∷ addr) = extract_peer_id addr

-- `discovery.add_address`, if the address names a peer.
unfoldable pub add_address : Option PeerId → Multiaddr → Network → Network
add_address none addr n = n
add_address (some peer) addr n = record n { added = n.added ++ (peer, addr) ∷ [] }

-- The loop over the bootnodes.
unfoldable pub dial_bootnodes : List Multiaddr → Network → Network
unfolding add_address extract_peer_id
dial_bootnodes [] n = n
dial_bootnodes (addr ∷ addrs) n =
    dial_bootnodes addrs
      (add_address (extract_peer_id addr) addr (record n { dialled = n.dialled ++ addr ∷ [] }))

-- The two arms of the `select!`: a tick of the discovery interval, or an event at a time.
pub data Input : Type 0 where
  tick : Input
  event : ℕ → SwarmEvent → Input

unfoldable pub round : Input → Network → Network
unfolding handle_event
round tick n = record n { queries = n.queries + 1 }
round (event now e) n = handle_event now e n

unfoldable pub rounds : List Input → Network → Network
unfolding round
rounds [] n = n
rounds (i ∷ inputs) n = rounds inputs (round i n)

-- `run`, which goes on for ever.
unfoldable pub run : List Input → Network → Network
unfolding dial_bootnodes rounds
run inputs n = rounds inputs (dial_bootnodes n.bootnodes n)
