-- ===== src/Network/Tests.antt =====
-- The network on small inputs.
use subspace_chain_alerts.Base.{List, [], ◌∷◌, none, nat_eq}
use subspace_chain_alerts.Gossip.{GossipProof}
use subspace_chain_alerts.Network.{
  Multiaddr, p2p, other, full_node, light_node, authority, Input, tick, event, pot_protocol_open,
  block_announce_open, connection_closed, pot_notification, routable_peer, start, run,
}
use subspace_chain_alerts.Network.Roles.{HasRole, last_role, run-HasRole}

abbrev proof : GossipProof
proof = record {
  slot = 5;
  seed = record { bytes = [] };
  slot_iterations = 1;
  checkpoints = record { outputs = [] };
}

abbrev bootnodes : List Multiaddr
bootnodes = (other [] ∷ p2p 3 ∷ []) ∷ (other [] ∷ []) ∷ []

-- Peer 4 becomes a full node, then an authority, and stays one as its second connection closes; peer 3
-- leaves.
abbrev inputs : List Input
inputs =
    event 10 (block_announce_open 4 full_node)
    ∷ event 11 (pot_protocol_open 4 authority)
    ∷ event 12 (block_announce_open 3 full_node)
    ∷ event 13 (pot_protocol_open 4 light_node)
    ∷ tick
    ∷ event 14 (pot_notification 4 proof)
    ∷ event 15 (connection_closed 4 1)
    ∷ event 16 (connection_closed 3 0)
    ∷ event 17 (routable_peer 9 (p2p 9 ∷ []))
    ∷ []

run-HasRole_example : HasRole (run inputs (start bootnodes)) 4 (last_role 4 inputs none)
run-HasRole_example = run-HasRole bootnodes inputs 4
