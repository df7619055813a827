-- ===== src/Network/Effects.antt =====
-- alerter/src/p2p_network.rs: what the network does to the outside over a run.
use subspace_chain_alerts.Base.{ℕ, ◌+◌, ◌≡◌, List, [], ◌∷◌, ◌++◌, Option, none, some}
use subspace_chain_alerts.Gossip.{PoTInfo}
use subspace_chain_alerts.Network.{
  PeerId, Multiaddr, routable_peer, pot_notification, Network, Input, tick, event, extract_peer_id,
}

-- The proofs of some inputs, each with the time of its notification.
abbrev proof_of : Input → List PoTInfo
proof_of (event now (pot_notification peer message)) = record { at = now; proof = message } ∷ []
proof_of _ = []

abbrev pub proofs_of : List Input → List PoTInfo
proofs_of [] = []
proofs_of (i ∷ inputs) = proof_of i ++ proofs_of inputs

-- The addresses of the peers that the discovery found.
abbrev address_of : Input → List Multiaddr
address_of (event now (routable_peer peer address)) = address ∷ []
address_of _ = []

abbrev pub addresses_of : List Input → List Multiaddr
addresses_of [] = []
addresses_of (i ∷ inputs) = address_of i ++ addresses_of inputs

abbrev tick_of : Input → ℕ
tick_of tick = 1
tick_of _ = 0

abbrev pub ticks_of : List Input → ℕ
ticks_of [] = 0
ticks_of (i ∷ inputs) = tick_of i + ticks_of inputs

-- The bootnodes that name a peer, with it.
abbrev named_by : Option PeerId → Multiaddr → List (PeerId × Multiaddr)
named_by none addr = []
named_by (some peer) addr = (peer, addr) ∷ []

abbrev pub named : List Multiaddr → List (PeerId × Multiaddr)
named [] = []
named (addr ∷ addrs) = named_by (extract_peer_id addr) addr ++ named addrs

-- `n'` is `n` with more done to the outside.
pub record Does (sent : List PoTInfo) (dialled : List Multiaddr) (added : List (PeerId × Multiaddr))
    (queries : ℕ) (n n' : Network) : Type 0 where
  pub sends : n'.sent ≡ n.sent ++ sent
  pub dials : n'.dialled ≡ n.dialled ++ dialled
  pub adds : n'.added ≡ n.added ++ added
  pub asks : n'.queries ≡ n.queries + queries
