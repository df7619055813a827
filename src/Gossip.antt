-- ===== src/Gossip.antt =====
-- alerter/src/p2p_network.rs, the data: the gossiped proofs of time and the notes of their arrival.
use subspace_chain_alerts.Base.{ℕ, List}
use subspace_chain_alerts.Chain.{Slot}

-- `[u8; 16]`
pub record PotSeed : Type 0 where
  pub bytes : List ℕ

pub record PotOutput : Type 0 where
  pub bytes : List ℕ

-- `[PotOutput; 8]`
pub record PotCheckpoints : Type 0 where
  pub outputs : List PotOutput

pub record GossipProof : Type 0 where
  pub slot : Slot
  pub seed : PotSeed
  pub slot_iterations : ℕ  -- NonZeroU32
  pub checkpoints : PotCheckpoints

-- `at` is an `Instant`: its nanoseconds from some start.
pub record PoTInfo : Type 0 where
  pub at : ℕ
  pub proof : GossipProof
