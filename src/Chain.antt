-- ===== src/Chain.antt =====
-- alerter/src/subspace.rs, the data: hashes, headers, blocks, and what is broadcast. The `Hashing`
-- record stands for sp_runtime's header hash and for the SCALE codec of digests.
use subspace_chain_alerts.Base.{ℕ, List, Option}

-- `H256`, as the number that its bytes write.
abbrev pub BlockHash : Type 0
BlockHash = ℕ

-- u32
abbrev pub BlockNumber : Type 0
BlockNumber = ℕ

-- `AccountId32`, as the number that its bytes write.
abbrev pub AccountId : Type 0
AccountId = ℕ

-- u128
abbrev pub Balance : Type 0
Balance = ℕ

-- u64
abbrev pub Slot : Type 0
Slot = ℕ

-- A digest, by its SCALE encoding.
abbrev pub Digest : Type 0
Digest = List ℕ

-- The header that the RPC client returns.
pub record SubstrateHeader : Type 0 where
  pub parent_hash : BlockHash
  pub number : BlockNumber
  pub state_root : BlockHash
  pub extrinsics_root : BlockHash
  pub digest : Digest

-- The header of the cache, `generic::Header<u32, BlakeTwo256>`.
pub record Header : Type 0 where
  pub parent_hash : BlockHash
  pub number : BlockNumber
  pub state_root : BlockHash
  pub extrinsics_root : BlockHash
  pub digest : Digest

pub record Hashing : Type 0 where
  pub hash : Header → BlockHash
  pub decode_digest : List ℕ → Option Digest

pub record HashAndNumber : Type 0 where
  pub number : BlockNumber
  pub hash : BlockHash

-- The client handle that `BlockExt` carries is not part of the value.
pub record BlockExt : Type 0 where
  pub number : BlockNumber
  pub hash : BlockHash
  pub parent_hash : BlockHash
  pub state_root : BlockHash
  pub extrinsics_root : BlockHash

pub record ReorgData : Type 0 where
  pub enacted : List HashAndNumber
  pub retracted : List HashAndNumber
  pub common_block : HashAndNumber

pub record BlocksExt : Type 0 where
  pub blocks : List BlockExt
  pub maybe_reorg_data : Option ReorgData

-- Maximum number of headers to load in the cache.
abbrev pub cache_header_depth : ℕ
cache_header_depth = 100
