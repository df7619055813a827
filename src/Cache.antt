-- ===== src/Cache.antt =====
-- alerter/src/subspace.rs, `HeadersMetadataCache`: headers by hash, and the hashes of each height.
pub mod Pruning
pub mod Consistency
pub mod View
pub mod Keyed
mod Tests
use subspace_chain_alerts.Base.{
  ℕ, zero, suc, ◌+◌, ◌-◌, Bool, List, [], ◌∷◌, Option, none, some, get, insert, remove, contains,
  set_insert, Map, nat_eq,
}
use subspace_chain_alerts.Error.{
  Exec, ok, err, running, ◌>>=◌, ok_or, expect, missing_block_hash_from_cache,
}
use subspace_chain_alerts.Chain.{BlockHash, BlockNumber, SubstrateHeader, Header, Hashing}

pub record HeadersMetadataCache : Type 0 where
  pub block_header_data : Map BlockHash Header
  pub block_number_hashes : Map BlockNumber (List BlockHash)

-- `HeadersMetadataCache::default()`.
abbrev pub empty : HeadersMetadataCache
empty = record { block_header_data = []; block_number_hashes = [] }

-- `entry(number).or_default()`.
abbrev pub or_default : Option (List BlockHash) → List BlockHash
or_default none = []
or_default (some hashes) = hashes

-- The two insertions of `add_header`.
unfoldable pub store : Hashing → Header → HeadersMetadataCache → HeadersMetadataCache
store hashing header cache = record {
  block_header_data = insert (hashing.hash header) header cache.block_header_data;
  block_number_hashes =
      insert header.number
        (set_insert (hashing.hash header)
          (or_default (get header.number cache.block_number_hashes)))
        cache.block_number_hashes;
}

-- The header with its digest decoded anew; the `expect` panics if that fails.
unfoldable pub convert : Hashing → SubstrateHeader → Exec Header
convert hashing header = do
  decoded_digest ← expect (hashing.decode_digest header.digest)
  ok (record {
    parent_hash = header.parent_hash;
    number = header.number;
    state_root = header.state_root;
    extrinsics_root = header.extrinsics_root;
    digest = decoded_digest;
  })

unfoldable pub add_header :
    Hashing → SubstrateHeader → HeadersMetadataCache → Exec (HeadersMetadataCache × BlockHash)
add_header hashing header cache = do
  converted ← convert hashing header
  ok (store hashing converted cache, hashing.hash converted)

-- `block_header_data.remove` for each hash.
unfoldable pub remove_all : List BlockHash → Map BlockHash Header → Map BlockHash Header
remove_all [] headers = headers
remove_all (h ∷ hashes) headers = remove_all hashes (remove h headers)

-- One round of the loop: the height and its headers go.
unfoldable pub drop_height :
    BlockNumber → List BlockHash → HeadersMetadataCache → HeadersMetadataCache
unfolding remove_all
drop_height to_remove hashes cache = record {
  block_header_data = remove_all hashes cache.block_header_data;
  block_number_hashes = remove to_remove cache.block_number_hashes;
}

-- The loop of `remove_header_until`, with fuel. `saturating_sub` is `-` on ℕ.
unfoldable pub remove_loop : ℕ → BlockNumber → HeadersMetadataCache → Exec HeadersMetadataCache
remove_loop zero to_remove cache = running
remove_loop (suc fuel) to_remove cache = elim (get to_remove cache.block_number_hashes) [
  | none ↦ ok cache
  | some hashes ↦ remove_loop fuel (to_remove - 1) (drop_height to_remove hashes cache)
]

-- The heights from `number` down to 0, and 0 once more: `number + 2` rounds at most.
unfoldable pub remove_header_until : BlockNumber → HeadersMetadataCache → Exec HeadersMetadataCache
unfolding remove_loop drop_height
remove_header_until number cache = remove_loop (number + 2) number cache

-- `get_header`, and `header_metadata` before the conversion of the header that it finds.
unfoldable pub get_header : BlockHash → HeadersMetadataCache → Exec Header
get_header hash cache =
    ok_or (get hash cache.block_header_data) (missing_block_hash_from_cache hash)
