-- ===== src/Listener/Sessions.antt =====
-- alerter/src/subspace.rs: the loops around the listener's body: the subscription's items, the first
-- load of the header cache, and the sessions of `listen_for_all_blocks`.
use subspace_chain_alerts.Base.{ℕ, zero, suc, ◌+◌, ◌-◌, List, [], ◌∷◌, if◌then◌else◌}
use subspace_chain_alerts.Error.{
  Exec, ok, err, panic, running, try, ok_or, traverse, missing_block, Source, Call, Foreign, Error,
  from,
}
use subspace_chain_alerts.Error
use subspace_chain_alerts.Chain.{
  BlockHash, BlockNumber, SubstrateHeader, HashAndNumber, cache_header_depth,
}
use subspace_chain_alerts.Listener.Actions.{
  Node, Library, Action, pure, lift, ◌>>=◌, ◌>>◌, set_best, add_header,
}
use subspace_chain_alerts.Listener.Import.{Block, is_canonical_block, on_block}

-- What `sub.next()` gives: the end of the stream, an error, or a block.
pub data Item : Type 0 where
  ended : Item
  failed : Foreign → Item
  arrived : Block → Item

-- `sub.next().await.ok_or(Error::MissingBlock)??`.
unfoldable pub next_block : Item → Exec Block
next_block ended = err missing_block
next_block (failed e) = err (from Source.subxt_error e)
next_block (arrived block) = ok block

-- Each item comes with the node's answers while it is handled.
abbrev pub Items : Type 0
Items = List (Node × Item)

-- `listen_for_blocks`: it ends only by an error or a panic.
unfoldable pub listen_for_blocks : Library → ℕ → Items → Action (Unit {0})
listen_for_blocks lib fuel [] = lift running
listen_for_blocks lib fuel ((node, item) ∷ items) = do
  block ← lift (next_block item)
  on_block lib node fuel block
  listen_for_blocks lib fuel items

-- The first loop of `load_header_metadata_cache`: up to the first block on the canonical chain.
unfoldable pub first_canonical : Items → Exec (Node × BlockHash × Items)
first_canonical [] = running
first_canonical ((node, item) ∷ items) = Error.◌>>=◌ (next_block item) λ block.
    Error.◌>>=◌ (is_canonical_block node block.header.number block.hash)
      λ canonical. if canonical then ok (node, block.hash, items) else first_canonical items

-- `start`, `start + 1`, …: `count` numbers.
abbrev pub numbers_from : BlockNumber → ℕ → List BlockNumber
numbers_from start zero = []
numbers_from start (suc count) = start ∷ numbers_from (start + 1) count

-- `chain_get_header(Some(hash)).await?.ok_or(Error::MissingBlock)?`.
unfoldable pub header_of : Node → BlockHash → Exec SubstrateHeader
header_of node hash =
    Error.◌>>=◌ (try Source.rpc_error (node.chain_get_header hash))
      λ found. ok_or found missing_block

unfoldable pub header_at : Node → BlockNumber → Exec SubstrateHeader
header_at node number =
    Error.◌>>=◌ (try Source.rpc_error (node.chain_get_block_hash number))
      λ found. Error.◌>>=◌ (ok_or found missing_block) λ hash. header_of node hash

unfoldable pub add_headers : Library → List SubstrateHeader → Action (Unit {0})
add_headers lib [] = pure tt
add_headers lib (header ∷ headers) = do
  added ← add_header lib.hashing header
  add_headers lib headers

-- The best block to begin with, and the items that are left.
unfoldable pub load_header_metadata_cache : Library → Items → Action (HashAndNumber × Items)
load_header_metadata_cache lib items = do
  (node, latest_hash, rest) ← lift (first_canonical items)
  latest_head ← lift (header_of node latest_hash)
  let start = latest_head.number - cache_header_depth
  headers ← lift (traverse (header_at node) (numbers_from start (latest_head.number + 1 - start)))
  add_headers lib headers
  pure (record { number = latest_head.number; hash = latest_hash }, rest)

-- One round of `listen_for_all_blocks`: the answer to `subscribe_all`, and the items after it.
pub record Session : Type 0 where
  pub subscribed : Call (Unit {0})
  pub items : Items

-- What `listen_for_blocks` returned decides whether there is another round.
unfoldable pub reconnect : Action (Unit {0}) → Exec (Unit {0}) → Action (Unit {0})
reconnect again (err (Error.rpc e)) = again
reconnect again res = lift res

-- The call of `listen_for_blocks` with its result.
unfoldable pub listened : Library → ℕ → Items → Action (Unit {0}) → Action (Unit {0})
listened lib fuel items again s =
    let (res, s') = listen_for_blocks lib fuel items s in reconnect again res s'

unfoldable pub listen_for_all_blocks : Library → ℕ → List Session → Action (Unit {0})
listen_for_all_blocks lib fuel [] = lift running
listen_for_all_blocks lib fuel (session ∷ sessions) = do
  opened ← lift (try Source.subxt_error session.subscribed)
  (best, rest) ← load_header_metadata_cache lib session.items
  set_best best
  listened lib fuel rest (listen_for_all_blocks lib fuel sessions)
