-- ===== src/Listener/Import.antt =====
-- alerter/src/subspace.rs: the body of `listen_for_blocks`.
use subspace_chain_alerts.Base.{
  ℕ, ◌-◌, reverse, Option, none, some, Bool, not, ◌==◌, if◌then◌else◌, is_empty, init, last,
}
use subspace_chain_alerts.Error.{
  Exec, ok, err, panic, running, try, ok_or, expect, assert, traverse, missing_block, Source, Call,
  Foreign,
}
use subspace_chain_alerts.Error
use subspace_chain_alerts.Chain.{
  BlockHash, BlockNumber, SubstrateHeader, BlockExt, ReorgData, cache_header_depth,
}
use subspace_chain_alerts.Cache.{HeadersMetadataCache}
use subspace_chain_alerts.Cache
use subspace_chain_alerts.Listener.Actions.{
  Node, TreeRoute, Library, Action, pure, lift, ◌>>=◌, ◌>>◌, cache_now, best_now, set_best, send,
  add_header, remove_header_until,
}
use subspace_chain_alerts.Listener.Route.{recursive_tree_route}

-- A block of the subscription: `hash` is what the client says of it.
pub record Block : Type 0 where
  pub header : SubstrateHeader
  pub hash : BlockHash

unfoldable pub is_canonical_block : Node → BlockNumber → BlockHash → Exec Bool
is_canonical_block node block_number block_hash =
    Error.◌>>=◌ (try Source.rpc_error (node.chain_get_block_hash block_number))
      λ found. Error.◌>>=◌ (ok_or found missing_block) λ hash. ok (block_hash == hash)

unfoldable pub get_block_ext : HeadersMetadataCache → BlockHash → Exec BlockExt
get_block_ext cache hash = Error.◌>>=◌ (Cache.get_header hash cache) λ header. ok (record {
  number = header.number;
  hash = hash;
  parent_hash = header.parent_hash;
  state_root = header.state_root;
  extrinsics_root = header.extrinsics_root;
})

-- `enacted` is what is left of the enacted blocks when the new best block is popped.
abbrev pub reorg_data : TreeRoute → Option ReorgData
reorg_data route =
    if not (is_empty route.retracted)
    then some (record {
      enacted = init route.enacted;
      retracted = reverse route.retracted;
      common_block = route.common_block;
    })
    else none

-- From `get_block_ext` on: the enacted blocks become the news, and the last the best block.
unfoldable pub enact : BlockNumber → TreeRoute → Action (Unit {0})
enact block_number route = do
  cache ← cache_now
  block_exts ← lift (traverse (λ b. get_block_ext cache b.hash) route.enacted)
  best ← lift (expect (last route.enacted))
  set_best best
  send (record { blocks = block_exts; maybe_reorg_data = reorg_data route })
  remove_header_until (block_number - cache_header_depth)

-- From the route to the best block on.
unfoldable pub import_best : Library → Node → ℕ → BlockNumber → BlockHash → Action (Unit {0})
import_best lib node fuel block_number block_hash = do
  best ← best_now
  route ← recursive_tree_route lib node fuel best.hash block_hash
  if is_empty route.enacted then pure tt else enact block_number route

-- One block of the subscription.
unfoldable pub on_block : Library → Node → ℕ → Block → Action (Unit {0})
on_block lib node fuel block = do
  added ← add_header lib.hashing block.header
  lift (assert (added == block.hash))
  canonical ← lift (is_canonical_block node block.header.number block.hash)
  if canonical then import_best lib node fuel block.header.number block.hash else pure tt
