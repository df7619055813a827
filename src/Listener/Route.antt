-- ===== src/Listener/Route.antt =====
-- alerter/src/subspace.rs, `recursive_tree_route`: the route is tried again with each header that the
-- cache lacked.
use subspace_chain_alerts.Base.{ℕ, zero, suc}
use subspace_chain_alerts.Error.{
  Error, Exec, ok, err, panic, running, try, ok_or, missing_block, missing_block_hash_from_cache,
  Source,
}
use subspace_chain_alerts.Error
use subspace_chain_alerts.Chain.{BlockHash}
use subspace_chain_alerts.Cache.{HeadersMetadataCache}
use subspace_chain_alerts.Cache
use subspace_chain_alerts.Listener.Actions.{
  Node, HeaderMetadata, TreeRoute, Library, Action, pure, lift, ◌>>=◌, add_header,
}

-- `HeaderMetadata::header_metadata` of the cache.
unfoldable pub header_metadata : Library → HeadersMetadataCache → BlockHash → Exec HeaderMetadata
header_metadata lib cache hash =
    Error.◌>>=◌ (Cache.get_header hash cache) (λ header. ok (lib.metadata header))

-- The missing header is fetched and cached.
unfoldable pub fetch_header : Library → Node → BlockHash → Action BlockHash
fetch_header lib node hash = do
  found ← lift (try Source.rpc_error (node.chain_get_header hash))
  header ← lift (ok_or found missing_block)
  add_header lib.hashing header

-- The `match` on the route: `again` is the recursive call.
unfoldable pub or_retry : Library → Node → Action TreeRoute → Exec TreeRoute → Action TreeRoute
or_retry lib node again (ok route) = pure route
or_retry lib node again (err (missing_block_hash_from_cache hash)) = do
  added ← fetch_header lib node hash
  again
or_retry lib node again (err e) = lift (err e)
or_retry lib node again panic = lift panic
or_retry lib node again running = lift running

-- The fuel bounds how many headers may be fetched.
unfoldable pub recursive_tree_route : Library → Node → ℕ → BlockHash → BlockHash → Action TreeRoute
recursive_tree_route lib node zero from to s = (running, s)
recursive_tree_route lib node (suc fuel) from to s =
    or_retry lib node (recursive_tree_route lib node fuel from to)
      (lib.tree_route (header_metadata lib s.header_metadata) from to) s
