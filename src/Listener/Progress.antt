-- ===== src/Listener/Progress.antt =====
-- alerter/src/subspace.rs: when a block of the subscription is handled to the end.
use subspace_chain_alerts.Base.{
  ℕ, ◌-◌, ◌<◌, ◌≡◌, refl, List, [], ◌∷◌, ◌++◌, some, true, false, last, is_empty, length, arith,
  ◌⊎◌, inl, inr, Bool-cases, ==_refl, contains, nat_eq,
}
use subspace_chain_alerts.Error.{ok, traverse, done, >>=-eq-ok}
use subspace_chain_alerts.Chain.{
  BlockHash, BlockNumber, Header, HashAndNumber, BlockExt, cache_header_depth,
}
use subspace_chain_alerts.Cache.{HeadersMetadataCache, get_header, convert, store}
use subspace_chain_alerts.Cache
use subspace_chain_alerts.Cache.Pruning.{remove_header_until-Pruned}
use subspace_chain_alerts.Listener.Actions.{
  Node, HeaderMetadata, TreeRoute, Library, Listener, add_header, remove_header_until,
}
use subspace_chain_alerts.Listener.Route.{header_metadata, recursive_tree_route}
use subspace_chain_alerts.Listener.Import.{
  Block, get_block_ext, reorg_data, enact, import_best, on_block, is_canonical_block,
}
use subspace_chain_alerts.Listener.Broadcast.{Linked, IsFaithful}
use subspace_chain_alerts.Listener.Outcome.{Quiet, Announced, on_block-outcome}
use subspace_chain_alerts.Listener.Termination.{
  Fits, Supplied, store-Fits, recursive_tree_route-Routed,
}
use subspace_chain_alerts.Listener.Growth.{Grown-IsKeyed, recursive_tree_route-Grows}

get_block_ext-known :
    (lib : Library) (c : HeadersMetadataCache) (h : BlockHash) (m : HeaderMetadata)
    → header_metadata lib c h ≡ ok m
    → (b : BlockExt) × (get_block_ext c h ≡ ok b)
unfolding header_metadata get_block_ext
get_block_ext-known lib c h m e =
    let (header, found, e') = >>=-eq-ok (get_header h c) _ e in
    (
      record {
        number = header.number;
        hash = h;
        parent_hash = header.parent_hash;
        state_root = header.state_root;
        extrinsics_root = header.extrinsics_root;
      },
      rw found refl,
    )

-- The blocks of a route have details in the cache that it was found in.
traverse-Linked :
    (lib : Library) (c : HeadersMetadataCache) (from : BlockHash) (route : List HashAndNumber)
    → Linked (header_metadata lib c) from route
    → (blocks : List BlockExt) × (traverse (λ b. get_block_ext c b.hash) route ≡ ok blocks)
unfolding traverse
traverse-Linked lib c from [] linked = ([], refl)
traverse-Linked lib c from (b ∷ route) ((m, known, parent), linked) =
    let (block, got) = get_block_ext-known lib c b.hash m known in
    let (blocks, others) = traverse-Linked lib c b.hash route linked in
    (block ∷ blocks, rw (got, others) refl)

last-some {ℓ} : {A : Type ℓ} (xs : List A) → is_empty xs ≡ false → (x : A) × (last xs ≡ some x)
last-some [] e = absurd (ground arith)
last-some (x ∷ []) e = (x, refl)
last-some (x ∷ y ∷ xs) e = last-some (y ∷ xs) refl

module _ (lib : Library) (faithful : IsFaithful lib) (node : Node) where
  enact-ends :
      (number : BlockNumber) (from : BlockHash) (route : TreeRoute) (s : Listener)
      → Linked (header_metadata lib s.header_metadata) from route.enacted
      → is_empty route.enacted ≡ false
      → (s' : Listener) × (enact number route s ≡ (ok tt, s'))
  unfolding enact remove_header_until
  enact-ends number from route s linked some_enacted =
      let (blocks, got) = traverse-Linked lib s.header_metadata from route.enacted linked in
      let (best, at_end) = last-some route.enacted some_enacted in
      let (cache, pruned, shape) =
        remove_header_until-Pruned (number - cache_header_depth) s.header_metadata in
      (
        record s {
          header_metadata = cache;
          current_best_block = best;
          sent = s.sent ++ record { blocks = blocks; maybe_reorg_data = reorg_data route } ∷ [];
        },
        rw (got, at_end, pruned) refl,
      )

  import_best-ends :
      (fuel : ℕ) (number : BlockNumber) (hash : BlockHash) (header_at : BlockHash → Header)
      (hashes : List BlockHash)
      → (s : Listener)
        (supplied : Supplied lib node s.current_best_block.hash hash header_at hashes)
      → Fits lib.hashing header_at hashes s.header_metadata
      → length hashes < fuel
      → (s' : Listener) × (import_best lib node fuel number hash s ≡ (ok tt, s'))
  unfolding import_best
  import_best-ends fuel number hash header_at hashes s supplied fits enough =
      let from = s.current_best_block.hash in
      let routed =
        recursive_tree_route-Routed lib node from hash header_at hashes supplied fuel s fits
          enough in
      let t = (recursive_tree_route lib node fuel from hash s).1 in
      elim (Bool-cases (is_empty routed.route.enacted)) [
        | inl nothing ↦ (t, rw (routed.returned, nothing) refl)
        | inr some_enacted ↦
            let is_route =
              faithful.routes t.header_metadata from hash routed.route
                (Grown-IsKeyed lib.hashing
                  ((recursive_tree_route-Grows lib node fuel from hash).at s) fits.keyed)
                routed.computed in
            let (s', enacted) =
              enact-ends number routed.route.common_block.hash routed.route t is_route.linked
                some_enacted in
            (s', rw (routed.returned, some_enacted) enacted)
      ]

  -- A block of the canonical chain is handled to the end, neither failing nor waiting, if it is one of
  -- the blocks that the route to it may ask for, the node knows the headers of all of these, the cache
  -- has no other headers under their hashes, and there is fuel for each: it leaves the best block as it
  -- is, or it is announced and becomes the best block. On such caches, `tree_route` asks for these blocks
  -- only, passes on the errors of the header source, and comes to an end.
  pub on_block-Announced :
      (fuel : ℕ) (block : Block) (header_at : BlockHash → Header) (hashes : List BlockHash)
      (s : Listener)
      (supplied : Supplied lib node s.current_best_block.hash block.hash header_at hashes)
      → Fits lib.hashing header_at hashes s.header_metadata
      → contains block.hash hashes ≡ true
      → convert lib.hashing block.header ≡ ok (header_at block.hash)
      → node.chain_get_block_hash block.header.number ≡ done (some block.hash)
      → length hashes < fuel
      → (s' : Listener) × (on_block lib node fuel block s ≡ (ok tt, s'))
        × (Quiet s s' ⊎ Announced lib block.hash s s')
  on_block-Announced fuel block header_at hashes s supplied fits asked decodes canonical enough =
      let (header, answered, converts, hashed) = supplied.known block.hash asked in
      let stored = store lib.hashing (header_at block.hash) s.header_metadata in
      let cached : Listener = record s { header_metadata = stored } in
      let (s', ends) =
        import_best-ends fuel block.header.number block.hash header_at hashes cached supplied
          (store-Fits lib.hashing header_at hashes s.header_metadata block.hash hashed fits)
          enough in
      let handled : on_block lib node fuel block s ≡ (ok tt, s') =
        unfold on_block add_header Cache.add_header is_canonical_block in
        rw (decodes, hashed, canonical, ==_refl block.hash) ends in
      (s', handled, on_block-outcome lib faithful node fuel block s s' fits.keyed handled)
