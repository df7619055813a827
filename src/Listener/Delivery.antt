-- ===== src/Listener/Delivery.antt =====
-- alerter/src/subspace.rs: the messages of a whole run of `listen_for_blocks`.
use subspace_chain_alerts.Base.{
  ℕ, zero, suc, ◌-◌, ◌≡◌, refl, List, [], ◌∷◌, ◌++◌, last, is_empty, if◌then◌else◌, arith,
  Option-cases, Bool-cases, ◌⊎◌, inl, inr,
}
use subspace_chain_alerts.Error.{Exec, ok, err, panic, running, Error, traverse}
use subspace_chain_alerts.Chain.{
  BlockHash, BlockNumber, SubstrateHeader, BlockExt, BlocksExt, cache_header_depth,
}
use subspace_chain_alerts.Cache
use subspace_chain_alerts.Cache.{HeadersMetadataCache}
use subspace_chain_alerts.Cache.Keyed.{IsKeyed, remove_header_until-IsKeyed}
use subspace_chain_alerts.Listener.Actions.{
  Node, TreeRoute, Library, Listener, Action, and_then, pure, keep_cache, add_header,
  remove_header_until,
}
use subspace_chain_alerts.Listener.Route.{
  header_metadata, recursive_tree_route, or_retry, fetch_header,
}
use subspace_chain_alerts.Listener.Import.{
  Block, get_block_ext, reorg_data, enact, import_best, on_block,
}
use subspace_chain_alerts.Listener.Sessions.{Items, listen_for_blocks}
use subspace_chain_alerts.Listener.Growth.{
  Grown-frame, Grown-IsKeyed, add_header-Grown, recursive_tree_route-Grows,
}
use subspace_chain_alerts.Listener.Keeps.{Keeps, keeps_rules, listen_for_blocks-Keeps}
use subspace_chain_alerts.Listener.Broadcast.{
  IsFaithful, IsRoute, Follows, Follows-snoc, message-Continues,
}

-- Inversion of a bind that returned.
pub and_then-ok {ℓ κ} :
    {A : Type ℓ} {B : Type κ} (f : A → Action B) (r : Exec A) (t t' : Listener) {b : B}
    → and_then f r t ≡ (ok b, t')
    → (a : A) × (r ≡ ok a) × (f a t ≡ (ok b, t'))
and_then-ok f (ok a) t t' e = (a, refl, e)
and_then-ok f (err x) t t' e = ground arith
and_then-ok f panic t t' e = ground arith
and_then-ok f running t t' e = ground arith

-- A round that returned had the route, or left it to the next round.
or_retry-ok :
    (lib : Library) (node : Node) (again : Action TreeRoute) (r : Exec TreeRoute)
    → (s s' : Listener) (route : TreeRoute) → or_retry lib node again r s ≡ (ok route, s')
    → ((r ≡ ok route) × (s' ≡ s)) ⊎ ((t : Listener) × (again t ≡ (ok route, s')))
unfolding or_retry
or_retry-ok lib node again (err (Error.missing_block_hash_from_cache hash)) s s' route e =
    let (fetched, t) = fetch_header lib node hash s in
    let (added, fetched_ok, rest) = and_then-ok (λ added. again) fetched t s' e in inr (t, rest)
or_retry-ok lib node again (ok found) s s' route e = inl (ground arith, ground arith)
or_retry-ok lib node again (err x) s s' route e = ground arith
or_retry-ok lib node again panic s s' route e = ground arith
or_retry-ok lib node again running s s' route e = ground arith

-- A route that is returned is the route over the cache at the end.
pub route-computed :
    (lib : Library) (node : Node) (fuel : ℕ) (from to : BlockHash)
    → (s s' : Listener) (route : TreeRoute)
    → recursive_tree_route lib node fuel from to s ≡ (ok route, s')
    → lib.tree_route (header_metadata lib s'.header_metadata) from to ≡ ok route
unfolding recursive_tree_route
route-computed lib node zero from to s s' route e = ground arith
route-computed lib node (suc fuel) from to s s' route e =
    elim (or_retry-ok lib node (recursive_tree_route lib node fuel from to)
      (lib.tree_route (header_metadata lib s.header_metadata) from to) s s' route e) [
        | inl (found, unchanged) ↦ rw unchanged found
        | inr (t, later) ↦ route-computed lib node fuel from to t s' route later
      ]

-- The listener's headers stand under their hashes, and its messages so far lead from the block `first`
-- to its best block.
pub record IsFollowed (lib : Library) (first : BlockHash) (s : Listener) : Type 0 where
  pub keyed : IsKeyed lib.hashing s.header_metadata
  pub follows : Follows first s.sent s.current_best_block.hash

keep_cache-IsFollowed :
    (lib : Library) (first : BlockHash) (m : Exec HeadersMetadataCache) (s : Listener)
    → ((cache : HeadersMetadataCache) → m ≡ ok cache → IsKeyed lib.hashing cache)
    → IsFollowed lib first s
    → IsFollowed lib first (keep_cache m s).1
keep_cache-IsFollowed lib first (ok cache) s k f = record {
  keyed = k cache refl;
  follows = f.follows;
}
keep_cache-IsFollowed lib first _ s k f = f

module _ (lib : Library) (faithful : IsFaithful lib) (first : BlockHash) where
  add_header-IsFollowed :
      (header : SubstrateHeader) → Keeps (IsFollowed lib first) (add_header lib.hashing header)
  add_header-IsFollowed header = record {
    at = λ s f.
        let grown = add_header-Grown lib.hashing header s in
        let (best, sent) = Grown-frame lib.hashing grown in
        record {
          keyed = Grown-IsKeyed lib.hashing grown f.keyed;
          follows = rw (best, sent) f.follows;
        };
  }

  -- `enact` sends a message that leads to the new best block, or fails and changes nothing.
  enact-IsFollowed :
      (number : BlockNumber) (to : BlockHash) (route : TreeRoute) (s : Listener)
      → IsRoute (header_metadata lib s.header_metadata) s.current_best_block.hash to route
      → IsFollowed lib first s
      → IsFollowed lib first (enact number route s).1
  unfolding enact remove_header_until
  enact-IsFollowed number to route s r f =
      after_blocks (traverse (λ b. get_block_ext s.header_metadata b.hash) route.enacted) refl
    where
      after_blocks :
          (m : Exec (List BlockExt))
          → traverse (λ b. get_block_ext s.header_metadata b.hash) route.enacted ≡ m
          → IsFollowed lib first (enact number route s).1
      after_blocks (ok blocks) e = elim (Option-cases (last route.enacted)) [
        | inl nothing ↦ rw (e, nothing) f
        | inr (best, at_end) ↦
            let message : BlocksExt = record {
              blocks = blocks;
              maybe_reorg_data = reorg_data route;
            } in
            let sent : Listener = record s {
              current_best_block = best;
              sent = s.sent ++ message ∷ [];
            } in
            let continues =
              message-Continues lib faithful s.header_metadata s.current_best_block.hash to route
                blocks best r e at_end in
            rw (e, at_end)
              (keep_cache-IsFollowed lib first
                (Cache.remove_header_until (number - cache_header_depth) s.header_metadata) sent
                (λ cache removed.
                  remove_header_until-IsKeyed lib.hashing (number - cache_header_depth)
                    s.header_metadata cache f.keyed removed)
                (record {
                  keyed = f.keyed;
                  follows = Follows-snoc first s.sent f.follows continues;
                }))
      ]
      after_blocks (err x) e = rw e f
      after_blocks panic e = rw e f
      after_blocks running e = rw e f

  import_best-IsFollowed :
      (node : Node) (fuel : ℕ) (number : BlockNumber) (hash : BlockHash)
      → Keeps (IsFollowed lib first) (import_best lib node fuel number hash)
  unfolding import_best
  import_best-IsFollowed node fuel number hash = record {
    at = λ s f.
        let grown =
          (recursive_tree_route-Grows lib node fuel s.current_best_block.hash hash).at s in
        let (best, sent) = Grown-frame lib.hashing grown in
        let (r, t) = recursive_tree_route lib node fuel s.current_best_block.hash hash s in
        after_route s r t refl best (record {
          keyed = Grown-IsKeyed lib.hashing grown f.keyed;
          follows = rw (best, sent) f.follows;
        });
  }
    where
      after_route :
          (s : Listener) (r : Exec TreeRoute) (t : Listener)
          → recursive_tree_route lib node fuel s.current_best_block.hash hash s ≡ (r, t)
          → t.current_best_block ≡ s.current_best_block
          → IsFollowed lib first t
          → IsFollowed lib first
              (and_then
                (λ route. if is_empty route.enacted then pure tt else enact number route)
                r
                t).1
      after_route s (ok route) t e best f = elim (Bool-cases (is_empty route.enacted)) [
        | inl nothing ↦ rw nothing f
        | inr some_enacted ↦ rw some_enacted (
            enact-IsFollowed number hash route t
              (rw best (
                faithful.routes t.header_metadata s.current_best_block.hash hash route f.keyed
                  (route-computed lib node fuel s.current_best_block.hash hash s t route e)))
              f)
      ]
      after_route s (err x) t e best f = f
      after_route s panic t e best f = f
      after_route s running t e best f = f

  on_block-IsFollowed :
      (node : Node) (fuel : ℕ) (block : Block)
      → Keeps (IsFollowed lib first) (on_block lib node fuel block)
  unfolding on_block
  on_block-IsFollowed node fuel block =
      search (keeps_rules, add_header-IsFollowed, import_best-IsFollowed) depth 7

  listen_for_blocks-IsFollowed :
      (fuel : ℕ) (items : Items) → Keeps (IsFollowed lib first) (listen_for_blocks lib fuel items)
  listen_for_blocks-IsFollowed fuel items =
      listen_for_blocks-Keeps (IsFollowed lib first) lib on_block-IsFollowed fuel items

-- Whatever the subscription brings, and however the run of `listen_for_blocks` ends, the messages
-- that it broadcast lead without a gap from the first best block to the current one: the blocks of
-- each message are linked by their parents, they go on from the last best block, or from the common
-- block where the message reports a re-org, and they end at the next best block. This relies on
-- `tree_route` and the header source keeping their contract, and on a cache that at first has each
-- header under its hash, as the empty one.
pub listen_for_blocks-Follows :
    (lib : Library)
    → IsFaithful lib
    → (fuel : ℕ) (items : Items) (s : Listener) → IsKeyed lib.hashing s.header_metadata
    → s.sent ≡ []
    → Follows s.current_best_block.hash
        (listen_for_blocks lib fuel items s).1.sent
        (listen_for_blocks lib fuel items s).1.current_best_block.hash
listen_for_blocks-Follows lib faithful fuel items s keyed none_sent =
    ((listen_for_blocks-IsFollowed lib faithful s.current_best_block.hash fuel items).at s
      (record { keyed = keyed; follows = rw none_sent refl })).follows
