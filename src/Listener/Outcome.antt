-- ===== src/Listener/Outcome.antt =====
-- alerter/src/subspace.rs: what one block of the subscription does to the best block and the broadcast
-- channel.
use mathlib.Core.List.{reverse-cons}
use subspace_chain_alerts.Base.{
  ℕ, ◌-◌, ◌≡◌, refl, List, [], ◌∷◌, ◌++◌, map, Option, none, some, Bool, true, false, last, init,
  reverse, ap, last-snoc, is_empty, if◌then◌else◌, arith, ◌⊎◌, inl, inr, ◌==◌, not, ◌∙◌,
}
use subspace_chain_alerts.Error.{Exec, ok, err, panic, running, traverse, expect, assert, expect-ok}
use subspace_chain_alerts.Chain.{
  BlockHash, BlockNumber, HashAndNumber, ReorgData, BlockExt, BlocksExt, cache_header_depth,
}
use subspace_chain_alerts.Cache
use subspace_chain_alerts.Cache.{HeadersMetadataCache, get_header}
use subspace_chain_alerts.Cache.Keyed.{IsKeyed}
use subspace_chain_alerts.Listener.Actions.{
  Node, TreeRoute, HeaderMetadata, Library, Listener, Action, pure, add_header, remove_header_until,
  keep_cache,
}
use subspace_chain_alerts.Listener.Route.{header_metadata, recursive_tree_route}
use subspace_chain_alerts.Listener.Import.{
  Block, get_block_ext, reorg_data, enact, import_best, on_block, is_canonical_block,
}
use subspace_chain_alerts.Listener.Growth.{
  Grown-frame, Grown-IsKeyed, add_header-Grown, recursive_tree_route-Grows,
}
use subspace_chain_alerts.Listener.Broadcast.{
  IsFaithful, IsRoute, Linked, Chained, anchor, traverse-Chained, message-Continues,
}
use subspace_chain_alerts.Listener.Delivery.{and_then-ok, route-computed}

-- `s'` has the best block and the messages of `s`.
abbrev pub Quiet : Listener → Listener → Type 0
Quiet s s' = (s'.current_best_block ≡ s.current_best_block) × (s'.sent ≡ s.sent)

-- What a message says of the change of the best block from `from` to `best`: no re-org, and its blocks go
-- on from `from`; or a re-org, whose retracted blocks lead, oldest first, from the common block to `from`,
-- whose enacted blocks are those of the message without `best`, and the message's blocks go on from the
-- common block. `source` is where the headers come from.
pub data Tells (source : BlockHash → Exec HeaderMetadata) (from : BlockHash)
    (blocks : List BlockExt) (best : HashAndNumber) : Option ReorgData → Type 0 where
  goes_on : Chained from blocks → Tells source from blocks best none
  reorgs :
      (r : ReorgData) (old : HashAndNumber)
      → Linked source r.common_block.hash r.retracted
      → last r.retracted ≡ some old
      → old.hash ≡ from
      → Chained r.common_block.hash blocks
      → map (λ b. b.hash) blocks ≡ map (λ b. b.hash) (r.enacted ++ best ∷ [])
      → Tells source from blocks best (some r)

-- One message more: its blocks are the enacted blocks of the route from the old best block that
-- `tree_route` finds in the headers of a cache, and the last of them is the new best block.
pub record Announced (lib : Library) (hash : BlockHash) (s s' : Listener) : Type 0 where
  pub route : TreeRoute
  pub cache : HeadersMetadataCache
  pub keyed : IsKeyed lib.hashing cache
  pub computed :
      lib.tree_route (header_metadata lib cache) s.current_best_block.hash hash ≡ ok route
  pub message : BlocksExt
  pub sent : s'.sent ≡ s.sent ++ message ∷ []
  pub blocks : map (λ b. b.hash) message.blocks ≡ map (λ b. b.hash) route.enacted
  pub told :
      Tells
        (header_metadata lib cache)
        s.current_best_block.hash
        message.blocks
        s'.current_best_block
        message.maybe_reorg_data
  pub best : last route.enacted ≡ some s'.current_best_block
  pub tip : s'.current_best_block.hash ≡ hash

init-last {ℓ} : {A : Type ℓ} (xs : List A) {x : A} → last xs ≡ some x → xs ≡ init xs ++ x ∷ []
init-last [] e = absurd (ground arith)
init-last (x ∷ []) e = ground arith
init-last (x ∷ y ∷ xs) e = ap (λ l. x ∷ l) (init-last (y ∷ xs) e)

-- The message that `enact` sends tells of the route.
reorg_data-Tells :
    (source : BlockHash → Exec HeaderMetadata) (from to : BlockHash) (route : TreeRoute)
    → (blocks : List BlockExt) (best : HashAndNumber) → IsRoute source from to route
    → last route.enacted ≡ some best
    → map (λ b. b.hash) blocks ≡ map (λ b. b.hash) route.enacted
    → Chained (anchor from (reorg_data route)) blocks
    → Tells source from blocks best (reorg_data route)
reorg_data-Tells source from to route blocks best r at_end hashes chained =
    by_retracted route.retracted refl
  where
    by_retracted :
        (retracted : List HashAndNumber)
        → route.retracted ≡ retracted
        → Tells source from blocks best (reorg_data route)
    by_retracted [] e = rw e (goes_on (rw e at chained))
    by_retracted (b ∷ bs) e = rw e (
        reorgs
          (record {
            enacted = init route.enacted;
            retracted = reverse (b ∷ bs);
            common_block = route.common_block;
          })
          b (rw e at r.back) (rw (reverse-cons b bs) (last-snoc (reverse bs) b))
          (r.starts_at b bs e) (rw e at chained)
          (hashes
            ∙ ap (λ l. map (λ (b : HashAndNumber). b.hash) l) (init-last route.enacted at_end)))

keep_cache-Quiet :
    (m : Exec HeadersMetadataCache) (s s' : Listener) → keep_cache m s ≡ (ok tt, s') → Quiet s s'
keep_cache-Quiet (ok cache) s s' e = ground arith
keep_cache-Quiet (err x) s s' e = ground arith
keep_cache-Quiet panic s s' e = ground arith
keep_cache-Quiet running s s' e = ground arith

enact-Announced :
    (lib : Library)
    → IsFaithful lib
    → (number : BlockNumber) (hash : BlockHash) (route : TreeRoute) (s s' : Listener)
    → IsKeyed lib.hashing s.header_metadata
    → IsRoute (header_metadata lib s.header_metadata) s.current_best_block.hash hash route
    → lib.tree_route (header_metadata lib s.header_metadata) s.current_best_block.hash hash
      ≡ ok route
    → enact number route s ≡ (ok tt, s')
    → Announced lib hash s s'
unfolding enact remove_header_until
enact-Announced lib faithful number hash route s s' keyed is_route computed e =
    let source = header_metadata lib s.header_metadata in
    let from = s.current_best_block.hash in
    let (blocks, got, e') =
      and_then-ok _ (traverse (λ b. get_block_ext s.header_metadata b.hash) route.enacted) s s' e in
    let (best, popped, e'') = and_then-ok _ (expect (last route.enacted)) s s' e' in
    let at_end = expect-ok (last route.enacted) popped in
    let message : BlocksExt = record { blocks = blocks; maybe_reorg_data = reorg_data route } in
    let told : Listener = record s { current_best_block = best; sent = s.sent ++ message ∷ [] } in
    let (same_best, same_sent) =
      keep_cache-Quiet (Cache.remove_header_until (number - cache_header_depth) s.header_metadata)
        told s' e'' in
    let (linked, hashes) =
      traverse-Chained lib faithful s.header_metadata route.common_block.hash route.enacted blocks
        is_route.linked got in
    let continues =
      message-Continues lib faithful s.header_metadata from hash route blocks best is_route got
        at_end in
    record {
      route = route;
      cache = s.header_metadata;
      keyed = keyed;
      computed = computed;
      message = message;
      sent = same_sent;
      blocks = hashes;
      told = rw same_best (
          reorg_data-Tells source from hash route blocks best is_route at_end hashes
            continues.chained);
      best = rw same_best at_end;
      tip = rw same_best (is_route.ends_at best at_end);
    }

if-ok :
    (b : Bool) (m : Action (Unit {0})) (t s' : Listener)
    → (if b then pure tt else m) t ≡ (ok tt, s')
    → (s' ≡ t) ⊎ (m t ≡ (ok tt, s'))
if-ok true m t s' e = inl (ground arith)
if-ok false m t s' e = inr e

if-not :
    (b : Bool) (m : Action (Unit {0})) (t s' : Listener)
    → (if b then m else pure tt) t ≡ (ok tt, s')
    → (if not b then pure tt else m) t ≡ (ok tt, s')
if-not true m t s' e = e
if-not false m t s' e = e

Announced-of_sent :
    (lib : Library) (hash : BlockHash) (s t s' : Listener)
    → t.current_best_block ≡ s.current_best_block
    → t.sent ≡ s.sent
    → Announced lib hash t s'
    → Announced lib hash s s'
Announced-of_sent lib hash s t s' same e a = record {
  route = a.route;
  cache = a.cache;
  keyed = a.keyed;
  computed = rw same at a.computed;
  message = a.message;
  sent = rw e at a.sent;
  blocks = a.blocks;
  told = rw same at a.told;
  best = a.best;
  tip = a.tip;
}

module _ (lib : Library) (faithful : IsFaithful lib) (node : Node) (fuel : ℕ) where
  import_best-Announced :
      (number : BlockNumber) (hash : BlockHash) (s s' : Listener)
      → IsKeyed lib.hashing s.header_metadata
      → import_best lib node fuel number hash s ≡ (ok tt, s')
      → Quiet s s' ⊎ Announced lib hash s s'
  unfolding import_best
  import_best-Announced number hash s s' keyed e =
      let from = s.current_best_block.hash in
      let (r, t) = recursive_tree_route lib node fuel from hash s in
      let grown = (recursive_tree_route-Grows lib node fuel from hash).at s in
      let (best, sent) = Grown-frame lib.hashing grown in
      let (route, routed, e') = and_then-ok _ r t s' e in
      let found = route-computed lib node fuel from hash s t route (ground (arith, routed)) in
      let is_route =
        faithful.routes t.header_metadata from hash route (Grown-IsKeyed lib.hashing grown keyed)
          found in
      elim (if-ok (is_empty route.enacted) (enact number route) t s' e') [
        | inl unchanged ↦ inl (rw unchanged (best, sent))
        | inr enacts ↦ inr (
            Announced-of_sent lib hash s t s' best sent (
              enact-Announced lib faithful number hash route t s'
                (Grown-IsKeyed lib.hashing grown keyed) (rw best is_route) (rw best found) enacts))
      ]

  -- A block that is handled to the end leaves the best block and the messages as they were, or it
  -- becomes the best block and one message is sent: its blocks are the enacted blocks of the route, in
  -- order, the last of them the new best block. Without a re-org they go on from the old best block.
  -- With one they go on from the common block that the message reports, its retracted blocks lead from
  -- there to the old best block, and its enacted blocks are the message's blocks but for the best one.
  -- The route is what `tree_route`, which keeps its contract on caches with each header under its hash,
  -- as this one is at first, finds from the old best block to this one.
  pub on_block-outcome :
      (block : Block) (s s' : Listener)
      → IsKeyed lib.hashing s.header_metadata
      → on_block lib node fuel block s ≡ (ok tt, s')
      → Quiet s s' ⊎ Announced lib block.hash s s'
  unfolding on_block
  on_block-outcome block s s' keyed e =
      let (h, t) = add_header lib.hashing block.header s in
      let grown = add_header-Grown lib.hashing block.header s in
      let (best, sent) = Grown-frame lib.hashing grown in
      let (added, added_ok, e1) = and_then-ok _ h t s' e in
      let (checked, checked_ok, e2) = and_then-ok _ (assert (added == block.hash)) t s' e1 in
      let (canonical, canonical_ok, e3) =
        and_then-ok _ (is_canonical_block node block.header.number block.hash) t s' e2 in
      elim (if-ok (not canonical) (import_best lib node fuel block.header.number block.hash) t s'
        (if-not canonical _ t s' e3)) [
          | inl unchanged ↦ inl (rw unchanged (best, sent))
          | inr imports ↦
              elim (import_best-Announced block.header.number block.hash t s'
                (Grown-IsKeyed lib.hashing grown keyed) imports) [
                  | inl quiet ↦ inl (quiet.0 ∙ best, quiet.1 ∙ sent)
                  | inr announced ↦
                      inr (Announced-of_sent lib block.hash s t s' best sent announced)
                ]
        ]
