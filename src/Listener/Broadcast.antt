-- ===== src/Listener/Broadcast.antt =====
-- alerter/src/subspace.rs: what a message says of the chain, and the contract of the header source.
use subspace_chain_alerts.Base.{
  ◌≡◌, refl, sym, inl, inr, List, [], ◌∷◌, ◌++◌, map, Option, none, some, last, reverse, get, arith,
  nat_eq, Option-cases,
}
use subspace_chain_alerts.Error.{Exec, ok, err, panic, running, Error, traverse, >>=-eq-ok}
use subspace_chain_alerts.Error
use subspace_chain_alerts.Chain.{BlockHash, Header, HashAndNumber, BlockExt, ReorgData, BlocksExt}
use subspace_chain_alerts.Cache.{HeadersMetadataCache, get_header}
use subspace_chain_alerts.Cache.Keyed.{IsKeyed}
use subspace_chain_alerts.Listener.Actions.{HeaderMetadata, TreeRoute, Library}
use subspace_chain_alerts.Listener.Route.{header_metadata}
use subspace_chain_alerts.Listener.Import.{get_block_ext, reorg_data}

-- Each block's parent is the one before it, the first one's is `from`.
abbrev pub Chained : BlockHash → List BlockExt → Type 0
Chained from [] = Unit {0}
Chained from (b ∷ blocks) = (b.parent_hash ≡ from) × Chained b.hash blocks

-- The same of a route, by what the header source says of each block.
abbrev pub Linked : (BlockHash → Exec HeaderMetadata) → BlockHash → List HashAndNumber → Type 0
Linked source from [] = Unit {0}
Linked source from (b ∷ route) =
    ((metadata : HeaderMetadata) × (source b.hash ≡ ok metadata) × (metadata.parent ≡ from))
    × Linked source b.hash route

-- What the documentation of `tree_route` says of its result.
pub record IsRoute (source : BlockHash → Exec HeaderMetadata) (from to : BlockHash)
    (route : TreeRoute) : Type 0 where
  pub linked : Linked source route.common_block.hash route.enacted
  pub ends_at : (b : HashAndNumber) → last route.enacted ≡ some b → b.hash ≡ to
  pub straight : route.retracted ≡ [] → route.common_block.hash ≡ from
  pub starts_at :
      (b : HashAndNumber) (bs : List HashAndNumber) → route.retracted ≡ b ∷ bs → b.hash ≡ from
  pub back : Linked source route.common_block.hash (reverse route.retracted)

-- The contract of the header source and of `tree_route`, on caches whose headers stand under their
-- hashes.
pub record IsFaithful (lib : Library) : Type 0 where
  pub parent_of : (header : Header) → (lib.metadata header).parent ≡ header.parent_hash
  pub routes :
      (c : HeadersMetadataCache) (from to : BlockHash) (route : TreeRoute)
      → IsKeyed lib.hashing c
      → lib.tree_route (header_metadata lib c) from to ≡ ok route
      → IsRoute (header_metadata lib c) from to route

-- The hash from which the blocks of a message go on.
abbrev pub anchor : BlockHash → Option ReorgData → BlockHash
anchor best none = best
anchor best (some reorg) = reorg.common_block.hash

-- A message takes a subscriber from the best block `from` to the best block `to`.
pub record Continues (from : BlockHash) (message : BlocksExt) (to : BlockHash) : Type 0 where
  pub chained : Chained (anchor from message.maybe_reorg_data) message.blocks
  pub tip : (b : BlockExt) × (last message.blocks ≡ some b) × (b.hash ≡ to)

-- What is broadcast of a block is what the header source says of it.
get_block_ext-metadata :
    (lib : Library)
    → IsFaithful lib
    → (c : HeadersMetadataCache) (h : BlockHash) (block : BlockExt) (metadata : HeaderMetadata)
    → get_block_ext c h ≡ ok block
    → header_metadata lib c h ≡ ok metadata
    → (block.hash ≡ h) × (block.parent_hash ≡ metadata.parent)
unfolding get_block_ext header_metadata get_header
get_block_ext-metadata lib f c h block metadata e m =
    elim (Option-cases (get h c.block_header_data)) [
      | inl absent ↦ ground arith
      | inr (header, found) ↦ ground (arith, f.parent_of header)
    ]

pub traverse-Chained :
    (lib : Library)
    → IsFaithful lib
    → (c : HeadersMetadataCache) (from : BlockHash) (route : List HashAndNumber)
    → (blocks : List BlockExt) → Linked (header_metadata lib c) from route
    → traverse (λ b. get_block_ext c b.hash) route ≡ ok blocks
    → Chained from blocks × (map (λ b. b.hash) blocks ≡ map (λ b. b.hash) route)
unfolding traverse
traverse-Chained lib f c from [] [] l e = (tt, refl)
traverse-Chained lib f c from [] (x ∷ blocks) l e = ground arith
traverse-Chained lib f c from (b ∷ route) blocks ((metadata, known, parent), l) e =
    let (block, got, e') =
      >>=-eq-ok (get_block_ext c b.hash)
        (λ y. Error.◌>>=◌ (traverse (λ b. get_block_ext c b.hash) route) λ ys. ok (y ∷ ys)) e in
    let (others, got_others, e'') =
      >>=-eq-ok (traverse (λ b. get_block_ext c b.hash) route) (λ ys. ok (block ∷ ys)) e' in
    let (hashed, its_parent) = get_block_ext-metadata lib f c b.hash block metadata got known in
    let (chained, hashes) = traverse-Chained lib f c b.hash route others l got_others in
    let whole : blocks ≡ block ∷ others = ground arith in
    rw (whole, hashed, its_parent, hashes) ((parent, chained), refl)

-- The messages, one after the other, take a subscriber from the best block `from` to `to`.
abbrev pub Follows : BlockHash → List BlocksExt → BlockHash → Type 0
Follows from [] to = from ≡ to
Follows from (message ∷ messages) to =
    (next : BlockHash) × Continues from message next × Follows next messages to

pub Follows-snoc :
    (from : BlockHash) (messages : List BlocksExt) {mid to : BlockHash} {message : BlocksExt}
    → Follows from messages mid
    → Continues mid message to
    → Follows from (messages ++ message ∷ []) to
Follows-snoc from [] {to} f c = (to, rw f c, refl)
Follows-snoc from (m ∷ messages) (next, first, rest) c =
    (next, first, Follows-snoc next messages rest c)

-- The anchor of the message is the common block of the route.
reorg_data-anchor :
    (source : BlockHash → Exec HeaderMetadata) (from to : BlockHash) (route : TreeRoute)
    → IsRoute source from to route
    → anchor from (reorg_data route) ≡ route.common_block.hash
reorg_data-anchor source from to route r = by_retracted route.retracted refl
  where
    by_retracted :
        (retracted : List HashAndNumber)
        → route.retracted ≡ retracted
        → anchor from (reorg_data route) ≡ route.common_block.hash
    by_retracted [] e = rw e (sym (r.straight e))
    by_retracted (b ∷ bs) e = rw e

-- Lists with the same hashes end at the same hash.
last_hash :
    (blocks : List BlockExt) (route : List HashAndNumber) {best : HashAndNumber}
    → map (λ (b : BlockExt). b.hash) blocks ≡ map (λ (b : HashAndNumber). b.hash) route
    → last route ≡ some best
    → (b : BlockExt) × (last blocks ≡ some b) × (b.hash ≡ best.hash)
last_hash (x ∷ []) (b ∷ []) e h = (x, refl, ground arith)
last_hash (x ∷ y ∷ blocks) (b ∷ b' ∷ route) e h =
    last_hash (y ∷ blocks) (b' ∷ route) (ground arith) h
last_hash [] [] e h = absurd (ground arith)
last_hash [] (b ∷ route) e h = absurd (ground arith)
last_hash _ _ e h = absurd (ground arith)

module _ (lib : Library) (faithful : IsFaithful lib) where
  -- The message that `enact` sends leads to the block at which the route ends.
  pub message-Continues :
      (c : HeadersMetadataCache) (from to : BlockHash) (route : TreeRoute)
      → (blocks : List BlockExt) (best : HashAndNumber)
      → IsRoute (header_metadata lib c) from to route
      → traverse (λ b. get_block_ext c b.hash) route.enacted ≡ ok blocks
      → last route.enacted ≡ some best
      → Continues from (record { blocks = blocks; maybe_reorg_data = reorg_data route }) best.hash
  message-Continues c from to route blocks best r got at_end =
      let (chained, hashes) =
        traverse-Chained lib faithful c route.common_block.hash route.enacted blocks r.linked got in
      record {
        chained = rw (reorg_data-anchor (header_metadata lib c) from to route r) chained;
        tip = last_hash blocks route.enacted hashes at_end;
      }
