-- ===== src/Listener/Termination.antt =====
-- alerter/src/subspace.rs: the retries of `recursive_tree_route`, by the headers that a route may ask
-- for.
use subspace_chain_alerts.Base.{
  ℕ, zero, suc, ◌≤◌, ◌<◌, ◌≡◌, ◌≢◌, refl, ◌∙◌, ap, List, [], ◌∷◌, Option, none, some, true, get,
  get-insert, contains, length, nat_eq, arith, ◌⊎◌, inl, inr, Bool-cases, ◌==◌, ==_iff,
}
use subspace_chain_alerts.Error.{Exec, ok, err, panic, running, Error, done}
use subspace_chain_alerts.Chain.{BlockHash, Hashing, SubstrateHeader, Header}
use subspace_chain_alerts.Cache.{HeadersMetadataCache, convert, store, get_header}
use subspace_chain_alerts.Cache
use subspace_chain_alerts.Cache.Keyed.{IsKeyed, store-IsKeyed}
use subspace_chain_alerts.Listener.Actions.{Node, TreeRoute, Library, Listener, add_header}
use subspace_chain_alerts.Listener.Route.{
  fetch_header, or_retry, recursive_tree_route, header_metadata,
}

-- How many of some hashes have no header in the cache.
abbrev uncached_one : Option Header → ℕ → ℕ
uncached_one none n = suc n
uncached_one (some header) n = n

pub uncached : HeadersMetadataCache → List BlockHash → ℕ
uncached c [] = 0
uncached c (h ∷ hashes) = uncached_one (get h c.block_header_data) (uncached c hashes)

-- A cache whose headers stand under their hashes, and that has no other headers under the hashes of
-- some blocks than theirs.
pub record Fits (hashing : Hashing) (header_at : BlockHash → Header) (hashes : List BlockHash)
    (c : HeadersMetadataCache) : Type 0 where
  pub keyed : IsKeyed hashing c
  pub only :
      (h : BlockHash)
      → contains h hashes ≡ true
      → (get h c.block_header_data ≡ none) ⊎ (get h c.block_header_data ≡ some (header_at h))

-- The blocks that a route between two blocks can ask for (they, and their parents up to the common
-- block), with their headers, and what is relied on, on caches that fit these: `tree_route` only passes
-- on errors of the header source, and asks it for these blocks only; it comes to an end and does not
-- panic. The node knows their headers, each under its hash.
pub record Supplied (lib : Library) (node : Node) (from to : BlockHash)
    (header_at : BlockHash → Header) (hashes : List BlockHash) : Type 0 where
  pub passes_on :
      (c : HeadersMetadataCache) (e : Error)
      → Fits lib.hashing header_at hashes c
      → lib.tree_route (header_metadata lib c) from to ≡ err e
      → (h : BlockHash) × (contains h hashes ≡ true) × (header_metadata lib c h ≡ err e)
  pub no_panic :
      (c : HeadersMetadataCache)
      → Fits lib.hashing header_at hashes c
      → lib.tree_route (header_metadata lib c) from to ≢ panic
  pub ends :
      (c : HeadersMetadataCache)
      → Fits lib.hashing header_at hashes c
      → lib.tree_route (header_metadata lib c) from to ≢ running
  pub known :
      (h : BlockHash)
      → contains h hashes ≡ true
      → (header : SubstrateHeader) × (node.chain_get_header h ≡ done (some header))
        × (convert lib.hashing header ≡ ok (header_at h))
        × (lib.hashing.hash (header_at h) ≡ h)

-- Caching the header of one of the blocks leaves a cache that fits.
pub store-Fits :
    (hashing : Hashing) (header_at : BlockHash → Header) (hashes : List BlockHash)
    → (c : HeadersMetadataCache) (k : BlockHash) → hashing.hash (header_at k) ≡ k
    → Fits hashing header_at hashes c
    → Fits hashing header_at hashes (store hashing (header_at k) c)
store-Fits hashing header_at hashes c k hashed f = record {
  keyed = store-IsKeyed hashing (header_at k) c f.keyed;
  only = λ h member. elim (Bool-cases (k == h)) [
    | inl same ↦ inr (
        unfold store in
        rw
          (
            get-insert (hashing.hash (header_at k)) h (header_at k) c.block_header_data,
            hashed,
            same,
          )
          (ap (λ x. some (header_at x)) ((==_iff k h).0 same)))
    | inr other ↦
        unfold store in
        rw
          (
            get-insert (hashing.hash (header_at k)) h (header_at k) c.block_header_data,
            hashed,
            other,
          )
          (f.only h member)
  ];
}

-- Caching one of the missing headers leaves fewer of them.
uncached-store-le :
    (hashing : Hashing) (header : Header) (c : HeadersMetadataCache) (hashes : List BlockHash)
    → uncached (store hashing header c) hashes ≤ uncached c hashes
unfolding uncached store
uncached-store-le hashing header c [] = omega arith
uncached-store-le hashing header c (h ∷ hashes) = ground (
  arith,
  get-insert (hashing.hash header) h header c.block_header_data,
  uncached-store-le hashing header c hashes,
)

uncached-store-lt :
    (hashing : Hashing) (header : Header) (c : HeadersMetadataCache) (hashes : List BlockHash)
    → contains (hashing.hash header) hashes ≡ true
    → get (hashing.hash header) c.block_header_data ≡ none
    → uncached (store hashing header c) hashes < uncached c hashes
unfolding uncached store contains
uncached-store-lt hashing header c [] m absent = ground arith
uncached-store-lt hashing header c (h ∷ hashes) m absent = ground (
  arith,
  get-insert (hashing.hash header) h header c.block_header_data,
  uncached-store-le hashing header c hashes,
  uncached-store-lt hashing header c hashes,
)

uncached-le-length :
    (c : HeadersMetadataCache) (hashes : List BlockHash) → uncached c hashes ≤ length hashes
unfolding uncached
uncached-le-length c [] = omega arith
uncached-le-length c (h ∷ hashes) = ground (arith, uncached-le-length c hashes)

-- The header source fails only for a hash that is not cached, and names it.
header_metadata-err :
    (lib : Library) (c : HeadersMetadataCache) (h : BlockHash) (e : Error)
    → header_metadata lib c h ≡ err e
    → (e ≡ Error.missing_block_hash_from_cache h) × (get h c.block_header_data ≡ none)
unfolding header_metadata get_header
header_metadata-err lib c h e p = ground arith

-- Fetching a header that the node knows caches it.
fetch_header-known :
    (lib : Library) (node : Node) (h : BlockHash) (s : Listener)
    → (header : SubstrateHeader) (converted : Header) → node.chain_get_header h ≡ done (some header)
    → convert lib.hashing header ≡ ok converted
    → fetch_header lib node h s ≡ (
      ok (lib.hashing.hash converted),
      record s { header_metadata = store lib.hashing converted s.header_metadata },
    )
unfolding fetch_header add_header Cache.add_header
fetch_header-known lib node h s header converted p q = rw (p, q)

-- A round that lacks a known header goes on with that header cached.
recursive_tree_route-retry :
    (lib : Library) (node : Node) (fuel : ℕ) (from to h : BlockHash) (s : Listener)
    → (header : SubstrateHeader) (converted : Header)
    → lib.tree_route (header_metadata lib s.header_metadata) from to
      ≡ err (Error.missing_block_hash_from_cache h)
    → node.chain_get_header h ≡ done (some header)
    → convert lib.hashing header ≡ ok converted
    → recursive_tree_route lib node (suc fuel) from to s
      ≡ recursive_tree_route lib node fuel from to
          (record s { header_metadata = store lib.hashing converted s.header_metadata })
unfolding recursive_tree_route or_retry
recursive_tree_route-retry lib node fuel from to h s header converted e p q =
    rw (e, fetch_header-known lib node h s header converted p q)

recursive_tree_route-ok :
    (lib : Library) (node : Node) (fuel : ℕ) (from to : BlockHash) (s : Listener)
    → (route : TreeRoute)
    → lib.tree_route (header_metadata lib s.header_metadata) from to ≡ ok route
    → recursive_tree_route lib node (suc fuel) from to s ≡ (ok route, s)
unfolding recursive_tree_route or_retry
recursive_tree_route-ok lib node fuel from to s route e = rw e

-- The search came to a route, and it is the route over the cache that the search left.
pub record Routed (lib : Library) (from to : BlockHash) (result : Exec TreeRoute × Listener)
    : Type 0 where
  pub route : TreeRoute
  pub returned : result.0 ≡ ok route
  pub computed : lib.tree_route (header_metadata lib result.1.header_metadata) from to ≡ ok route

module _ (lib : Library) (node : Node) (from to : BlockHash) (header_at : BlockHash → Header)
    (hashes : List BlockHash) (supplied : Supplied lib node from to header_at hashes) where
  Routed-from :
      (fuel : ℕ) (s : Listener)
      → Fits lib.hashing header_at hashes s.header_metadata
      → uncached s.header_metadata hashes < fuel
      → Routed lib from to (recursive_tree_route lib node fuel from to s)
  Routed-from zero s fits h = absurd (omega arith)
  Routed-from (suc fuel) s fits h =
      by_result (lib.tree_route (header_metadata lib s.header_metadata) from to) refl
        (λ t fits' h'. Routed-from fuel t fits' h')
    where
      by_result :
          (r : Exec TreeRoute)
          → lib.tree_route (header_metadata lib s.header_metadata) from to ≡ r
          → ((t : Listener)
              → Fits lib.hashing header_at hashes t.header_metadata
              → uncached t.header_metadata hashes < fuel
              → Routed lib from to (recursive_tree_route lib node fuel from to t))
          → Routed lib from to (recursive_tree_route lib node (suc fuel) from to s)
      by_result (ok route) e again =
          rw (recursive_tree_route-ok lib node fuel from to s route e)
            (record { route = route; returned = refl; computed = e })
      by_result (err x) e again =
          let (h', member, source) = supplied.passes_on s.header_metadata x fits e in
          let (names, absent) = header_metadata-err lib s.header_metadata h' x source in
          let (header, answered, convert_ok, hashed) = supplied.known h' member in
          let converted = header_at h' in
          rw
            (recursive_tree_route-retry lib node fuel from to h' s header converted
              (e ∙ ap err names) answered convert_ok)
            (again (record s { header_metadata = store lib.hashing converted s.header_metadata })
              (store-Fits lib.hashing header_at hashes s.header_metadata h' hashed fits)
              (omega (
                arith,
                uncached-store-lt lib.hashing converted s.header_metadata hashes (rw hashed member)
                    (rw hashed absent),
              )))
      by_result panic e again = absurd (supplied.no_panic s.header_metadata fits e)
      by_result running e again = absurd (supplied.ends s.header_metadata fits e)

  -- If the node knows the blocks that a route may ask for, and the cache has no other headers under
  -- their hashes, and `tree_route` on such caches comes to an end, asks for these blocks only and passes
  -- on the errors of the header source, then with fuel for each of them the search returns the route
  -- over the cache that it has filled.
  pub recursive_tree_route-Routed :
      (fuel : ℕ) (s : Listener)
      → Fits lib.hashing header_at hashes s.header_metadata
      → length hashes < fuel
      → Routed lib from to (recursive_tree_route lib node fuel from to s)
  recursive_tree_route-Routed fuel s fits h =
      Routed-from fuel s fits (omega (arith, uncached-le-length s.header_metadata hashes))
