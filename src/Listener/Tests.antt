-- ===== src/Listener/Tests.antt =====
-- The listener on a small chain: a new best block, a re-org to its sibling, an ignored fork block,
-- and the search for a missing header.
mod Forks
mod Orders
use subspace_chain_alerts.Base.{
  ℕ, ◌≡◌, ◌≢◌, refl, sym, List, [], ◌∷◌, none, some, arith, map, get, insert, remove, contains,
  set_insert, nat_eq, ◌⊎◌, inl, inr, Option-cases, if◌then◌else◌, ◌==◌,
}
use subspace_chain_alerts.Error.{Exec, ok, err, panic, running, Error, traverse, from, done}
use subspace_chain_alerts.Chain.{BlockExt, BlocksExt, SubstrateHeader, Header}
use subspace_chain_alerts.Cache.{
  HeadersMetadataCache, empty, store, convert, remove_all, drop_height, remove_loop, get_header,
}
use subspace_chain_alerts.Cache
use subspace_chain_alerts.Cache.Keyed.{IsKeyed}
use subspace_chain_alerts.Cache.Consistency.{IsConsistent, empty-IsConsistent}
use subspace_chain_alerts.Listener.Actions.{
  Node, TreeRoute, Listener, add_header, remove_header_until,
}
use subspace_chain_alerts.Listener.Route.{
  header_metadata, fetch_header, or_retry, recursive_tree_route,
}
use subspace_chain_alerts.Listener.Import.{
  is_canonical_block, get_block_ext, enact, import_best, on_block,
}
use subspace_chain_alerts.Listener.Sessions.{
  Items, arrived, ended, Session, next_block, listen_for_blocks, first_canonical, header_of,
  header_at, add_headers, load_header_metadata_cache, reconnect, listened, listen_for_all_blocks,
}
use subspace_chain_alerts.Listener.Keeps.{listen_for_all_blocks-IsConsistent}
use subspace_chain_alerts.Listener.Termination.{Fits, Supplied, Routed, recursive_tree_route-Routed}
use subspace_chain_alerts.Listener.Broadcast.{Follows}
use subspace_chain_alerts.Listener.Progress.{on_block-Announced}
use subspace_chain_alerts.Listener.Delivery.{listen_for_blocks-Follows}
use subspace_chain_alerts.Listener.Outcome.{Quiet, Announced, on_block-outcome}
use subspace_chain_alerts.Listener.Fixture.{
  hashing, hashing-NoCollision, lib, lib-IsFaithful, header, block, node, start,
}

unfoldable pub program : Unit {0}
unfolding get insert remove contains set_insert store convert Cache.add_header remove_all
    drop_height remove_loop Cache.remove_header_until get_header add_header remove_header_until
    header_metadata fetch_header or_retry recursive_tree_route is_canonical_block get_block_ext
    enact import_best on_block next_block listen_for_blocks traverse first_canonical header_of
    header_at add_headers load_header_metadata_cache reconnect listened listen_for_all_blocks from
program = tt

abbrev pub any_header : SubstrateHeader
any_header = header 0 1 0

-- Block 2001 becomes the best block, 2002 is a fork, and at 2003 the chain has moved to 2003.
abbrev items : Items
items =
    (node 2001 any_header, arrived (block 1000 2 1))
    ∷ (node 2001 any_header, arrived (block 1000 2 2))
    ∷ (node 2003 any_header, arrived (block 1000 2 3))
    ∷ (node 2003 any_header, ended)
    ∷ []

abbrev after : Exec (Unit {0}) × Listener
after = listen_for_blocks lib 5 items start

messages :
    (map (λ (m : BlocksExt). map (λ (b : BlockExt). b.hash) m.blocks) after.1.sent
      ≡ (2001 ∷ []) ∷ (2003 ∷ []) ∷ [])
    × (after.1.current_best_block.hash ≡ 2003)
    × (after.0 ≡ err Error.missing_block)
unfolding program
messages = (refl, refl, refl)

start-IsKeyed : IsKeyed hashing start.header_metadata
unfolding program
start-IsKeyed = record { keyed = λ h header e. ground arith }

listen_for_blocks-Follows_example :
    Follows 1000
      (listen_for_blocks lib 5 items start).1.sent
      (listen_for_blocks lib 5 items start).1.current_best_block.hash
listen_for_blocks-Follows_example =
    listen_for_blocks-Follows lib lib-IsFaithful 5 items start start-IsKeyed refl

abbrev after_one : Listener
after_one = (on_block lib (node 2001 any_header) 5 (block 1000 2 1) start).1

on_block-outcome_example : Quiet start after_one ⊎ Announced lib 2001 start after_one
unfolding program
on_block-outcome_example =
    on_block-outcome lib lib-IsFaithful (node 2001 any_header) 5 (block 1000 2 1) start after_one
      start-IsKeyed refl

-- Session one loads the chain up to block 1000 and loses its node; session two ends at once.
abbrev lost : Items
lost = (node 1000 (header 0 1 0), arrived (block 0 1 0)) ∷ (node 1000 any_header, ended) ∷ []

abbrev pub fresh : Listener
fresh = record start { header_metadata = empty }

abbrev sessions : List Session
sessions = record { subscribed = done tt; items = lost } ∷ []

listen_for_all_blocks-IsConsistent_example :
    IsConsistent hashing (listen_for_all_blocks lib 5 sessions fresh).1.header_metadata
listen_for_all_blocks-IsConsistent_example =
    listen_for_all_blocks-IsConsistent lib hashing-NoCollision 5 sessions fresh
      (empty-IsConsistent hashing)

-- The session loads the chain up to block 1000, handles 2001, and ends.
abbrev lost_later : Items
lost_later =
    (node 1000 (header 0 1 0), arrived (block 0 1 0))
    ∷ (node 2001 any_header, arrived (block 1000 2 1))
    ∷ (node 2001 any_header, ended)
    ∷ []

abbrev loaded : Listener
loaded = record (load_header_metadata_cache lib lost_later fresh).1 {
  current_best_block = record { number = 1; hash = 1000 };
}

-- A node that knows the headers of 1000 and 2001, its best block.
abbrev two_headers : Node
two_headers = record {
  chain_get_block_hash = λ n. done (some 2001);
  chain_get_header = λ h. done (some (if h == 1000 then header 0 1 0 else header 1000 2 1));
}

abbrev pub cached : ℕ → ℕ → ℕ → Header
cached parent number root = record {
  parent_hash = parent;
  number = number;
  state_root = root;
  extrinsics_root = 0;
  digest = [];
}

abbrev known_header : ℕ → Header
known_header h = if h == 1000 then cached 0 1 0 else cached 1000 2 1

two_headers-Supplied : Supplied lib two_headers 1000 2001 known_header (1000 ∷ 2001 ∷ [])
unfolding program header_metadata
two_headers-Supplied = record {
  passes_on = λ c e fits h. elim (Option-cases (get 1000 c.block_header_data)) [
    | inl absent ↦ (1000, refl, ground arith)
    | inr (old, found) ↦ elim (fits.only 2001 refl) [
      | inl absent ↦ (2001, refl, ground arith)
      | inr known ↦ absurd (let g = rw (found, known, found) at h in ground arith)
    ]
  ];
  no_panic = λ c fits h. no_other c panic fits (λ e k. ground arith) (λ r k. ground arith) h;
  ends = λ c fits h. no_other c running fits (λ e k. ground arith) (λ r k. ground arith) h;
  known = λ h member.
      (if h == 1000 then header 0 1 0 else header 1000 2 1, refl, ground arith, ground arith);
}
  where
    no_other :
        (c : HeadersMetadataCache) (m : Exec TreeRoute)
        → Fits hashing known_header (1000 ∷ 2001 ∷ []) c
        → ((e : Error) → m ≢ err e)
        → ((r : TreeRoute) → m ≢ ok r)
        → lib.tree_route (header_metadata lib c) 1000 2001 ≢ m
    no_other c m fits not_err not_ok h = elim (Option-cases (get 1000 c.block_header_data)) [
      | inl absent ↦ not_err _ (sym (rw absent at h))
      | inr (old, found) ↦ elim (fits.only 2001 refl) [
        | inl absent ↦ not_err _ (sym (rw (found, absent) at h))
        | inr known ↦ not_ok _ (sym (rw (found, known, found) at h))
      ]
    ]

start-Fits : Fits hashing known_header (1000 ∷ 2001 ∷ []) start.header_metadata
unfolding program
start-Fits = record { keyed = start-IsKeyed; only = λ h member. ground arith }

fresh-Fits : Fits hashing known_header (1000 ∷ 2001 ∷ []) fresh.header_metadata
unfolding program
fresh-Fits = record {
  keyed = record { keyed = λ h header e. ground arith };
  only = λ h member. inl refl;
}

recursive_tree_route-Routed_example :
    Routed lib 1000 2001 (recursive_tree_route lib two_headers 3 1000 2001 fresh)
recursive_tree_route-Routed_example =
    recursive_tree_route-Routed lib two_headers 1000 2001 known_header (1000 ∷ 2001 ∷ [])
      two_headers-Supplied 3 fresh fresh-Fits (omega arith)

on_block-Announced_example :
    (s' : Listener) × (on_block lib two_headers 3 (block 1000 2 1) start ≡ (ok tt, s'))
    × (Quiet start s' ⊎ Announced lib 2001 start s')
on_block-Announced_example =
    on_block-Announced lib lib-IsFaithful two_headers 3 (block 1000 2 1) known_header
      (1000 ∷ 2001 ∷ []) start two_headers-Supplied start-Fits (unfold contains in refl)
      (unfold convert in refl) refl (omega arith)
