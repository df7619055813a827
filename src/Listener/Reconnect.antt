-- ===== src/Listener/Reconnect.antt =====
-- alerter/src/subspace.rs: the end of a session of `listen_for_all_blocks`.
use subspace_chain_alerts.Base.{ℕ, ◌≡◌, [], ◌∷◌, ◌++◌, false}
use subspace_chain_alerts.Error.{ok, err, Error}
use subspace_chain_alerts.Chain.{HashAndNumber}
use subspace_chain_alerts.Listener.Actions.{Node, Library, Listener}
use subspace_chain_alerts.Listener.Import.{Block, is_canonical_block, on_block}
use subspace_chain_alerts.Listener.Sessions.{
  Items, Item, arrived, next_block, load_header_metadata_cache,
}

-- The blocks of some items were handled to the end, from `s` to `u`.
pub data Handles (lib : Library) (fuel : ℕ) : Items → Listener → Listener → Type 0 where
  no_more : {s : Listener} → Handles lib fuel [] s s
  one_more :
      {items : Items} {s t u : Listener} (node : Node) (block : Block)
      → on_block lib node fuel block s ≡ (ok tt, t)
      → Handles lib fuel items t u
      → Handles lib fuel ((node, arrived block) ∷ items) s u

-- The items are blocks that are not on the canonical chain.
pub data AreForks : Items → Type 0 where
  no_fork : AreForks []
  fork :
      {items : Items} (node : Node) (block : Block)
      → is_canonical_block node block.header.number block.hash ≡ ok false
      → AreForks items
      → AreForks ((node, arrived block) ∷ items)

-- The subscription itself ends, or gives an error: while the first block of the canonical chain is
-- awaited, or after any number of blocks were handled.
pub data IsLost (lib : Library) (fuel : ℕ) (items : Items) (s : Listener) (e : Error) : Type 0 where
  while_loading :
      (forks : Items) (node : Node) (item : Item) (later : Items)
      → items ≡ forks ++ (node, item) ∷ later
      → AreForks forks
      → next_block item ≡ err e
      → IsLost lib fuel items s e
  while_listening :
      (best : HashAndNumber) (before : Items) (node : Node) (item : Item) (later : Items)
      (loaded u : Listener)
      → load_header_metadata_cache lib items s ≡ (ok (best, before ++ (node, item) ∷ later), loaded)
      → Handles lib fuel before (record loaded { current_best_block = best }) u
      → next_block item ≡ err e
      → IsLost lib fuel items s e
