-- ===== src/Listener/Fixture.antt =====
-- A small chain for the tests: a header's hash is read off its number and its state root, and
-- `tree_route` looks at the two blocks and their parents.
use subspace_chain_alerts.Base.{
  ℕ, ◌+◌, ◌*◌, ◌%◌, ◌≡◌, refl, sym, [], ◌∷◌, some, if◌then◌else◌, ◌==◌, arith, Bool-cases, inl, inr,
  ==_iff, nat_eq, codes,
}
use subspace_chain_alerts.Error.{
  Exec, ok, err, panic, running, Error, Call, done, >>=-eq-ok, ok-injective,
}
use subspace_chain_alerts.Error
use subspace_chain_alerts.Chain.{BlockHash, BlockNumber, Hashing, Header, SubstrateHeader}
use subspace_chain_alerts.Cache.Consistency.{NoCollision}
use subspace_chain_alerts.Listener.Actions.{Node, HeaderMetadata, TreeRoute, Library, Listener}
use subspace_chain_alerts.Listener.Route.{header_metadata}
use subspace_chain_alerts.Listener.Import.{Block}
use subspace_chain_alerts.Listener.Broadcast.{IsRoute, IsFaithful}

abbrev pub hashing : Hashing
hashing = record {
  hash = λ header. header.number * 1000 + header.state_root % 1000;
  decode_digest = some;
}

pub hashing-NoCollision : NoCollision hashing
hashing-NoCollision a b e = omega arith

abbrev pub metadata : Header → HeaderMetadata
metadata header = record {
  hash = hashing.hash header;
  number = header.number;
  parent = header.parent_hash;
}

-- The routes from a block to itself, its child, and its sibling; from the child's parent on the blocks
-- are not looked at.
abbrev pub here : BlockHash → HeaderMetadata → TreeRoute
here from old = record {
  retracted = [];
  enacted = [];
  common_block = record { number = old.number; hash = from };
}

abbrev pub to_child : BlockHash → BlockHash → HeaderMetadata → HeaderMetadata → TreeRoute
to_child from to old new = record {
  retracted = [];
  enacted = record { number = new.number; hash = to } ∷ [];
  common_block = record { number = old.number; hash = from };
}

abbrev pub to_sibling :
    BlockHash → BlockHash → HeaderMetadata → HeaderMetadata → HeaderMetadata → TreeRoute
to_sibling from to old new parent = record {
  retracted = record { number = old.number; hash = from } ∷ [];
  enacted = record { number = new.number; hash = to } ∷ [];
  common_block = record { number = parent.number; hash = new.parent };
}

-- The route, once both blocks and the parent of the new one are known.
abbrev pub route_by_parent :
    BlockHash → BlockHash → HeaderMetadata → HeaderMetadata → HeaderMetadata → Exec TreeRoute
route_by_parent from to old new parent =
    if new.parent == from
    then ok (to_child from to old new)
    else if new.parent == old.parent
    then ok (to_sibling from to old new parent)
    else err (Error.app (codes "the blocks are too far apart"))

abbrev pub walk :
    (BlockHash → Exec HeaderMetadata)
    → BlockHash
    → BlockHash
    → HeaderMetadata
    → HeaderMetadata
    → Exec TreeRoute
walk source from to old new =
    if from == to
    then ok (here from old)
    else Error.◌>>=◌ (source new.parent) λ parent. route_by_parent from to old new parent

-- It looks at both blocks, and at the parent of the new one.
abbrev pub tree_route : (BlockHash → Exec HeaderMetadata) → BlockHash → BlockHash → Exec TreeRoute
tree_route source from to =
    Error.◌>>=◌ (source from) λ old. Error.◌>>=◌ (source to) λ new. walk source from to old new

abbrev pub lib : Library
lib = record { hashing = hashing; metadata = metadata; tree_route = tree_route }

module _ (source : BlockHash → Exec HeaderMetadata) (from to : BlockHash) (old new : HeaderMetadata)
    (got_old : source from ≡ ok old) (got_new : source to ≡ ok new) where
  route_by_parent-IsRoute :
      (parent : HeaderMetadata) (route : TreeRoute)
      → route_by_parent from to old new parent ≡ ok route
      → IsRoute source from to route
  route_by_parent-IsRoute parent route e = elim (Bool-cases (new.parent == from)) [
    | inl child ↦ rw (← ok-injective (rw child at e)) (record {
      linked = ((new, got_new, (==_iff new.parent from).0 child), tt);
      ends_at = λ b h. ground arith;
      straight = λ h. refl;
      starts_at = λ b bs h. absurd (ground arith);
      back = tt;
    })
    | inr apart ↦ elim (Bool-cases (new.parent == old.parent)) [
      | inl sibling ↦ rw (← ok-injective (rw (apart, sibling) at e)) (record {
        linked = ((new, got_new, refl), tt);
        ends_at = λ b h. ground arith;
        straight = λ h. absurd (ground arith);
        starts_at = λ b bs h. ground arith;
        back = ((old, got_old, sym ((==_iff new.parent old.parent).0 sibling)), tt);
      })
      | inr far ↦ absurd (let g = rw (apart, far) at e in ground arith)
    ]
  ]

  walk-IsRoute :
      (route : TreeRoute) → walk source from to old new ≡ ok route → IsRoute source from to route
  walk-IsRoute route e = elim (Bool-cases (from == to)) [
    | inl same ↦ rw (← ok-injective (rw same at e)) (record {
      linked = tt;
      ends_at = λ b h. absurd (ground arith);
      straight = λ h. refl;
      starts_at = λ b bs h. absurd (ground arith);
      back = tt;
    })
    | inr apart ↦
        let (parent, got, e') = >>=-eq-ok (source new.parent) _ (rw apart at e) in
        route_by_parent-IsRoute parent route e'
  ]

pub lib-IsFaithful : IsFaithful lib
lib-IsFaithful = record {
  parent_of = λ header. refl;
  routes = λ c from to route keyed e.
      let source = header_metadata lib c in
      let (old, got_old, e') = >>=-eq-ok (source from) _ e in
      let (new, got_new, e'') = >>=-eq-ok (source to) (λ new. walk source from to old new) e' in
      walk-IsRoute source from to old new got_old got_new route e'';
}

-- A header with the given parent, height and state root.
abbrev pub header : BlockHash → BlockNumber → ℕ → SubstrateHeader
header parent number root = record {
  parent_hash = parent;
  number = number;
  state_root = root;
  extrinsics_root = 0;
  digest = [];
}

abbrev pub block : BlockHash → BlockNumber → ℕ → Block
block parent number root = record {
  header = header parent number root;
  hash = number * 1000 + root % 1000;
}

-- A node whose chain has the given hash at every height that is asked for, and knows one header.
abbrev pub node : BlockHash → SubstrateHeader → Node
node best known = record {
  chain_get_block_hash = λ n. done (some best);
  chain_get_header = λ h. done (some known);
}

-- The listener after the load of block 1000 at height 1.
abbrev pub start : Listener
start = record {
  header_metadata = record {
    block_header_data =
        (
          1000,
          record { parent_hash = 0; number = 1; state_root = 0; extrinsics_root = 0; digest = [] },
        )
        ∷ [];
    block_number_hashes = (1, 1000 ∷ []) ∷ [];
  };
  current_best_block = record { number = 1; hash = 1000 };
  sent = [];
}
