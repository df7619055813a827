-- ===== src/Cache/Tests.antt =====
-- The header cache on small inputs.
use subspace_chain_alerts.Base.{
  ℕ, ◌*◌, ◌≡◌, ◌↔◌, refl, [], ◌∷◌, some, get, insert, remove, contains, set_insert, arith, leb,
  ◌&&◌, true, false, inr,
}
use subspace_chain_alerts.Error.{ok}
use subspace_chain_alerts.Chain.{Hashing, Header, SubstrateHeader}
use subspace_chain_alerts.Cache.{
  HeadersMetadataCache, empty, store, convert, add_header, remove_all, drop_height, remove_loop,
  remove_header_until,
}
use subspace_chain_alerts.Cache.Pruning.{Pruned, remove_header_until-Pruned}
use subspace_chain_alerts.Cache.Consistency.{
  IsConsistent, NoCollision, listed, height, empty-IsConsistent, add_header-IsConsistent,
  remove_header_until-IsConsistent, height-remove_header_until,
}

program : Unit {0}
unfolding get insert remove contains set_insert store convert add_header remove_all drop_height
    remove_loop remove_header_until
program = tt

-- A header's hash is its height times ten.
abbrev hashing : Hashing
hashing = record { hash = λ header. header.number * 10; decode_digest = some }

hashing-NoCollision : NoCollision hashing
hashing-NoCollision a b e = omega arith

abbrev header : ℕ → SubstrateHeader
header n = record { parent_hash = 0; number = n; state_root = 0; extrinsics_root = 0; digest = [] }

abbrev cached : ℕ → Header
cached n = record { parent_hash = 0; number = n; state_root = 0; extrinsics_root = 0; digest = [] }

abbrev one : HeadersMetadataCache
one = record { block_header_data = (40, cached 4) ∷ []; block_number_hashes = (4, 40 ∷ []) ∷ [] }

add_header-IsConsistent_example :
    IsConsistent hashing one × (listed one 4 40 ≡ true) × (height one 40 ≡ some 4)
unfolding program
add_header-IsConsistent_example =
    add_header-IsConsistent hashing hashing-NoCollision (header 4) empty one 40
      (empty-IsConsistent hashing) refl

remove_header_until-Pruned_example :
    (cache' : HeadersMetadataCache) × (remove_header_until 4 one ≡ ok cache') × Pruned 4 one cache'
remove_header_until-Pruned_example = remove_header_until-Pruned 4 one

remove_header_until-IsConsistent_example : IsConsistent hashing empty
unfolding program
remove_header_until-IsConsistent_example =
    remove_header_until-IsConsistent hashing 4 one empty add_header-IsConsistent_example.0 refl

one-Pruned : Pruned 4 one empty
unfolding program
one-Pruned = record {
  lowest = 4;
  bounded = omega arith;
  present = λ m p q. ground arith;
  stopped = inr refl;
  heights = λ m. ground arith;
}

height-remove_header_until_example :
    (height empty 40 ≡ some 4) ↔ ((height one 40 ≡ some 4) × ((leb 4 4 && leb 4 4) ≡ false))
unfolding program one-Pruned
height-remove_header_until_example =
    height-remove_header_until hashing 4 one empty add_header-IsConsistent_example.0 refl one-Pruned
      40 4
