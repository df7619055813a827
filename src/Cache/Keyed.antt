-- ===== src/Cache/Keyed.antt =====
-- alerter/src/subspace.rs, the header cache: each header stands under its hash.
use mathlib.Core.Path.{subst}
use subspace_chain_alerts.Base.{
  ℕ, zero, suc, ◌-◌, ◌+◌, ◌≡◌, List, some, get, get-insert, nat_eq, arith, Option-cases, inl, inr,
}
use subspace_chain_alerts.Error.{ok}
use subspace_chain_alerts.Chain.{BlockHash, BlockNumber, Header, Hashing, SubstrateHeader}
use subspace_chain_alerts.Cache.{
  HeadersMetadataCache, store, add_header, drop_height, remove_loop, remove_header_until,
}
use subspace_chain_alerts.Cache.Consistency.{add_header-eq-ok, get-remove_all}

pub record IsKeyed (hashing : Hashing) (c : HeadersMetadataCache) : Type 0 where
  pub keyed :
      (h : BlockHash) (header : Header)
      → get h c.block_header_data ≡ some header
      → hashing.hash header ≡ h

module _ (hashing : Hashing) where
  pub store-IsKeyed :
      (header : Header) (c : HeadersMetadataCache)
      → IsKeyed hashing c
      → IsKeyed hashing (store hashing header c)
  unfolding store
  store-IsKeyed header c k = record {
    keyed = λ h found e.
        ground
          (arith, k.keyed h found, get-insert (hashing.hash header) h header c.block_header_data);
  }

  pub add_header-IsKeyed :
      (header : SubstrateHeader) (c c' : HeadersMetadataCache) (h : BlockHash)
      → IsKeyed hashing c
      → add_header hashing header c ≡ ok (c', h)
      → IsKeyed hashing c'
  add_header-IsKeyed header c c' h k e =
      let (converted, convert_ok, stored, hashed) = add_header-eq-ok hashing header c c' h e in
      rw stored (store-IsKeyed converted c k)

  drop_height-IsKeyed :
      (n : BlockNumber) (hashes : List BlockHash) (c : HeadersMetadataCache)
      → IsKeyed hashing c
      → IsKeyed hashing (drop_height n hashes c)
  unfolding drop_height
  drop_height-IsKeyed n hashes c k = record {
    keyed =
        λ h header e. ground (arith, k.keyed h header, get-remove_all hashes c.block_header_data h);
  }

  remove_loop-IsKeyed :
      (fuel n : ℕ) (c c' : HeadersMetadataCache)
      → IsKeyed hashing c
      → remove_loop fuel n c ≡ ok c'
      → IsKeyed hashing c'
  unfolding remove_loop
  remove_loop-IsKeyed zero n c c' k e = ground arith
  remove_loop-IsKeyed (suc fuel) n c c' k e = elim (Option-cases (get n c.block_number_hashes)) [
    | inl absent ↦ let same : c ≡ c' = ground arith in subst (IsKeyed hashing) same k
    | inr (hashes, found) ↦
        remove_loop-IsKeyed fuel (n - 1) (drop_height n hashes c) c'
          (drop_height-IsKeyed n hashes c k) (rw (found, remove_loop) at e)
  ]

  pub remove_header_until-IsKeyed :
      (number : BlockNumber) (c c' : HeadersMetadataCache)
      → IsKeyed hashing c
      → remove_header_until number c ≡ ok c'
      → IsKeyed hashing c'
  unfolding remove_header_until
  remove_header_until-IsKeyed number c c' k e = remove_loop-IsKeyed (number + 2) number c c' k e
