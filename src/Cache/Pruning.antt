-- ===== src/Cache/Pruning.antt =====
-- alerter/src/subspace.rs, `remove_header_until`: the heights that it removes.
use subspace_chain_alerts.Base.{
  ℕ, zero, suc, ◌+◌, ◌-◌, ◌≤◌, ◌<◌, ◌≡◌, ◌≢◌, refl, ◌⊎◌, inl, inr, ◌&&◌, none, some, get,
  get-remove, leb, if◌then◌else◌, arith, Option-cases, nat_eq, List,
}
use subspace_chain_alerts.Error.{ok}
use subspace_chain_alerts.Chain.{BlockNumber, BlockHash}
use subspace_chain_alerts.Cache.{
  HeadersMetadataCache, drop_height, remove_loop, remove_header_until,
}

-- `cache'` is `cache` without the heights from `lowest` to `number`. All of them were there, and
-- the height below was not.
pub record Pruned (number : BlockNumber) (cache cache' : HeadersMetadataCache) : Type 0 where
  pub lowest : BlockNumber
  pub bounded : lowest ≤ suc number
  pub present : (m : ℕ) → lowest ≤ m → m ≤ number → get m cache.block_number_hashes ≢ none
  pub stopped : (lowest ≡ 0) ⊎ (get (lowest - 1) cache.block_number_hashes ≡ none)
  pub heights :
      (m : ℕ)
      → get m cache'.block_number_hashes
        ≡ (if leb lowest m && leb m number then none else get m cache.block_number_hashes)

Pruned-none : (n : ℕ) (c : HeadersMetadataCache) → get n c.block_number_hashes ≡ none → Pruned n c c
Pruned-none n c h = record {
  lowest = suc n;
  bounded = omega arith;
  present = λ m p q. absurd (omega arith);
  stopped = inr (let e : suc n - 1 ≡ n = omega arith in rw e h);
  heights = λ m. ground arith;
}

get-drop_height :
    (n m : ℕ) (hashes : List BlockHash) (c : HeadersMetadataCache)
    → get m (drop_height n hashes c).block_number_hashes
      ≡ (if leb n m && leb m n then none else get m c.block_number_hashes)
unfolding drop_height
get-drop_height n m hashes c = ground (arith, get-remove n m c.block_number_hashes)

Pruned-zero :
    (c : HeadersMetadataCache) (hashes : List BlockHash)
    → get 0 c.block_number_hashes ≡ some hashes
    → Pruned 0 c (drop_height 0 hashes c)
Pruned-zero c hashes h = record {
  lowest = 0;
  bounded = omega arith;
  present = λ m p q. ground arith;
  stopped = inl refl;
  heights = λ m. ground (arith, get-drop_height 0 m hashes c);
}

Pruned-suc :
    (n : ℕ) (c c' : HeadersMetadataCache) (hashes : List BlockHash)
    → get (suc n) c.block_number_hashes ≡ some hashes
    → Pruned n (drop_height (suc n) hashes c) c'
    → Pruned (suc n) c c'
Pruned-suc n c c' hashes h p = record {
  lowest = p.lowest;
  bounded = omega (arith, p.bounded);
  present = λ m q r. ground (arith, p.present m, get-drop_height (suc n) m hashes c);
  stopped = ground (arith, p.stopped, p.bounded, get-drop_height (suc n) (p.lowest - 1) hashes c);
  heights = λ m. ground (arith, p.bounded, p.heights m, get-drop_height (suc n) m hashes c);
}

-- Once height 0 is gone the loop meets height 0 again, and ends.
remove_loop-zero :
    (fuel : ℕ) (c : HeadersMetadataCache) (hashes : List BlockHash)
    → 0 < fuel
    → remove_loop fuel 0 (drop_height 0 hashes c) ≡ ok (drop_height 0 hashes c)
unfolding remove_loop
remove_loop-zero zero c hashes h = absurd (omega arith)
remove_loop-zero (suc fuel) c hashes h = rw (get-drop_height 0 0 hashes c, remove_loop)

-- With fuel for every height from `n` down to 0 the loop ends.
remove_loop-Pruned :
    (fuel n : ℕ) (c : HeadersMetadataCache)
    → suc n < fuel
    → (c' : HeadersMetadataCache) × (remove_loop fuel n c ≡ ok c') × Pruned n c c'
unfolding remove_loop
remove_loop-Pruned zero n c h = absurd (omega arith)
remove_loop-Pruned (suc fuel) zero c h = elim (Option-cases (get 0 c.block_number_hashes)) [
  | inl absent ↦ (c, rw (absent, remove_loop), Pruned-none 0 c absent)
  | inr (hashes, found) ↦ (
    drop_height 0 hashes c,
    rw (found, remove_loop) (remove_loop-zero fuel c hashes (omega arith)),
    Pruned-zero c hashes found,
  )
]
remove_loop-Pruned (suc fuel) (suc n) c h =
    elim (Option-cases (get (suc n) c.block_number_hashes)) [
      | inl absent ↦ (c, rw (absent, remove_loop), Pruned-none (suc n) c absent)
      | inr (hashes, found) ↦
          let (c', ends, pruned) =
            remove_loop-Pruned fuel n (drop_height (suc n) hashes c) (omega arith) in
          let below : suc n - 1 ≡ n = omega arith in
          (c', rw (found, remove_loop, below) ends, Pruned-suc n c c' hashes found pruned)
    ]

-- `remove_header_until` always comes to its end, and removes exactly the unbroken run of cached
-- heights that ends at its argument: nothing if that height is not cached.
pub remove_header_until-Pruned :
    (number : BlockNumber) (cache : HeadersMetadataCache)
    → (cache' : HeadersMetadataCache) × (remove_header_until number cache ≡ ok cache')
      × Pruned number cache cache'
unfolding remove_header_until
remove_header_until-Pruned number cache = remove_loop-Pruned (number + 2) number cache (omega arith)
