-- ===== src/Cache/Consistency.antt =====
-- alerter/src/subspace.rs, the header cache: its two maps side by side, the hashes that are listed at
-- a height and the headers that are cached with it.
use mathlib.Core.Path.{subst}
use subspace_chain_alerts.Base.{
  ℕ, zero, suc, ◌+◌, ◌-◌, ◌≡◌, ◌↔◌, refl, List, [], ◌∷◌, Option, none, some, Bool, true, false,
  ◌&&◌, ◌||◌, get, remove, get-remove, get-insert, contains, set_insert, contains-set_insert,
  nat_eq, ◌==◌, leb, arith, Option-cases, if◌then◌else◌, Map, inl, inr,
}
use subspace_chain_alerts.Error.{ok, >>=-eq-ok}
use subspace_chain_alerts.Chain.{BlockHash, BlockNumber, Header, Hashing, SubstrateHeader}
use subspace_chain_alerts.Cache.{
  HeadersMetadataCache, empty, or_default, store, convert, add_header, remove_all, drop_height,
  remove_loop, remove_header_until,
}
use subspace_chain_alerts.Cache.Pruning.{Pruned}

-- The hashes listed at a height.
abbrev pub listed : HeadersMetadataCache → BlockNumber → BlockHash → Bool
listed c n h = contains h (or_default (get n c.block_number_hashes))

abbrev number_of : Option Header → Option BlockNumber
number_of none = none
number_of (some header) = some header.number

-- The height of a cached header.
abbrev pub height : HeadersMetadataCache → BlockHash → Option BlockNumber
height c h = number_of (get h c.block_header_data)

pub record IsConsistent (hashing : Hashing) (c : HeadersMetadataCache) : Type 0 where
  pub agrees : (n : BlockNumber) (h : BlockHash) → (listed c n h ≡ true) ↔ (height c h ≡ some n)
  pub keyed :
      (h : BlockHash) (header : Header)
      → get h c.block_header_data ≡ some header
      → hashing.hash header ≡ h

-- Two headers with one hash have one height.
abbrev pub NoCollision : Hashing → Type 0
NoCollision hashing = (a b : Header) → hashing.hash a ≡ hashing.hash b → a.number ≡ b.number

pub empty-IsConsistent : (hashing : Hashing) → IsConsistent hashing empty
unfolding get contains
empty-IsConsistent hashing = record {
  agrees = λ n h. ground arith;
  keyed = λ h header. ground arith;
}

pub listed-store :
    (hashing : Hashing) (header : Header) (c : HeadersMetadataCache)
    → (n : BlockNumber) (h : BlockHash)
    → listed (store hashing header c) n h
      ≡ (if header.number == n then hashing.hash header == h || listed c n h else listed c n h)
unfolding store
listed-store hashing header c n h =
    let hash = hashing.hash header in
    let old = or_default (get header.number c.block_number_hashes) in
    ground (
      arith,
      get-insert header.number n (set_insert hash old) c.block_number_hashes,
      contains-set_insert hash h old,
    )

height-store :
    (hashing : Hashing) (header : Header) (c : HeadersMetadataCache) (h : BlockHash)
    → height (store hashing header c) h
      ≡ (if hashing.hash header == h then some header.number else height c h)
unfolding store
height-store hashing header c h =
    ground (arith, get-insert (hashing.hash header) h header c.block_header_data)

convert-number :
    (hashing : Hashing) (header : SubstrateHeader) (converted : Header)
    → convert hashing header ≡ ok converted
    → converted.number ≡ header.number
unfolding convert
convert-number hashing header converted e = ground arith

-- What a call of `add_header` that does not panic did.
pub add_header-eq-ok :
    (hashing : Hashing) (header : SubstrateHeader) (c c' : HeadersMetadataCache) (h : BlockHash)
    → add_header hashing header c ≡ ok (c', h)
    → (converted : Header) × (convert hashing header ≡ ok converted)
      × (c' ≡ store hashing converted c)
      × (h ≡ hashing.hash converted)
unfolding add_header
add_header-eq-ok hashing header c c' h e =
    let (converted, convert_ok, rest) =
      >>=-eq-ok (convert hashing header)
        (λ converted. ok (store hashing converted c, hashing.hash converted)) e in
    (converted, convert_ok, ground arith, ground arith)

module _ (hashing : Hashing) (apart : NoCollision hashing) where
  -- A header that is already cached has the height of the new one with its hash.
  same_height :
      (header : Header) (c : HeadersMetadataCache) (n : BlockNumber)
      → IsConsistent hashing c
      → height c (hashing.hash header) ≡ some n
      → n ≡ header.number
  same_height header c n v e = elim (Option-cases (get (hashing.hash header) c.block_header_data)) [
    | inl absent ↦ ground arith
    | inr (old, found) ↦ ground (arith, apart old header (v.keyed (hashing.hash header) old found))
  ]

  pub store-IsConsistent :
      (header : Header) (c : HeadersMetadataCache)
      → IsConsistent hashing c
      → IsConsistent hashing (store hashing header c)
  store-IsConsistent header c v = record {
    agrees = λ n h. ground (
      arith,
      listed-store hashing header c n h,
      height-store hashing header c h,
      v.agrees n h,
      same_height header c n v,
    );
    keyed = λ h found e. store_keyed found h e;
  }
    where
      store_keyed :
          (found : Header) (h : BlockHash)
          → get h (store hashing header c).block_header_data ≡ some found
          → hashing.hash found ≡ h
      store_keyed found h e =
          unfold store in
          ground
            (arith, v.keyed h found, get-insert (hashing.hash header) h header c.block_header_data)

  -- If no two headers of different heights have one hash, `add_header` keeps the two maps in
  -- agreement, unless it panics, and the header that it adds is then listed at its height and found
  -- by its hash.
  pub add_header-IsConsistent :
      (header : SubstrateHeader) (c c' : HeadersMetadataCache) (h : BlockHash)
      → IsConsistent hashing c
      → add_header hashing header c ≡ ok (c', h)
      → IsConsistent hashing c'
        × (listed c' header.number h ≡ true)
        × (height c' h ≡ some header.number)
  add_header-IsConsistent header c c' h v e =
      let (converted, convert_ok, stored, hashed) = add_header-eq-ok hashing header c c' h e in
      let same = convert-number hashing header converted convert_ok in
      rw (stored, hashed)
        (
          store-IsConsistent converted c v,
          ground (
            arith,
            same,
            listed-store hashing converted c header.number (hashing.hash converted),
          ),
          ground (arith, same, height-store hashing converted c (hashing.hash converted)),
        )

contains-nil : (h : BlockHash) → contains h [] ≡ false
unfolding contains
contains-nil h = refl

-- Dropping a height takes away the headers of the hashes listed there, and no others.
pub get-remove_all :
    (hashes : List BlockHash) (headers : Map BlockHash Header) (h : BlockHash)
    → get h (remove_all hashes headers) ≡ (if contains h hashes then none else get h headers)
unfolding remove_all contains
get-remove_all [] headers h = refl
get-remove_all (k ∷ hashes) headers h =
    ground (arith, get-remove k h headers, get-remove_all hashes (remove k headers) h)

module _ (hashing : Hashing) where
  drop_height-IsConsistent :
      (n : BlockNumber) (hashes : List BlockHash) (c : HeadersMetadataCache)
      → get n c.block_number_hashes ≡ some hashes
      → IsConsistent hashing c
      → IsConsistent hashing (drop_height n hashes c)
  unfolding drop_height
  drop_height-IsConsistent n hashes c found v = record {
    agrees = λ m h. ground (
      arith,
      v.agrees m h,
      v.agrees n h,
      contains-nil h,
      get-remove n m c.block_number_hashes,
      get-remove_all hashes c.block_header_data h,
    );
    keyed =
        λ h header e. ground (arith, v.keyed h header, get-remove_all hashes c.block_header_data h);
  }

  remove_loop-IsConsistent :
      (fuel n : ℕ) (c c' : HeadersMetadataCache)
      → IsConsistent hashing c
      → remove_loop fuel n c ≡ ok c'
      → IsConsistent hashing c'
  unfolding remove_loop
  remove_loop-IsConsistent zero n c c' v e = ground arith
  remove_loop-IsConsistent (suc fuel) n c c' v e =
      elim (Option-cases (get n c.block_number_hashes)) [
        | inl absent ↦ let same : c ≡ c' = ground arith in subst (IsConsistent hashing) same v
        | inr (hashes, found) ↦
            remove_loop-IsConsistent fuel (n - 1) (drop_height n hashes c) c'
              (drop_height-IsConsistent n hashes c found v) (rw (found, remove_loop) at e)
      ]

  -- Where the two maps agree, they still agree after `remove_header_until`.
  pub remove_header_until-IsConsistent :
      (number : BlockNumber) (c c' : HeadersMetadataCache)
      → IsConsistent hashing c
      → remove_header_until number c ≡ ok c'
      → IsConsistent hashing c'
  unfolding remove_header_until
  remove_header_until-IsConsistent number c c' v e =
      remove_loop-IsConsistent (number + 2) number c c' v e

  -- Of a cache whose maps agree, `remove_header_until` forgets exactly the headers whose height
  -- is in the run of cached heights that ends at its argument, and finds every other as before.
  pub height-remove_header_until :
      (number : BlockNumber) (c c' : HeadersMetadataCache)
      → IsConsistent hashing c
      → remove_header_until number c ≡ ok c'
      → (pruned : Pruned number c c') (h : BlockHash) (m : BlockNumber)
      → (height c' h ≡ some m)
        ↔ ((height c h ≡ some m) × ((leb pruned.lowest m && leb m number) ≡ false))
  height-remove_header_until number c c' v e pruned h m =
      let v' = remove_header_until-IsConsistent number c c' v e in
      ground (arith, v.agrees m h, v'.agrees m h, pruned.heights m, contains-nil h)
