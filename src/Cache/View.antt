-- ===== src/Cache/View.antt =====
-- alerter/src/subspace.rs, the header cache as it answers: the order of its maps' entries is forgotten.
use mathlib.Core.Logic.{∥∥₁_elim}
use mathlib.Core.Path.{subst}
use mathlib.Core.Quot
use mathlib.Core.Quot.{Quot, Quot-set}
use mathlib.Core.List.{Perm, Permᴰ}
use subspace_chain_alerts.Base.{
  ◌≡◌, refl, sym, ap, ◌∙◌, List, [], ◌∷◌, some, get, get-insert, nat_eq, ◌==◌, if◌then◌else◌, All,
  arith,
}
use subspace_chain_alerts.Chain.{BlockHash, BlockNumber, Header, Hashing}
use subspace_chain_alerts.Cache.{HeadersMetadataCache, store}
use subspace_chain_alerts.Cache.Consistency.{listed, listed-store}

-- Two caches have the same header under each hash, and the same hashes at each height.
abbrev pub SameAnswers : HeadersMetadataCache → HeadersMetadataCache → Type 0
SameAnswers c d =
    ((h : BlockHash) → get h c.block_header_data ≡ get h d.block_header_data)
    × ((n : BlockNumber) (h : BlockHash) → listed c n h ≡ listed d n h)

abbrev pub View : Type 0
View = Quot SameAnswers

abbrev pub view : HeadersMetadataCache → View
view c = Quot.mk c

found-store :
    (hashing : Hashing) (header : Header) (c : HeadersMetadataCache) (h : BlockHash)
    → get h (store hashing header c).block_header_data
      ≡ (if hashing.hash header == h then some header else get h c.block_header_data)
unfolding store
found-store hashing header c h = get-insert (hashing.hash header) h header c.block_header_data

module _ (hashing : Hashing) where
  store-SameAnswers :
      (header : Header) (c d : HeadersMetadataCache)
      → SameAnswers c d
      → SameAnswers (store hashing header c) (store hashing header d)
  store-SameAnswers header c d (found, at_height) = (
    (λ h. rw (found-store hashing header c h, found-store hashing header d h, found h) refl),
    (λ n h.
        rw (listed-store hashing header c n h, listed-store hashing header d n h, at_height n h)
          refl),
  )

  -- The storing of a header, on views.
  pub put : Header → View → View
  put header =
      Quot.lift Quot-set (λ c. view (store hashing header c))
        (λ c d same. Quot.sound (store-SameAnswers header c d same))

  pub put_all : List Header → View → View
  put_all [] v = v
  put_all (header ∷ headers) v = put_all headers (put header v)

  unfoldable pub store_all : List Header → HeadersMetadataCache → HeadersMetadataCache
  store_all [] c = c
  store_all (header ∷ headers) c = store_all headers (store hashing header c)

  -- One hash is one header.
  abbrev pub Apart : Header → Header → Type 0
  Apart a b = hashing.hash a ≡ hashing.hash b → a ≡ b

  store_comm :
      (a b : Header) (c : HeadersMetadataCache)
      → Apart a b
      → SameAnswers (store hashing b (store hashing a c)) (store hashing a (store hashing b c))
  store_comm a b c apart = (
    (λ h. ground (
      arith,
      found-store hashing b (store hashing a c) h,
      found-store hashing a c h,
      found-store hashing a (store hashing b c) h,
      found-store hashing b c h,
      apart,
    )),
    (λ n h. ground (
      arith,
      listed-store hashing b (store hashing a c) n h,
      listed-store hashing a c n h,
      listed-store hashing a (store hashing b c) n h,
      listed-store hashing b c n h,
    )),
  )

  put_comm : (a b : Header) → Apart a b → (v : View) → put b (put a v) ≡ put a (put b v)
  unfolding put
  put_comm a b apart = Quot.ind (λ v. Quot-set _ _) (λ c. Quot.sound (store_comm a b c apart))

  -- No two headers of a list share a hash, unless they are one header.
  abbrev pub AllApart : List Header → Type 0
  AllApart [] = Unit {0}
  AllApart (header ∷ headers) = All (Apart header) headers × AllApart headers

  All-perm : (P : Header → Type 0) {xs ys : List Header} → Permᴰ xs ys → All P xs → All P ys
  All-perm P Permᴰ.nil h = tt
  All-perm P (Permᴰ.cons e d) (p, h) = (subst P e p, All-perm P d h)
  All-perm P (Permᴰ.swap e f) (p, (q, h)) = (subst P f q, (subst P e p, h))
  All-perm P (Permᴰ.trans d e) h = All-perm P e (All-perm P d h)

  AllApart-perm : {xs ys : List Header} → Permᴰ xs ys → AllApart xs → AllApart ys
  AllApart-perm Permᴰ.nil h = tt
  AllApart-perm (Permᴰ.cons {l₂ = l} e d) (p, h) =
      (subst (λ x. All (Apart x) l) e (All-perm (Apart _) d p), AllApart-perm d h)
  AllApart-perm (Permᴰ.swap {a = a} {b = b} {b' = b'} {l = l} e f) ((ab, al), (bl, h)) = (
    (
      subst (λ y. Apart y b') f (subst (λ x. Apart b x) e (λ same. sym (ab (sym same)))),
      subst (λ y. All (Apart y) l) f bl,
    ),
    (subst (λ x. All (Apart x) l) e al, h),
  )
  AllApart-perm (Permᴰ.trans d e) h = AllApart-perm e (AllApart-perm d h)

  put_all-permuted :
      {xs ys : List Header} → Permᴰ xs ys → AllApart xs → (v : View) → put_all xs v ≡ put_all ys v
  unfolding put_all
  put_all-permuted Permᴰ.nil h v = refl
  put_all-permuted (Permᴰ.cons {a = a} {l₂ = l} e d) (p, h) v =
      put_all-permuted d h (put a v) ∙ ap (λ x. put_all l (put x v)) e
  put_all-permuted (Permᴰ.swap {a = a} {b = b} {b' = b'} {l = l} e f) ((ab, al), rest) v =
      ap (put_all l) (put_comm a b ab v)
      ∙ ap (λ x. put_all l (put x (put b v))) e
      ∙ ap (λ y. put_all l (put b' (put y v))) f
  put_all-permuted (Permᴰ.trans d e) h v =
      put_all-permuted d h v ∙ put_all-permuted e (AllApart-perm d h) v

  put_all-view :
      (headers : List Header) (c : HeadersMetadataCache)
      → put_all headers (view c) ≡ view (store_all headers c)
  unfolding put put_all store_all
  put_all-view [] c = refl
  put_all-view (header ∷ headers) c = put_all-view headers (store hashing header c)

  -- The order in which headers are cached does not matter: as far as the cache answers, two orders of
  -- the same headers leave the same cache, where no two of the headers share a hash.
  pub store_all-permuted :
      {xs ys : List Header} (c : HeadersMetadataCache)
      → Perm xs ys
      → AllApart xs
      → view (store_all xs c) ≡ view (store_all ys c)
  store_all-permuted {xs = xs} {ys = ys} c p apart =
      ∥∥₁_elim p (Quot-set _ _)
        (λ d. sym (put_all-view xs c) ∙ put_all-permuted d apart (view c) ∙ put_all-view ys c)
