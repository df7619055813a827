-- ===== src/Listener/Growth.antt =====
-- alerter/src/subspace.rs: what `recursive_tree_route` does to the listener's state.
use subspace_chain_alerts.Base.{ℕ, zero, suc, ◌≡◌, refl, arith}
use subspace_chain_alerts.Error.{Exec, ok, err, panic, running, Error}
use subspace_chain_alerts.Chain.{BlockHash, Hashing, SubstrateHeader}
use subspace_chain_alerts.Cache.{HeadersMetadataCache}
use subspace_chain_alerts.Cache
use subspace_chain_alerts.Cache.Consistency.{IsConsistent, NoCollision, add_header-IsConsistent}
use subspace_chain_alerts.Cache.Keyed.{IsKeyed, add_header-IsKeyed}
use subspace_chain_alerts.Listener.Actions.{
  Node, TreeRoute, Library, Listener, Action, add_header, keep, and_then, lift, ◌>>=◌,
}
use subspace_chain_alerts.Listener.Route.{
  fetch_header, or_retry, recursive_tree_route, header_metadata,
}

-- `s'` is `s` with more headers added to the cache, one after the other.
pub data Grown (hashing : Hashing) : Listener → Listener → Type 0 where
  same : {s s' : Listener} → s' ≡ s → Grown hashing s s'
  added :
      {s s' : Listener} (header : SubstrateHeader) (h : BlockHash) (cache : HeadersMetadataCache)
      → Cache.add_header hashing header s.header_metadata ≡ ok (cache, h)
      → Grown hashing (record s { header_metadata = cache }) s'
      → Grown hashing s s'

module _ (hashing : Hashing) where
  pub Grown-frame :
      {s s' : Listener}
      → Grown hashing s s'
      → (s'.current_best_block ≡ s.current_best_block) × (s'.sent ≡ s.sent)
  Grown-frame (same e) = ground arith
  Grown-frame (added header h cache e g) = Grown-frame g

  pub Grown-IsConsistent :
      NoCollision hashing
      → {s s' : Listener} → Grown hashing s s'
      → IsConsistent hashing s.header_metadata
      → IsConsistent hashing s'.header_metadata
  Grown-IsConsistent apart (same e) v = rw e v
  Grown-IsConsistent apart {s} (added header h cache e g) v =
      Grown-IsConsistent apart g
        (add_header-IsConsistent hashing apart header s.header_metadata cache h v e).0

  pub Grown-IsKeyed :
      {s s' : Listener}
      → Grown hashing s s'
      → IsKeyed hashing s.header_metadata
      → IsKeyed hashing s'.header_metadata
  Grown-IsKeyed (same e) k = rw e k
  Grown-IsKeyed {s} (added header h cache e g) k =
      Grown-IsKeyed g (add_header-IsKeyed hashing header s.header_metadata cache h k e)

  Grown-trans : {s t u : Listener} → Grown hashing s t → Grown hashing t u → Grown hashing s u
  Grown-trans {u} (same e) k = rw e at k
  Grown-trans (added header h cache e g) k = added header h cache e (Grown-trans g k)

  pub add_header-Grown :
      (header : SubstrateHeader) (s : Listener) → Grown hashing s (add_header hashing header s).1
  unfolding add_header
  add_header-Grown header s = added_by (Cache.add_header hashing header s.header_metadata) refl
    where
      added_by :
          (m : Exec (HeadersMetadataCache × BlockHash))
          → Cache.add_header hashing header s.header_metadata ≡ m
          → Grown hashing s (keep m s).1
      added_by (ok (cache, h)) e = added header h cache e (same refl)
      added_by (err x) e = same refl
      added_by panic e = same refl
      added_by running e = same refl

-- An action that does no more than add headers, however it ends.
pub record Grows {ℓ} (hashing : Hashing) {A : Type ℓ} (m : Action A) : Type 0 where
  pub at : (s : Listener) → Grown hashing s (m s).1

module _ (hashing : Hashing) where
  and_then-Grown {ℓ κ} :
      {A : Type ℓ} {B : Type κ} (f : A → Action B) (r : Exec A) {s t : Listener}
      → ((a : A) → Grows hashing (f a))
      → Grown hashing s t
      → Grown hashing s (and_then f r t).1
  and_then-Grown f (ok a) {t} hf g = Grown-trans hashing g ((hf a).at t)
  and_then-Grown f (err e) hf g = g
  and_then-Grown f panic hf g = g
  and_then-Grown f running hf g = g

  pub >>=-Grows {ℓ κ} :
      {A : Type ℓ} {B : Type κ} (m : Action A) (f : A → Action B)
      → Grows hashing m
      → ((a : A) → Grows hashing (f a))
      → Grows hashing (m >>= f)
  >>=-Grows m f hm hf = record { at = λ s. and_then-Grown f (m s).0 hf (hm.at s) }

  pub lift-Grows {ℓ} : {A : Type ℓ} (m : Exec A) → Grows hashing (lift m)
  lift-Grows m = record { at = λ s. same refl }

  pub add_header-Grows : (header : SubstrateHeader) → Grows hashing (add_header hashing header)
  add_header-Grows header = record { at = add_header-Grown hashing header }

ruleset grows_rules = (>>=-Grows, lift-Grows, add_header-Grows)

module _ (lib : Library) (node : Node) where
  pub fetch_header-Grows : (hash : BlockHash) → Grows lib.hashing (fetch_header lib node hash)
  unfolding fetch_header
  fetch_header-Grows hash = search grows_rules

  or_retry-Grows :
      (again : Action TreeRoute) (result : Exec TreeRoute)
      → Grows lib.hashing again
      → Grows lib.hashing (or_retry lib node again result)
  unfolding or_retry
  or_retry-Grows again (err (Error.missing_block_hash_from_cache hash)) g =
      >>=-Grows lib.hashing _ _ (fetch_header-Grows hash) (λ added. g)
  or_retry-Grows again _ g = record { at = λ s. same refl }

  -- However the search for a route ends, it adds headers to the cache and changes nothing else.
  pub recursive_tree_route-Grows :
      (fuel : ℕ) (from to : BlockHash)
      → Grows lib.hashing (recursive_tree_route lib node fuel from to)
  unfolding recursive_tree_route
  recursive_tree_route-Grows zero from to = record { at = λ s. same refl }
  recursive_tree_route-Grows (suc fuel) from to = record {
    at = λ s.
        (or_retry-Grows (recursive_tree_route lib node fuel from to)
            (lib.tree_route (header_metadata lib s.header_metadata) from to)
            (recursive_tree_route-Grows fuel from to)).at
          s;
  }
