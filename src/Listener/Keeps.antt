-- ===== src/Listener/Keeps.antt =====
-- alerter/src/subspace.rs: invariants of the listener's actions, one rule for each way to build an
-- action.
use subspace_chain_alerts.Base.{ℕ, ◌≡◌, refl, List, [], ◌∷◌, Bool, true, false, if◌then◌else◌}
use subspace_chain_alerts.Error.{Exec, ok, err, panic, running, Error}
use subspace_chain_alerts.Chain.{Hashing, SubstrateHeader, HashAndNumber, BlocksExt}
use subspace_chain_alerts.Cache.{HeadersMetadataCache}
use subspace_chain_alerts.Cache
use subspace_chain_alerts.Cache.Consistency.{
  IsConsistent, NoCollision, add_header-IsConsistent, remove_header_until-IsConsistent,
}
use subspace_chain_alerts.Listener.Actions.{
  Node, TreeRoute, Library, Listener, Action, pure, lift, and_then, ◌>>=◌, cache_now, best_now,
  set_best, send, keep, keep_cache, add_header, remove_header_until,
}
use subspace_chain_alerts.Listener.Route.{recursive_tree_route}
use subspace_chain_alerts.Listener.Growth.{recursive_tree_route-Grows, Grown-IsConsistent}
use subspace_chain_alerts.Listener.Import.{Block, enact, import_best, on_block}
use subspace_chain_alerts.Listener.Sessions.{
  Items, Session, listen_for_blocks, add_headers, load_header_metadata_cache, reconnect, listened,
  listen_for_all_blocks,
}

-- `m` keeps `P`, however it ends.
pub record Keeps {ℓ κ} {A : Type ℓ} (P : Listener → Type κ) (m : Action A) : Type κ where
  pub at : (s : Listener) → P s → P (m s).1

module _ {ℓ κ} {A : Type ℓ} {P : Listener → Type κ} where
  pub Keeps-pure : (a : A) → Keeps P (pure a)
  Keeps-pure a = record { at = λ s h. h }

  pub Keeps-lift : (r : Exec A) → Keeps P (lift r)
  Keeps-lift r = record { at = λ s h. h }

  pub Keeps-if : (b : Bool) (m n : Action A) → Keeps P m → Keeps P n → Keeps P (if b then m else n)
  Keeps-if true m n km kn = km
  Keeps-if false m n km kn = kn

module _ {κ} {P : Listener → Type κ} where
  pub Keeps-best_now : Keeps P best_now
  Keeps-best_now = record { at = λ s h. h }

  pub Keeps-cache_now : Keeps P cache_now
  Keeps-cache_now = record { at = λ s h. h }

module _ {ℓ ι κ} {A : Type ℓ} {B : Type ι} {P : Listener → Type κ} where
  and_then-Keeps :
      (f : A → Action B) (r : Exec A) (s : Listener)
      → ((a : A) → Keeps P (f a))
      → P s
      → P (and_then f r s).1
  and_then-Keeps f (ok a) s kf h = (kf a).at s h
  and_then-Keeps f (err e) s kf h = h
  and_then-Keeps f panic s kf h = h
  and_then-Keeps f running s kf h = h

  pub Keeps-bind :
      (m : Action A) (f : A → Action B) → Keeps P m → ((a : A) → Keeps P (f a)) → Keeps P (m >>= f)
  Keeps-bind m f km kf = record { at = λ s h. and_then-Keeps f (m s).0 (m s).1 kf (km.at s h) }

pub ruleset keeps_rules =
    (Keeps-pure, Keeps-lift, Keeps-if, Keeps-best_now, Keeps-cache_now, Keeps-bind)

-- What the loops keep, if the body keeps it.
module _ {κ} (P : Listener → Type κ) (lib : Library)
    (kept : (node : Node) (fuel : ℕ) (block : Block) → Keeps P (on_block lib node fuel block)) where
  pub listen_for_blocks-Keeps :
      (fuel : ℕ) (items : Items) → Keeps P (listen_for_blocks lib fuel items)
  unfolding listen_for_blocks
  listen_for_blocks-Keeps fuel [] = search keeps_rules
  listen_for_blocks-Keeps fuel ((node, item) ∷ items) =
      Keeps-bind _ _ (Keeps-lift _)
        λ block. Keeps-bind _ _ (kept node fuel block) λ _. listen_for_blocks-Keeps fuel items

  reconnect-Keeps :
      (again : Action (Unit {0})) (res : Exec (Unit {0}))
      → Keeps P again
      → Keeps P (reconnect again res)
  unfolding reconnect
  reconnect-Keeps again (err (Error.rpc e)) k = k
  reconnect-Keeps again _ k = record { at = λ s h. h }

  listened-Keeps :
      (fuel : ℕ) (items : Items) (again : Action (Unit {0}))
      → Keeps P again
      → Keeps P (listened lib fuel items again)
  unfolding listened
  listened-Keeps fuel items again k = record {
    at = λ s h.
        (reconnect-Keeps again (listen_for_blocks lib fuel items s).0 k).at
          (listen_for_blocks lib fuel items s).1 ((listen_for_blocks-Keeps fuel items).at s h);
  }

  module _ (stored : (header : SubstrateHeader) → Keeps P (add_header lib.hashing header))
      (chosen : (best : HashAndNumber) → Keeps P (set_best best)) where
    add_headers-Keeps : (headers : List SubstrateHeader) → Keeps P (add_headers lib headers)
    unfolding add_headers
    add_headers-Keeps [] = search keeps_rules
    add_headers-Keeps (header ∷ headers) =
        Keeps-bind _ _ (stored header) λ added. add_headers-Keeps headers

    load-Keeps : (items : Items) → Keeps P (load_header_metadata_cache lib items)
    unfolding load_header_metadata_cache
    load-Keeps items = search (keeps_rules, add_headers-Keeps)

    pub listen_for_all_blocks-Keeps :
        (fuel : ℕ) (sessions : List Session) → Keeps P (listen_for_all_blocks lib fuel sessions)
    unfolding listen_for_all_blocks
    listen_for_all_blocks-Keeps fuel [] = search keeps_rules
    listen_for_all_blocks-Keeps fuel (session ∷ sessions) = Keeps-bind _ _ (Keeps-lift _) λ opened.
        Keeps-bind _ _ (load-Keeps session.items) λ loaded.
          Keeps-bind _ _ (chosen loaded.0)
            λ _. listened-Keeps fuel loaded.1 _ (listen_for_all_blocks-Keeps fuel sessions)

-- The cache of the listener is consistent.
abbrev pub HasCache : Hashing → Listener → Type 0
HasCache hashing s = IsConsistent hashing s.header_metadata

set_best-HasCache :
    (hashing : Hashing) (best : HashAndNumber) → Keeps (HasCache hashing) (set_best best)
set_best-HasCache hashing best = record { at = λ s h. h }

send-HasCache : (hashing : Hashing) (blocks : BlocksExt) → Keeps (HasCache hashing) (send blocks)
send-HasCache hashing blocks = record { at = λ s h. h }

remove_header_until-HasCache :
    (hashing : Hashing) (number : ℕ) → Keeps (HasCache hashing) (remove_header_until number)
unfolding remove_header_until
remove_header_until-HasCache hashing number = record {
  at = λ s h. after s h (Cache.remove_header_until number s.header_metadata) refl;
}
  where
    after :
        (s : Listener)
        → HasCache hashing s
        → (m : Exec HeadersMetadataCache) → Cache.remove_header_until number s.header_metadata ≡ m
        → HasCache hashing (keep_cache m s).1
    after s h (ok cache) e =
        remove_header_until-IsConsistent hashing number s.header_metadata cache h e
    after s h (err x) e = h
    after s h panic e = h
    after s h running e = h

module _ (lib : Library) (apart : NoCollision lib.hashing) where
  add_header-HasCache :
      (header : SubstrateHeader) → Keeps (HasCache lib.hashing) (add_header lib.hashing header)
  unfolding add_header
  add_header-HasCache header = record {
    at = λ s h. after s h (Cache.add_header lib.hashing header s.header_metadata) refl;
  }
    where
      after :
          (s : Listener)
          → HasCache lib.hashing s
          → (m : Exec (HeadersMetadataCache × ℕ))
          → Cache.add_header lib.hashing header s.header_metadata ≡ m
          → HasCache lib.hashing (keep m s).1
      after s h (ok (cache, k)) e =
          (add_header-IsConsistent lib.hashing apart header s.header_metadata cache k h e).0
      after s h (err x) e = h
      after s h panic e = h
      after s h running e = h

  route-HasCache :
      (node : Node) (fuel from to : ℕ)
      → Keeps (HasCache lib.hashing) (recursive_tree_route lib node fuel from to)
  route-HasCache node fuel from to = record {
    at = λ s h.
        Grown-IsConsistent lib.hashing apart
          ((recursive_tree_route-Grows lib node fuel from to).at s) h;
  }

  enact-HasCache :
      (number : ℕ) (route : TreeRoute) → Keeps (HasCache lib.hashing) (enact number route)
  unfolding enact
  enact-HasCache number route =
      search (keeps_rules, set_best-HasCache, send-HasCache, remove_header_until-HasCache) depth 9

  on_block-HasCache :
      (node : Node) (fuel : ℕ) (block : Block)
      → Keeps (HasCache lib.hashing) (on_block lib node fuel block)
  unfolding on_block import_best
  on_block-HasCache node fuel block =
      search (keeps_rules, add_header-HasCache, route-HasCache, enact-HasCache) depth 9

  -- Over all sessions, blocks, errors and reconnections, and however the listener ends, the cache's
  -- two maps agree if they did at the start, and no two headers of different heights have one hash.
  pub listen_for_all_blocks-IsConsistent :
      (fuel : ℕ) (sessions : List Session) (s : Listener)
      → IsConsistent lib.hashing s.header_metadata
      → IsConsistent lib.hashing (listen_for_all_blocks lib fuel sessions s).1.header_metadata
  listen_for_all_blocks-IsConsistent fuel sessions s v =
      (listen_for_all_blocks-Keeps (HasCache lib.hashing) lib on_block-HasCache add_header-HasCache
          (set_best-HasCache lib.hashing) fuel sessions).at
        s v
