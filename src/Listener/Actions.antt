-- ===== src/Listener/Actions.antt =====
-- alerter/src/subspace.rs: the state of the block listener, and the actions that read and change it.
use subspace_chain_alerts.Base.{List, [], ◌∷◌, ◌++◌, Option}
use subspace_chain_alerts.Error.{Exec, ok, err, panic, running, Call}
use subspace_chain_alerts.Chain.{
  BlockHash, BlockNumber, Header, Hashing, SubstrateHeader, HashAndNumber, BlocksExt,
}
use subspace_chain_alerts.Cache.{HeadersMetadataCache}
use subspace_chain_alerts.Cache

-- The answers of the RPC node while one item of the subscription is handled.
pub record Node : Type 0 where
  pub chain_get_block_hash : BlockNumber → Call (Option BlockHash)
  pub chain_get_header : BlockHash → Call (Option SubstrateHeader)

-- `CachedHeaderMetadata`, as much as a route needs.
pub record HeaderMetadata : Type 0 where
  pub hash : BlockHash
  pub number : BlockNumber
  pub parent : BlockHash

-- What `TreeRoute` gives out: `retracted` from the old best block back, `enacted` up to the new.
pub record TreeRoute : Type 0 where
  pub retracted : List HashAndNumber
  pub enacted : List HashAndNumber
  pub common_block : HashAndNumber

-- The code of other crates that the listener calls.
pub record Library : Type 0 where
  pub hashing : Hashing
  pub metadata : Header → HeaderMetadata
  pub tree_route : (BlockHash → Exec HeaderMetadata) → BlockHash → BlockHash → Exec TreeRoute

-- `sent` is what was given to the broadcast channel, the oldest first.
pub record Listener : Type 0 where
  pub header_metadata : HeadersMetadataCache
  pub current_best_block : HashAndNumber
  pub sent : List BlocksExt

-- An action ends in some way and leaves the listener changed, also where it fails.
abbrev pub Action {ℓ} : Type ℓ → Type ℓ
Action A = Listener → Exec A × Listener

abbrev pub pure {ℓ} : {A : Type ℓ} → A → Action A
pure a s = (ok a, s)

abbrev pub lift {ℓ} : {A : Type ℓ} → Exec A → Action A
lift m s = (m, s)

abbrev pub and_then {ℓ κ} :
    {A : Type ℓ} {B : Type κ} → (A → Action B) → Exec A → Listener → Exec B × Listener
and_then f (ok a) s = f a s
and_then f (err e) s = (err e, s)
and_then f panic s = (panic, s)
and_then f running s = (running, s)

infixl 5 ◌>>=◌ ◌>>◌
abbrev pub ◌>>=◌ {ℓ κ} : {A : Type ℓ} {B : Type κ} → Action A → (A → Action B) → Action B
◌>>=◌ m f s = and_then f (m s).0 (m s).1

abbrev pub ◌>>◌ {ℓ} : {B : Type ℓ} → Action (Unit {0}) → Action B → Action B
m >> k = m >>= λ _. k

abbrev pub cache_now : Action HeadersMetadataCache
cache_now s = (ok s.header_metadata, s)

abbrev pub best_now : Action HashAndNumber
best_now s = (ok s.current_best_block, s)

abbrev pub set_best : HashAndNumber → Action (Unit {0})
set_best best s = (ok tt, record s { current_best_block = best })

-- `sink.send`: a refusal (no receiver is left) is logged and changes nothing.
abbrev pub send : BlocksExt → Action (Unit {0})
send blocks s = (ok tt, record s { sent = s.sent ++ blocks ∷ [] })

-- Keeps what a cache operation returns.
abbrev pub keep {ℓ} : {A : Type ℓ} → Exec (HeadersMetadataCache × A) → Listener → Exec A × Listener
keep (ok (cache, a)) s = (ok a, record s { header_metadata = cache })
keep (err e) s = (err e, s)
keep panic s = (panic, s)
keep running s = (running, s)

unfoldable pub add_header : Hashing → SubstrateHeader → Action BlockHash
add_header hashing header s = keep (Cache.add_header hashing header s.header_metadata) s

abbrev pub keep_cache : Exec HeadersMetadataCache → Listener → Exec (Unit {0}) × Listener
keep_cache (ok cache) s = (ok tt, record s { header_metadata = cache })
keep_cache (err e) s = (err e, s)
keep_cache panic s = (panic, s)
keep_cache running s = (running, s)

unfoldable pub remove_header_until : BlockNumber → Action (Unit {0})
remove_header_until number s = keep_cache (Cache.remove_header_until number s.header_metadata) s
