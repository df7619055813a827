-- ===== src/Listener/Order.antt =====
-- alerter/src/subspace.rs: the order in which the first load of the cache adds its headers.
use subspace_chain_alerts.Base.{List}
use subspace_chain_alerts.Chain.{Header}
use subspace_chain_alerts.Cache.{HeadersMetadataCache}
use subspace_chain_alerts.Cache
use subspace_chain_alerts.Cache.View.{store_all}
use subspace_chain_alerts.Listener.Actions.{Library, Listener}

-- The listener after the storing of headers.
abbrev with_headers : Library → List Header → Listener → Listener
with_headers lib headers s = record s {
  header_metadata = store_all lib.hashing headers s.header_metadata;
}
