-- ===== src/Reading.antt =====
-- alerter/src/subspace.rs, the methods of `BlockExt`. The client is seen by its answers; decoding is an
-- argument.
pub mod Answers
mod Tests
use subspace_chain_alerts.Base.{
  ℕ, List, [], ◌∷◌, Option, Map, get, nat_eq, Text, codes, concat, show_ℕ,
}
use subspace_chain_alerts.Error.{
  Exec, Call, ◌>>=◌, try, ok_or, traverse, missing_block_body, Source,
}
use subspace_chain_alerts.Error
use subspace_chain_alerts.Chain.{BlockHash, BlockNumber, Slot, BlockExt}
use subspace_chain_alerts.Events.{BlockEvents}

abbrev pub Bytes : Type 0
Bytes = List ℕ

-- u64
abbrev pub Timestamp : Type 0
Timestamp = ℕ

-- What the client says of a block: a storage item, by its pallet, its name and its encoded arguments,
-- the encoded extrinsics, and the events.
pub record Client : Type 0 where
  pub fetch : BlockHash → Text → Text → Bytes → Call (Option Bytes)
  pub block_body : BlockHash → Call (Option (List Bytes))
  pub events_at : BlockHash → Call BlockEvents

unfoldable pub read_storage {ℓ} :
    {T : Type ℓ} → (Bytes → Call T) → Client → BlockExt → Text → Text → Bytes → Exec T
read_storage decode client block pallet storage arg_data = do
  fetched ← try Source.subxt_error (client.fetch block.hash pallet storage arg_data)
  encoded ← ok_or fetched (Error.storage (concat (pallet ∷ codes "." ∷ storage ∷ [])))
  try Source.codec_error (decode encoded)

-- `arg_data` is `()`, which encodes to nothing.
unfoldable pub timestamp : (Bytes → Call Timestamp) → Client → BlockExt → Exec Timestamp
unfolding read_storage
timestamp decode client block =
    read_storage decode client block (codes "Timestamp") (codes "Now") []

unfoldable pub slot : (Bytes → Call (Map BlockNumber Slot)) → Client → BlockExt → Exec Slot
unfolding read_storage
slot decode client block = do
  slots ← read_storage decode client block (codes "Subspace") (codes "BlockSlots") []
  ok_or (get block.number slots) (
      Error.storage
        (concat (codes "Missing slot for block: " ∷ show_ℕ block.number ∷ codes ")" ∷ [])))

unfoldable pub extrinsics {ℓ} :
    {Ext : Type ℓ} → (Bytes → Call Ext) → Client → BlockExt → Exec (List Ext)
extrinsics decode client block = do
  body ← try Source.subxt_error (client.block_body block.hash)
  encoded ← ok_or body (missing_block_body block.hash)
  traverse (λ ext. try Source.codec_error (decode ext)) encoded

unfoldable pub events : Client → BlockExt → Exec BlockEvents
events client block = try Source.subxt_error (client.events_at block.hash)
