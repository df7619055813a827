-- ===== src/Reading/Tests.antt =====
-- The reading of a block on small inputs.
use subspace_chain_alerts.Base.{
  ℕ, ◌≡◌, ◌↔◌, refl, List, [], ◌∷◌, some, Map, get, nat_eq, codes, show_ℕ,
}
use subspace_chain_alerts.Error.{ok, err, Call, done, failed, storage}
use subspace_chain_alerts.Chain.{BlockNumber, Slot, BlockExt}
use subspace_chain_alerts.Reading.{Bytes, Client, read_storage, slot, extrinsics}
use subspace_chain_alerts.Reading.Answers.{SlotAnswer, slot-SlotAnswer, Decodes, extrinsics_iff}

abbrev block : BlockExt
block = record { number = 7; hash = 70; parent_hash = 60; state_root = 0; extrinsics_root = 0 }

-- A client that has a table of slots, and a body of two extrinsics.
abbrev client : Client
client = record {
  fetch = λ hash pallet name arg_data. done (some (7 ∷ 900 ∷ []));
  block_body = λ hash. done (some ((1 ∷ []) ∷ (2 ∷ []) ∷ []));
  events_at = λ hash. failed [];
}

-- A table of one entry.
abbrev decode_table : Bytes → Call (Map BlockNumber Slot)
decode_table (number ∷ s ∷ []) = done ((number, s) ∷ [])
decode_table _ = failed (codes "not a table")

abbrev decode_byte : Bytes → Call ℕ
decode_byte (byte ∷ []) = done byte
decode_byte _ = failed (codes "not a byte")

slot-SlotAnswer_example : SlotAnswer decode_table client block (slot decode_table client block)
slot-SlotAnswer_example = slot-SlotAnswer decode_table client block

the_slot : slot decode_table client block ≡ ok 900
unfolding slot read_storage get
the_slot = refl

no_slot :
    slot decode_table client (record block { number = 8 })
    ≡ err (storage (codes "Missing slot for block: 8)"))
unfolding slot read_storage get show_ℕ
no_slot = refl

extrinsics_iff_example : (extrinsics decode_byte client block ≡ ok (1 ∷ 2 ∷ [])) ↔ (
    (body : List Bytes) × (client.block_body block.hash ≡ done (some body))
    × Decodes decode_byte body (1 ∷ 2 ∷ []))
extrinsics_iff_example = extrinsics_iff decode_byte client block (1 ∷ 2 ∷ [])
