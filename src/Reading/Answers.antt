-- ===== src/Reading/Answers.antt =====
-- alerter/src/subspace.rs, the methods of `BlockExt`: what they return, by the client's answers.
use subspace_chain_alerts.Base.{
  ◌≡◌, ◌↔◌, refl, ap, ◌∙◌, List, [], ◌∷◌, Option, none, some, Map, get, nat_eq, Text, codes, concat,
  show_ℕ, Option-cases, inl, inr,
}
use subspace_chain_alerts.Error.{
  Exec, ok, err, Call, done, failed, Foreign, try, ok_or, traverse, subxt, scale, storage,
  missing_block_body, from, Source, >>=-eq-ok, ok-injective, try-ok, ok_or-some,
}
use subspace_chain_alerts.Chain.{BlockNumber, Slot, BlockExt}
use subspace_chain_alerts.Reading.{Bytes, Client, read_storage, slot, extrinsics}

-- The results of `slot`, each with the answers that lead to it.
pub data SlotAnswer (decode : Bytes → Call (Map BlockNumber Slot)) (client : Client)
    (block : BlockExt) : Exec Slot → Type 0 where
  not_fetched :
      (e : Foreign)
      → client.fetch block.hash (codes "Subspace") (codes "BlockSlots") [] ≡ failed e
      → SlotAnswer decode client block (err (subxt e))
  not_stored :
      client.fetch block.hash (codes "Subspace") (codes "BlockSlots") [] ≡ done none
      → SlotAnswer decode client block (err (storage (codes "Subspace.BlockSlots")))
  not_decoded :
      (bytes : Bytes) (e : Foreign)
      → client.fetch block.hash (codes "Subspace") (codes "BlockSlots") [] ≡ done (some bytes)
      → decode bytes ≡ failed e
      → SlotAnswer decode client block (err (scale e))
  not_listed :
      (bytes : Bytes) (slots : Map BlockNumber Slot) (message : Text)
      → client.fetch block.hash (codes "Subspace") (codes "BlockSlots") [] ≡ done (some bytes)
      → decode bytes ≡ done slots
      → get block.number slots ≡ none
      → message ≡ concat (codes "Missing slot for block: " ∷ show_ℕ block.number ∷ codes ")" ∷ [])
      → SlotAnswer decode client block (err (storage message))
  listed :
      (bytes : Bytes) (slots : Map BlockNumber Slot) (s : Slot)
      → client.fetch block.hash (codes "Subspace") (codes "BlockSlots") [] ≡ done (some bytes)
      → decode bytes ≡ done slots
      → get block.number slots ≡ some s
      → SlotAnswer decode client block (ok s)

-- The slot of a block is what the chain's table of slots has for the block's number; a client that
-- fails, a table that is not stored or cannot be decoded, and a number that is not in it are four
-- different errors.
pub slot-SlotAnswer :
    (decode : Bytes → Call (Map BlockNumber Slot)) (client : Client) (block : BlockExt)
    → SlotAnswer decode client block (slot decode client block)
unfolding slot read_storage from
slot-SlotAnswer decode client block =
    fetched (client.fetch block.hash (codes "Subspace") (codes "BlockSlots") []) refl
  where
    looked_up :
        (bytes : Bytes) (slots : Map BlockNumber Slot)
        → client.fetch block.hash (codes "Subspace") (codes "BlockSlots") [] ≡ done (some bytes)
        → decode bytes ≡ done slots
        → SlotAnswer decode client block (slot decode client block)
    looked_up bytes slots f d = elim (Option-cases (get block.number slots)) [
      | inl absent ↦ rw (f, d, absent) (not_listed bytes slots _ f d absent refl)
      | inr (s, present) ↦ rw (f, d, present) (listed bytes slots s f d present)
    ]

    decoded :
        (bytes : Bytes) (c : Call (Map BlockNumber Slot))
        → client.fetch block.hash (codes "Subspace") (codes "BlockSlots") [] ≡ done (some bytes)
        → decode bytes ≡ c
        → SlotAnswer decode client block (slot decode client block)
    decoded bytes (failed e) f d = rw (f, d) (not_decoded bytes e f d)
    decoded bytes (done slots) f d = looked_up bytes slots f d

    fetched :
        (c : Call (Option Bytes))
        → client.fetch block.hash (codes "Subspace") (codes "BlockSlots") [] ≡ c
        → SlotAnswer decode client block (slot decode client block)
    fetched (failed e) f = rw f (not_fetched e f)
    fetched (done none) f = rw f (not_stored f)
    fetched (done (some bytes)) f = decoded bytes (decode bytes) f refl

module _ {ℓ} {Ext : Type ℓ} (decode : Bytes → Call Ext) where
  -- Each extrinsic is decoded from the bytes in its place.
  pub data Decodes : List Bytes → List Ext → Type ℓ where
    no_more : Decodes [] []
    one_more :
        {encoded : List Bytes} {exts : List Ext} (bytes : Bytes) (ext : Ext)
        → decode bytes ≡ done ext
        → Decodes encoded exts
        → Decodes (bytes ∷ encoded) (ext ∷ exts)

  decode_all-ok :
      (body : List Bytes) (exts : List Ext)
      → traverse (λ bytes. try Source.codec_error (decode bytes)) body ≡ ok exts
      → Decodes body exts
  unfolding traverse
  decode_all-ok [] exts e = rw (← ok-injective e) no_more
  decode_all-ok (bytes ∷ body) exts e =
      let (ext, got, e') = >>=-eq-ok (try Source.codec_error (decode bytes)) _ e in
      let (others, got_others, e'') =
        >>=-eq-ok (traverse (λ bytes. try Source.codec_error (decode bytes)) body)
          (λ ys. ok (ext ∷ ys)) e' in
      rw (← ok-injective e'') (
        one_more bytes ext (try-ok Source.codec_error (decode bytes) got)
          (decode_all-ok body others got_others))

  decode_all-of_Decodes :
      {body : List Bytes} {exts : List Ext}
      → Decodes body exts
      → traverse (λ bytes. try Source.codec_error (decode bytes)) body ≡ ok exts
  unfolding traverse
  decode_all-of_Decodes no_more = refl
  decode_all-of_Decodes (one_more bytes ext d rest) = rw (d, decode_all-of_Decodes rest) refl

  -- The extrinsics of a block are returned exactly if the client has its body and each of its entries
  -- can be decoded; they are the decoded entries, one for each, in order.
  pub extrinsics_iff :
      (client : Client) (block : BlockExt) (exts : List Ext)
      → (extrinsics decode client block ≡ ok exts) ↔ (
          (body : List Bytes) × (client.block_body block.hash ≡ done (some body))
          × Decodes body exts)
  unfolding extrinsics
  extrinsics_iff client block exts = (
    (λ e.
        let (answer, fetched, e') =
          >>=-eq-ok (try Source.subxt_error (client.block_body block.hash)) _ e in
        let (body, present, decoded) =
          >>=-eq-ok (ok_or answer (missing_block_body block.hash)) _ e' in
        (
          body,
          try-ok Source.subxt_error (client.block_body block.hash) fetched
              ∙ ap done (ok_or-some answer _ present),
          decode_all-ok body exts decoded,
        )),
    (λ (body, fetched, decodes). rw fetched (decode_all-of_Decodes decodes)),
  )
