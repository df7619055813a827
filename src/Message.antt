-- ===== src/Message.antt =====
-- alerter/src/md_format.rs: the texts of the alerts. The other crates' texts of hashes, URLs, durations
-- and decimals are arguments; a decimal that rust_decimal cannot hold is a panic.
pub mod Kinds
pub mod Balances
pub mod BlockLists
pub mod Fixture
mod Tests
use subspace_chain_alerts.Base.{
  ℕ, ◌^◌, List, [], ◌∷◌, ◌++◌, Option, none, some, map, length, leb, ◌==◌, if◌then◌else◌, Text,
  codes, concat, show_ℕ,
}
use subspace_chain_alerts.Error.{Exec, ok, panic, ◌>>=◌}
use subspace_chain_alerts.Chain.{BlockHash, Balance, HashAndNumber}
use subspace_chain_alerts.Config.{Duration}
use subspace_chain_alerts.EventTypes.{
  Event, transfer, domain_runtime_upgraded, domain_instantiated, fraud_proof_processed,
  operator_slashed, operator_offline, sudo, DomainId, FraudProofProcessed, OperatorSlashed,
  OperatorOffline, SlashedReason, invalid_bundle, bad_execution_receipt, TransferKnownAccountEvent,
  TransferDirection, sender, receiver, TransferType, withdraw, deposit,
}
use subspace_chain_alerts.EventTypes
use subspace_chain_alerts.Alert.{
  Alert, event, chain_stall, chain_recovery, reorg, timekeeper_stall, timekeeper_recovery,
  slow_slot, avg_slow_slots, ChainStall, ChainRecovery, ChainReorg, TimekeeperStall,
  TimekeeperRecovery, SlowSlot, AvgSlowSlot,
}

-- `FormatConfig`
pub record FormatConfig : Type 0 where
  pub rpc_url : Text
  pub token_name : Text
  pub token_decimals : ℕ  -- u8

-- The code of other crates: `Display` of `H256`, `hex::encode`, `urlencoding::encode`,
-- `humantime::format_duration`, and rust_decimal's `From<u128>`, `Div` and `Display`.
pub record Rendering : Type 1 where
  pub display_hash : BlockHash → Text
  pub hex_encode : BlockHash → Text
  pub url_encode : Text → Text
  pub format_duration : Duration → Text
  pub Decimal : Type 0
  pub decimal_from : ℕ → Exec Decimal
  pub decimal_div : Decimal → Decimal → Exec Decimal
  pub display_decimal : Decimal → Text

-- `{:?}` of `DomainId(u32)`.
unfoldable pub debug_domain_id : DomainId → Text
debug_domain_id d = concat (codes "DomainId(" ∷ show_ℕ d.id ∷ codes ")" ∷ [])

-- `{:?}` of a string whose characters need no escape.
unfoldable pub debug_str : Text → Text
debug_str s = concat (codes "\"" ∷ s ∷ codes "\"" ∷ [])

unfoldable pub debug_direction : TransferDirection → Text
debug_direction sender = codes "Sender"
debug_direction receiver = codes "Receiver"

unfoldable pub debug_transfer_type : TransferType → Text
debug_transfer_type TransferType.transfer = codes "Transfer"
debug_transfer_type withdraw = codes "Withdraw"
debug_transfer_type deposit = codes "Deposit"

-- u128::MAX
abbrev pub u128_max : ℕ
u128_max = 340282366920938463463374607431768211455

-- `10u128.pow(…)`, an overflow being a panic.
unfoldable pub pow_10 : ℕ → Exec ℕ
pow_10 n = if leb (10 ^ n) u128_max then ok (10 ^ n) else panic

-- `join("\n")`
unfoldable pub join_lines : List Text → Text
join_lines [] = []
join_lines (line ∷ []) = line
join_lines (line ∷ line' ∷ lines) = line ++ (10 ∷ join_lines (line' ∷ lines))

module _ (r : Rendering) (config : FormatConfig) where
  unfoldable pub format_balance : Balance → Exec Text
  format_balance balance = do
    scaled ← r.decimal_from balance
    unit ← pow_10 config.token_decimals
    divisor ← r.decimal_from unit
    scaled_balance ← r.decimal_div scaled divisor
    ok (concat (r.display_decimal scaled_balance ∷ codes " " ∷ config.token_name ∷ []))

  unfoldable pub transfer_text : TransferKnownAccountEvent → Text → Text
  transfer_text t amount = concat (
      codes "**Balance transfer**\nDirection: "
      ∷ debug_direction t.direction
      ∷ codes "\nType: "
      ∷ debug_transfer_type t.transfer_type
      ∷ codes "\nAccount: "
      ∷ t.name
      ∷ codes "["
      ∷ t.address
      ∷ codes "]\nAmount:"
      ∷ amount
      ∷ [])

  unfoldable pub format_transfer : TransferKnownAccountEvent → Exec Text
  format_transfer t = do amount ← format_balance t.amount; ok (transfer_text t amount)

  unfoldable pub link_of : BlockHash → Text
  link_of hash = concat (
      codes "https://polkadot.js.org/apps/?rpc="
      ∷ r.url_encode config.rpc_url
      ∷ codes "#/explorer/query/0x"
      ∷ r.hex_encode hash
      ∷ [])

  unfoldable pub format_hash_and_number : HashAndNumber → Text
  format_hash_and_number block = concat (
      codes "["
      ∷ r.display_hash block.hash
      ∷ codes "]("
      ∷ link_of block.hash
      ∷ codes ") ("
      ∷ show_ℕ block.number
      ∷ codes ")"
      ∷ [])

  -- A line of the list.
  unfoldable pub list_line : HashAndNumber → Text
  list_line block = codes "- " ++ format_hash_and_number block

  unfoldable pub format_hash_and_number_list : List HashAndNumber → Text
  format_hash_and_number_list blocks = join_lines (map list_line blocks)

  unfoldable pub format_chain_recovery : ChainRecovery → Text
  format_chain_recovery recovery = concat (
      codes "**Block production resumed**\nBest block: "
      ∷ format_hash_and_number recovery.best_block
      ∷ codes "\nResumed after: "
      ∷ r.format_duration recovery.duration
      ∷ [])

  unfoldable pub format_slow_slot : SlowSlot → Text
  format_slow_slot s = concat (
      codes "**Slow slot**\nSlot: "
      ∷ show_ℕ s.slot
      ∷ codes "\nPrevious slot: "
      ∷ show_ℕ s.previous_slot
      ∷ codes "\nSlot time: "
      ∷ r.format_duration s.slot_time
      ∷ codes "\nThreshold: "
      ∷ r.format_duration s.threshold
      ∷ [])

  unfoldable pub format_avg_slow_slot : AvgSlowSlot → Text
  format_avg_slow_slot s = concat (
      codes "**Average Slow slots**\nSlot: "
      ∷ show_ℕ s.slot
      ∷ codes "\nSlot count: "
      ∷ show_ℕ s.slot_count
      ∷ codes "\nAvg Slot time: "
      ∷ r.format_duration s.avg_slot_time
      ∷ codes "\nThreshold: "
      ∷ r.format_duration s.threshold
      ∷ [])

  unfoldable pub format_timekeeper_recovery : TimekeeperRecovery → Text
  format_timekeeper_recovery recovery = concat (
      codes "**Timekeeper resumed**\nSlot: "
      ∷ show_ℕ recovery.slot
      ∷ codes "\nResumed after: "
      ∷ r.format_duration recovery.duration
      ∷ [])

  unfoldable pub format_reorg : ChainReorg → Text
  format_reorg alert = concat (
      codes "**Chain reorg**\nBest block: "
      ∷ format_hash_and_number alert.best_block
      ∷ codes "\nCommon block: "
      ∷ format_hash_and_number alert.common_block
      ∷ codes "\nRetracted blocks:\n"
      ∷ format_hash_and_number_list alert.retracted
      ∷ codes "\nEnacted blocks:\n"
      ∷ format_hash_and_number_list alert.enacted
      ∷ codes "\nReorg Depth: "
      ∷ show_ℕ (length alert.retracted)
      ∷ [])

  unfoldable pub format_chain_stall : ChainStall → Text
  format_chain_stall stall = concat (
      codes "**Block production stalled**\nLast block: "
      ∷ format_hash_and_number stall.last_block
      ∷ codes "\nTime since last block: "
      ∷ r.format_duration stall.duration
      ∷ [])

  unfoldable pub format_timekeeper_stall : TimekeeperStall → Text
  format_timekeeper_stall stall = concat (
      codes "**Timekeeper stalled**\nLast slot: "
      ∷ show_ℕ stall.last_slot
      ∷ codes "\nTime since last block: "
      ∷ r.format_duration stall.duration
      ∷ [])

  unfoldable pub format_fraud_proof : DomainId → Option ℕ → Text
  format_fraud_proof domain_id (some block_number) = concat (
      codes "**Fraud proof processed**\nDomain ID: "
      ∷ debug_domain_id domain_id
      ∷ codes "\nNew head receipt number: "
      ∷ show_ℕ block_number
      ∷ [])
  format_fraud_proof domain_id none =
      concat (codes "**Fraud proof processed**\nDomain ID: " ∷ debug_domain_id domain_id ∷ [])

  unfoldable pub format_reason : SlashedReason → Text
  format_reason (invalid_bundle n) = concat (codes "Invalid bundle at block: " ∷ show_ℕ n ∷ [])
  format_reason (bad_execution_receipt h) =
      concat (codes "Bad execution receipt: 0x" ∷ debug_str (r.hex_encode h) ∷ [])

  unfoldable pub format_event : Event → Exec Text
  format_event (transfer t) = format_transfer t
  format_event (domain_runtime_upgraded e) =
      ok (concat (codes "**Domain runtime upgraded**\nRuntime ID: " ∷ show_ℕ e.runtime_id ∷ []))
  format_event (domain_instantiated e) =
      ok (concat (codes "**Domain instantiated**\nDomain ID: " ∷ debug_domain_id e.domain_id ∷ []))
  format_event (fraud_proof_processed e) =
      ok (format_fraud_proof e.domain_id e.new_head_receipt_number)
  format_event (operator_slashed e) = ok (
      concat (
        codes "**Operator slashed**\nOperator ID: "
        ∷ show_ℕ e.operator_id
        ∷ codes "\nReason: "
        ∷ format_reason e.reason
        ∷ []))
  format_event (operator_offline e) = ok (
      concat (
        codes "**Operator offline**\nOperator ID: "
        ∷ show_ℕ e.operator_id
        ∷ codes "\nDomain ID: "
        ∷ debug_domain_id e.domain_id
        ∷ codes "\nSubmitted bundles: "
        ∷ show_ℕ e.submitted_bundles
        ∷ codes "\nExpected bundles: "
        ∷ show_ℕ e.expectations.expected_bundles
        ∷ codes "\nMin required bundles: "
        ∷ show_ℕ e.expectations.min_required_bundles
        ∷ []))
  format_event sudo = ok (codes "**Sudo event triggered**")
  format_event (Event.code_updated e) = ok (codes "**Runtime code updated**")

  unfoldable pub format_alert : Alert → Exec Text
  format_alert (event e) = format_event e
  format_alert (chain_stall s) = ok (format_chain_stall s)
  format_alert (chain_recovery s) = ok (format_chain_recovery s)
  format_alert (reorg s) = ok (format_reorg s)
  format_alert (timekeeper_stall s) = ok (format_timekeeper_stall s)
  format_alert (timekeeper_recovery s) = ok (format_timekeeper_recovery s)
  format_alert (slow_slot s) = ok (format_slow_slot s)
  format_alert (avg_slow_slots s) = ok (format_avg_slow_slot s)
