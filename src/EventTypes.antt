-- ===== src/EventTypes.antt =====
-- alerter/src/event_types.rs: the events that are watched, the pallet and name under which each is
-- found, the transfers' common interface, and the conversions into `Event`.
use subspace_chain_alerts.Base.{ℕ, Option, none, some, Text, codes, ◌++◌, show_ℕ}
use subspace_chain_alerts.Chain.{AccountId, Balance, BlockHash, BlockNumber}

-- u32
abbrev pub RuntimeId : Type 0
RuntimeId = ℕ

-- u64
abbrev pub OperatorId : Type 0
OperatorId = ℕ

-- `DomainId(u32)`
pub record DomainId : Type 0 where
  pub id : ℕ

-- `Display for DomainId`.
unfoldable pub display_domain_id : DomainId → Text
unfolding show_ℕ
display_domain_id d = codes "Domain(" ++ (show_ℕ d.id ++ codes ")")

pub record DomainRuntimeUpgraded : Type 0 where
  pub runtime_id : RuntimeId

pub record DomainInstantiated : Type 0 where
  pub domain_id : DomainId

pub record FraudProofProcessed : Type 0 where
  pub domain_id : DomainId
  pub new_head_receipt_number : Option BlockNumber

pub data SlashedReason : Type 0 where
  invalid_bundle : BlockNumber → SlashedReason
  bad_execution_receipt : BlockHash → SlashedReason

pub record OperatorSlashed : Type 0 where
  pub operator_id : OperatorId
  pub reason : SlashedReason

pub record OperatorEpochExpectations : Type 0 where
  pub expected_bundles : ℕ
  pub min_required_bundles : ℕ

pub record OperatorOffline : Type 0 where
  pub operator_id : OperatorId
  pub domain_id : DomainId
  pub submitted_bundles : ℕ
  pub expectations : OperatorEpochExpectations

pub record BalanceWithdraw : Type 0 where
  pub who : AccountId
  pub amount : Balance

pub record BalanceDeposit : Type 0 where
  pub who : AccountId
  pub amount : Balance

pub record BalanceTransfer : Type 0 where
  pub from : AccountId
  pub to : AccountId
  pub amount : Balance

-- `DispatchResult`, by its SCALE bytes: the code never looks at it.
pub record Sudo : Type 0 where
  pub sudo_result : Text

pub data CodeUpdated : Type 0 where
  code_updated : CodeUpdated

pub data TransferDirection : Type 0 where
  sender receiver : TransferDirection

pub data TransferType : Type 0 where
  transfer withdraw deposit : TransferType

pub record TransferKnownAccountEvent : Type 0 where
  pub direction : TransferDirection
  pub transfer_type : TransferType
  pub name : Text
  pub address : Text
  pub amount : Balance

pub data Event : Type 0 where
  transfer : TransferKnownAccountEvent → Event
  domain_runtime_upgraded : DomainRuntimeUpgraded → Event
  domain_instantiated : DomainInstantiated → Event
  fraud_proof_processed : FraudProofProcessed → Event
  operator_slashed : OperatorSlashed → Event
  operator_offline : OperatorOffline → Event
  sudo : Event
  code_updated : CodeUpdated → Event

-- `StaticEvent`: where an event type is found.
pub record StaticEvent (E : Type 0) : Type 0 where
  pub pallet : Text
  pub event : Text

-- `Into<Event>`.
pub record IntoEvent (E : Type 0) : Type 0 where
  pub into : E → Event

-- `TransferEvent`.
pub record TransferEvent (E : Type 0) : Type 0 where
  pub transfer_type : E → TransferType
  pub amount : E → Balance
  pub from : E → Option AccountId
  pub to : E → Option AccountId

instance abbrev pub domain_runtime_upgraded_event : StaticEvent DomainRuntimeUpgraded
domain_runtime_upgraded_event = record {
  pallet = codes "Domains";
  event = codes "DomainRuntimeUpgraded";
}

instance abbrev pub domain_instantiated_event : StaticEvent DomainInstantiated
domain_instantiated_event = record { pallet = codes "Domains"; event = codes "DomainInstantiated" }

instance abbrev pub fraud_proof_processed_event : StaticEvent FraudProofProcessed
fraud_proof_processed_event = record {
  pallet = codes "Domains";
  event = codes "FraudProofProcessed";
}

instance abbrev pub operator_slashed_event : StaticEvent OperatorSlashed
operator_slashed_event = record { pallet = codes "Domains"; event = codes "OperatorSlashed" }

instance abbrev pub operator_offline_event : StaticEvent OperatorOffline
operator_offline_event = record { pallet = codes "Domains"; event = codes "OperatorOffline" }

instance abbrev pub balance_withdraw_event : StaticEvent BalanceWithdraw
balance_withdraw_event = record { pallet = codes "Balances"; event = codes "Withdraw" }

instance abbrev pub balance_deposit_event : StaticEvent BalanceDeposit
balance_deposit_event = record { pallet = codes "Balances"; event = codes "Deposit" }

instance abbrev pub balance_transfer_event : StaticEvent BalanceTransfer
balance_transfer_event = record { pallet = codes "Balances"; event = codes "Transfer" }

instance abbrev pub sudo_event : StaticEvent Sudo
sudo_event = record { pallet = codes "Sudo"; event = codes "Sudid" }

instance abbrev pub code_updated_event : StaticEvent CodeUpdated
code_updated_event = record { pallet = codes "System"; event = codes "CodeUpdated" }

instance abbrev pub transfer_known_account_into : IntoEvent TransferKnownAccountEvent
transfer_known_account_into = record { into = transfer }

instance abbrev pub domain_runtime_upgraded_into : IntoEvent DomainRuntimeUpgraded
domain_runtime_upgraded_into = record { into = domain_runtime_upgraded }

instance abbrev pub domain_instantiated_into : IntoEvent DomainInstantiated
domain_instantiated_into = record { into = domain_instantiated }

instance abbrev pub fraud_proof_processed_into : IntoEvent FraudProofProcessed
fraud_proof_processed_into = record { into = fraud_proof_processed }

instance abbrev pub operator_slashed_into : IntoEvent OperatorSlashed
operator_slashed_into = record { into = operator_slashed }

instance abbrev pub operator_offline_into : IntoEvent OperatorOffline
operator_offline_into = record { into = operator_offline }

instance abbrev pub sudo_into : IntoEvent Sudo
sudo_into = record { into = λ value. sudo }

instance abbrev pub code_updated_into : IntoEvent CodeUpdated
code_updated_into = record { into = Event.code_updated }

instance abbrev pub withdraw_transfer : TransferEvent BalanceWithdraw
withdraw_transfer = record {
  transfer_type = λ e. withdraw;
  amount = λ e. e.amount;
  from = λ e. some e.who;
  to = λ e. none;
}

instance abbrev pub deposit_transfer : TransferEvent BalanceDeposit
deposit_transfer = record {
  transfer_type = λ e. deposit;
  amount = λ e. e.amount;
  from = λ e. none;
  to = λ e. some e.who;
}

instance abbrev pub transfer_transfer : TransferEvent BalanceTransfer
transfer_transfer = record {
  transfer_type = λ e. TransferType.transfer;
  amount = λ e. e.amount;
  from = λ e. some e.from;
  to = λ e. some e.to;
}
