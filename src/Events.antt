-- ===== src/Events.antt =====
-- alerter/src/events.rs: `watch_events`, which finds the events of each block, and alerts. The reading
-- of a block's events (subxt) and of an address (`AccountId::from_str`) are arguments.
pub mod Accounts
pub mod Transfers
pub mod Watching
mod Tests
use subspace_chain_alerts.Base.{
  List, [], ◌∷◌, ◌++◌, Option, none, some, map, get, insert, Map, Text, nat_eq,
}
use subspace_chain_alerts.Error.{
  Exec, ok, err, panic, running, ◌>>=◌, expect, Call, done, failed, try, from, Source,
}
use subspace_chain_alerts.Chain.{AccountId, BlockHash, BlockExt, BlocksExt}
use subspace_chain_alerts.EventTypes.{
  Event, IntoEvent, TransferEvent, TransferKnownAccountEvent, TransferDirection, sender, receiver,
  BalanceTransfer, BalanceDeposit, BalanceWithdraw, DomainRuntimeUpgraded, DomainInstantiated,
  FraudProofProcessed, OperatorSlashed, OperatorOffline, Sudo, CodeUpdated,
  transfer_known_account_into, domain_runtime_upgraded_into, domain_instantiated_into,
  fraud_proof_processed_into, operator_slashed_into, operator_offline_into, sudo_into,
  code_updated_into, withdraw_transfer, deposit_transfer, transfer_transfer,
}
use subspace_chain_alerts.Alert.{Alert}

-- alerter/src/main.rs, `Account`.
pub record Account : Type 0 where
  pub name : Text
  pub address : Text

-- `find::<E>().try_collect()` of a block's events, for each event type that is asked for.
pub record BlockEvents : Type 0 where
  pub balance_transfer : Call (List BalanceTransfer)
  pub balance_deposit : Call (List BalanceDeposit)
  pub balance_withdraw : Call (List BalanceWithdraw)
  pub domain_runtime_upgraded : Call (List DomainRuntimeUpgraded)
  pub domain_instantiated : Call (List DomainInstantiated)
  pub fraud_proof_processed : Call (List FraudProofProcessed)
  pub operator_slashed : Call (List OperatorSlashed)
  pub operator_offline : Call (List OperatorOffline)
  pub sudo : Call (List Sudo)
  pub code_updated : Call (List CodeUpdated)

-- The accounts are inserted in order: a later one with the same id takes the earlier one's place. An
-- address that is not valid is a panic.
unfoldable pub collect_accounts :
    (Text → Option AccountId) → Map AccountId Account → List Account → Exec (Map AccountId Account)
collect_accounts from_str collected [] = ok collected
collect_accounts from_str collected (account ∷ accounts) =
    expect (from_str account.address) >>= λ id.
    collect_accounts from_str (insert id account collected) accounts

unfoldable pub account_mapped_name :
    (Text → Option AccountId) → List Account → Exec (Map AccountId Account)
unfolding collect_accounts
account_mapped_name from_str accounts = collect_accounts from_str [] accounts

-- The report of a transfer by the account on one side of it, if there is one and it is known.
unfoldable pub report :
    {E : Type 0} ⦃t : TransferEvent E⦄
    → TransferDirection
    → Map AccountId Account
    → E
    → Option AccountId
    → Option TransferKnownAccountEvent
report direction accounts event none = none
report ⦃t⦄ direction accounts event (some id) = elim (get id accounts) [
  | none ↦ none
  | some account ↦ some (record {
    direction = direction;
    transfer_type = t.transfer_type event;
    name = account.name;
    address = account.address;
    amount = t.amount event;
  })
]

-- The closure of `filter_map`: the sender comes first.
unfoldable pub known_transfer :
    {E : Type 0} ⦃t : TransferEvent E⦄
    → Map AccountId Account
    → E
    → Option TransferKnownAccountEvent
unfolding report
known_transfer ⦃t⦄ accounts event = elim (report sender accounts event (t.from event)) [
  | none ↦ report receiver accounts event (t.to event)
  | some found ↦ some found
]

unfoldable pub add_known :
    Option TransferKnownAccountEvent
    → List TransferKnownAccountEvent
    → List TransferKnownAccountEvent
add_known none known = known
add_known (some transfer) known = transfer ∷ known

unfoldable pub filter_known_account_transfers :
    {E : Type 0} ⦃t : TransferEvent E⦄
    → List E
    → Map AccountId Account
    → List TransferKnownAccountEvent
unfolding known_transfer add_known
filter_known_account_transfers [] accounts = []
filter_known_account_transfers (event ∷ events) accounts =
    add_known (known_transfer accounts event) (filter_known_account_transfers events accounts)

unfoldable pub as_events : {E : Type 0} ⦃i : IntoEvent E⦄ → Call (List E) → Exec (List Event)
as_events ⦃i⦄ found = try Source.subxt_error found >>= λ events. ok (map i.into events)

-- The events of one block that are reported, in the order of the alerts.
unfoldable pub block_events : Map AccountId Account → BlockEvents → Exec (List Event)
unfolding filter_known_account_transfers as_events
block_events accounts found = do
  transfers ← try Source.subxt_error found.balance_transfer
  deposits ← try Source.subxt_error found.balance_deposit
  withdraws ← try Source.subxt_error found.balance_withdraw
  let known =
      filter_known_account_transfers transfers accounts
      ++ (filter_known_account_transfers deposits accounts
          ++ filter_known_account_transfers withdraws accounts)
  upgraded ← as_events found.domain_runtime_upgraded
  instantiated ← as_events found.domain_instantiated
  processed ← as_events found.fraud_proof_processed
  slashed ← as_events found.operator_slashed
  offline ← as_events found.operator_offline
  sudos ← as_events found.sudo
  codes ← as_events found.code_updated
  ok (
      map transfer_known_account_into.into known
      ++ (upgraded ++ (instantiated ++ (processed ++ (slashed ++ (offline ++ (sudos ++ codes)))))))

-- `block.events().await?` and what follows from it.
unfoldable pub events_of : Map AccountId Account → Call BlockEvents → Exec (List Event)
unfolding block_events
events_of accounts answer = try Source.subxt_error answer >>= block_events accounts

-- The alerts of a block are sent once all its events are known; then `rest` follows.
unfoldable pub send_events :
    Exec (List Event) → Exec (Unit {0}) × List Alert → Exec (Unit {0}) × List Alert
send_events (ok events) rest = (rest.0, map Alert.event events ++ rest.1)
send_events (err e) rest = (err e, [])
send_events panic rest = (panic, [])
send_events running rest = (running, [])

-- The `for` loop over the blocks of a message; `rest` is the next round of the outer loop.
unfoldable pub send_blocks :
    Map AccountId Account
    → (BlockHash → Call BlockEvents)
    → List BlockExt
    → Exec (Unit {0}) × List Alert
    → Exec (Unit {0}) × List Alert
unfolding send_events
send_blocks accounts events_at [] rest = rest
send_blocks accounts events_at (block ∷ blocks) rest =
    send_events (events_of accounts (events_at block.hash))
      (send_blocks accounts events_at blocks rest)

-- What `stream.recv()` gives, with the client's answers while it is handled.
pub record Received : Type 0 where
  pub message : Call BlocksExt
  pub events_at : BlockHash → Call BlockEvents

-- One message; `rest` is what the loop does after it.
unfoldable pub on_message :
    Map AccountId Account
    → (BlockHash → Call BlockEvents)
    → Call BlocksExt
    → Exec (Unit {0}) × List Alert
    → Exec (Unit {0}) × List Alert
unfolding send_blocks
on_message accounts events_at (done blocks_ext) rest =
    send_blocks accounts events_at blocks_ext.blocks rest
on_message accounts events_at (failed e) rest = (err (from Source.recv_error e), [])

-- The loop of `watch_events`: how it ends, or that it still waits, and the alerts.
unfoldable pub watch_loop : Map AccountId Account → List Received → Exec (Unit {0}) × List Alert
unfolding on_message
watch_loop accounts [] = (running, [])
watch_loop accounts (r ∷ received) =
    on_message accounts r.events_at r.message (watch_loop accounts received)

-- The loop on the accounts, unless they could not be read.
unfoldable pub with_accounts :
    Exec (Map AccountId Account) → List Received → Exec (Unit {0}) × List Alert
unfolding watch_loop
with_accounts (ok accounts) received = watch_loop accounts received
with_accounts (err e) received = (err e, [])
with_accounts panic received = (panic, [])
with_accounts running received = (running, [])

unfoldable pub watch_events :
    (Text → Option AccountId) → List Account → List Received → Exec (Unit {0}) × List Alert
unfolding account_mapped_name with_accounts
watch_events from_str accounts received =
    with_accounts (account_mapped_name from_str accounts) received
