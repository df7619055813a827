-- ===== src/Events/Tests.antt =====
-- The event monitor on small inputs.
use subspace_chain_alerts.Base.{
  ℕ, ◌≡◌, List, [], ◌∷◌, Option, none, some, get, Map, Text, arith, nat_eq, ◌==◌, if◌then◌else◌,
}
use subspace_chain_alerts.Error.{ok, done, failed}
use subspace_chain_alerts.Chain.{AccountId, BlockExt}
use subspace_chain_alerts.EventTypes.{
  BalanceTransfer, sudo_event, transfer_transfer, withdraw_transfer,
}
use subspace_chain_alerts.Events.{
  Account, BlockEvents, Received, account_mapped_name, filter_known_account_transfers, watch_loop,
}
use subspace_chain_alerts.Events.Accounts.{last_with, account_mapped_name-get}
use subspace_chain_alerts.Events.Transfers.{Reports, filter_known_account_transfers-Reports}
use subspace_chain_alerts.Events.Watching
use subspace_chain_alerts.Events.Watching.{steps, watch_loop-Reports}

-- An address is valid if it is not empty; its id is its first number.
abbrev from_str : Text → Option AccountId
from_str [] = none
from_str (c ∷ text) = some c

abbrev treasury : Account
treasury = record { name = 1 ∷ []; address = 7 ∷ [] }

abbrev renamed : Account
renamed = record { name = 2 ∷ []; address = 7 ∷ 0 ∷ [] }

abbrev sudo_account : Account
sudo_account = record { name = 3 ∷ []; address = 9 ∷ [] }

account_mapped_name-get_example :
    (found : Map AccountId Account) × (account_mapped_name from_str
        (treasury ∷ sudo_account ∷ renamed ∷ [])
      ≡ ok found)
    × ((id : AccountId)
        → get id found ≡ last_with from_str id none (treasury ∷ sudo_account ∷ renamed ∷ []))
account_mapped_name-get_example =
    account_mapped_name-get from_str (treasury ∷ sudo_account ∷ renamed ∷ [])
      ((λ e. ground arith), ((λ e. ground arith), ((λ e. ground arith), tt)))

abbrev accounts : Map AccountId Account
accounts = (7, treasury) ∷ (9, sudo_account) ∷ []

abbrev paid : ℕ → ℕ → BalanceTransfer
paid from to = record { from = from; to = to; amount = 100 }

filter_known_account_transfers-Reports_example :
    Reports accounts
      (paid 7 9 ∷ paid 1 2 ∷ paid 1 9 ∷ [])
      (filter_known_account_transfers (paid 7 9 ∷ paid 1 2 ∷ paid 1 9 ∷ []) accounts)
filter_known_account_transfers-Reports_example =
    filter_known_account_transfers-Reports accounts (paid 7 9 ∷ paid 1 2 ∷ paid 1 9 ∷ [])

abbrev found_events : BlockEvents
found_events = record {
  balance_transfer = done (paid 7 9 ∷ []);
  balance_deposit = done [];
  balance_withdraw = done [];
  domain_runtime_upgraded = done [];
  domain_instantiated = done [];
  fraud_proof_processed = done [];
  operator_slashed = done [];
  operator_offline = done [];
  sudo = done [];
  code_updated = done [];
}

abbrev block : ℕ → BlockExt
block hash = record {
  number = 1;
  hash = hash;
  parent_hash = 0;
  state_root = 0;
  extrinsics_root = 0;
}

-- Two blocks, of which the second cannot be read.
abbrev received : List Received
received =
    record {
      message = done (record { blocks = block 5 ∷ block 6 ∷ []; maybe_reorg_data = none });
      events_at = λ hash. if hash == 5 then done found_events else failed (1 ∷ []);
    }
    ∷ []

watch_loop-Reports_example :
    Watching.Reports (steps accounts received) (watch_loop accounts received)
watch_loop-Reports_example = watch_loop-Reports accounts received
