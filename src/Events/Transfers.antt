-- ===== src/Events/Transfers.antt =====
-- alerter/src/events.rs: the reports of transfers that touch a known account.
use subspace_chain_alerts.Base.{
  ◌≡◌, refl, ◌⊎◌, inl, inr, List, [], ◌∷◌, Option, none, some, get, Map, Option-cases, arith,
  nat_eq,
}
use subspace_chain_alerts.Chain.{AccountId}
use subspace_chain_alerts.EventTypes.{
  TransferEvent, TransferKnownAccountEvent, TransferDirection, sender, receiver,
}
use subspace_chain_alerts.Events.{
  Account, report, known_transfer, add_known, filter_known_account_transfers,
}

-- There is no known account on a side of a transfer.
abbrev pub Unknown : Map AccountId Account → Option AccountId → Type 0
Unknown accounts side = (id : AccountId) → side ≡ some id → get id accounts ≡ none

module _ {E : Type 0} ⦃t : TransferEvent E⦄ (accounts : Map AccountId Account) where
  -- What is reported of a transfer by an account on one side of it.
  abbrev pub describe : TransferDirection → E → Account → TransferKnownAccountEvent
  describe direction event account = record {
    direction = direction;
    transfer_type = t.transfer_type event;
    name = account.name;
    address = account.address;
    amount = t.amount event;
  }

  -- A side of a transfer is a known account, and `reported` is the report by it.
  pub record KnownSide (direction : TransferDirection) (event : E) (side : Option AccountId)
      (reported : TransferKnownAccountEvent) : Type 0 where
    pub id : AccountId
    pub account : Account
    pub is_side : side ≡ some id
    pub is_known : get id accounts ≡ some account
    pub is_described : reported ≡ describe direction event account

  -- The reports that belong to some transfers, in their order.
  pub data Reports : List E → List TransferKnownAccountEvent → Type 0 where
    nothing : Reports [] []
    by_sender :
        {event : E} {events : List E} {reported : TransferKnownAccountEvent}
        {reports : List TransferKnownAccountEvent}
        → KnownSide sender event (t.from event) reported
        → Reports events reports
        → Reports (event ∷ events) (reported ∷ reports)
    by_receiver :
        {event : E} {events : List E} {reported : TransferKnownAccountEvent}
        {reports : List TransferKnownAccountEvent}
        → Unknown accounts (t.from event)
        → KnownSide receiver event (t.to event) reported
        → Reports events reports
        → Reports (event ∷ events) (reported ∷ reports)
    skipped :
        {event : E} {events : List E} {reports : List TransferKnownAccountEvent}
        → Unknown accounts (t.from event)
        → Unknown accounts (t.to event)
        → Reports events reports
        → Reports (event ∷ events) reports

  -- A report is given for a known side, and for no other.
  report-cases :
      (direction : TransferDirection) (event : E) (side : Option AccountId)
      → (Unknown accounts side × (report direction accounts event side ≡ none))
        ⊎ ((reported : TransferKnownAccountEvent) × KnownSide direction event side reported
            × (report direction accounts event side ≡ some reported))
  unfolding report
  report-cases direction event none = inl (λ id e. ground arith, refl)
  report-cases direction event (some id) = elim (Option-cases (get id accounts)) [
    | inl unknown ↦ inl (λ other e. ground arith, rw (unknown, report) refl)
    | inr (account, known) ↦ inr (
      describe direction event account,
      record { id = id; account = account; is_side = refl; is_known = known; is_described = refl },
      rw (known, report) refl,
    )
  ]

  -- The reports are those of the transfers with a known account, in the order of the transfers: by the
  -- sender if it is known, by the receiver if only that is known; the other transfers are skipped.
  pub filter_known_account_transfers-Reports :
      (events : List E) → Reports events (filter_known_account_transfers events accounts)
  unfolding filter_known_account_transfers
  filter_known_account_transfers-Reports [] = nothing
  filter_known_account_transfers-Reports (event ∷ events) =
      elim (report-cases sender event (t.from event)) [
        | inr (reported, side, given) ↦
            rw (known_transfer, given, add_known)
              (by_sender side (filter_known_account_transfers-Reports events))
        | inl (unknown, missing) ↦ elim (report-cases receiver event (t.to event)) [
          | inr (reported, side, given) ↦
              rw (known_transfer, missing, given, add_known)
                (by_receiver unknown side (filter_known_account_transfers-Reports events))
          | inl (both, nothing_given) ↦
              rw (known_transfer, missing, nothing_given, add_known)
                (skipped unknown both (filter_known_account_transfers-Reports events))
        ]
      ]
