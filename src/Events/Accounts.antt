-- ===== src/Events/Accounts.antt =====
-- alerter/src/events.rs: the known accounts, by id.
use subspace_chain_alerts.Base.{
  ◌≡◌, ◌≢◌, refl, List, [], ◌∷◌, Option, none, some, get, insert, get-insert, Map, Text,
  Option-cases, inl, inr, nat_eq, All, ◌==◌, if◌then◌else◌,
}
use subspace_chain_alerts.Error.{ok}
use subspace_chain_alerts.Chain.{AccountId}
use subspace_chain_alerts.Events.{Account, collect_accounts, account_mapped_name}

module _ (from_str : Text → Option AccountId) where
  -- `account` if its address is that of `id`, else `earlier`.
  abbrev if_id : AccountId → Account → Option AccountId → Option Account → Option Account
  if_id id account none earlier = earlier
  if_id id account (some own) earlier = if own == id then some account else earlier

  -- The last of some accounts whose address is that of `id`, else `earlier`.
  abbrev pub last_with : AccountId → Option Account → List Account → Option Account
  last_with id earlier [] = earlier
  last_with id earlier (account ∷ accounts) =
      last_with id (if_id id account (from_str account.address) earlier) accounts

  collect_accounts-get :
      (collected : Map AccountId Account) (accounts : List Account)
      → All (λ a. from_str a.address ≢ none) accounts
      → (found : Map AccountId Account) × (collect_accounts from_str collected accounts ≡ ok found)
        × ((id : AccountId) → get id found ≡ last_with id (get id collected) accounts)
  unfolding collect_accounts
  collect_accounts-get collected [] valid = (collected, refl, λ id. refl)
  collect_accounts-get collected (account ∷ accounts) valid =
      elim (Option-cases (from_str account.address)) [
        | inl invalid ↦ absurd (valid.0 invalid)
        | inr (own, parsed) ↦
            let (found, collects, finds) =
              collect_accounts-get (insert own account collected) accounts valid.1 in
            (
              found,
              rw (parsed, collect_accounts) collects,
              λ id. rw parsed (rw⁻¹ (get-insert own id account collected) (finds id)),
            )
      ]

  -- If every address is valid, the accounts are collected, and under each id the last account with
  -- that id is found, or none if there is none.
  pub account_mapped_name-get :
      (accounts : List Account)
      → All (λ a. from_str a.address ≢ none) accounts
      → (found : Map AccountId Account) × (account_mapped_name from_str accounts ≡ ok found)
        × ((id : AccountId) → get id found ≡ last_with id none accounts)
  unfolding account_mapped_name get
  account_mapped_name-get accounts valid = collect_accounts-get [] accounts valid
