-- ===== src/Message/Kinds.antt =====
-- alerter/src/md_format.rs: the kind of an alert, and a reader that finds it in the alert's text.
use subspace_chain_alerts.Base.{
  ℕ, ◌≡◌, refl, List, [], ◌∷◌, Option, none, some, ◌==◌, if◌then◌else◌, Text, codes, text_eq, ◌===◌,
  arith,
}
use subspace_chain_alerts.Error.{ok, >>=-eq-ok}
use subspace_chain_alerts.EventTypes.{
  Event, TransferKnownAccountEvent, transfer, domain_runtime_upgraded, domain_instantiated,
  fraud_proof_processed, operator_slashed, operator_offline, sudo,
}
use subspace_chain_alerts.Alert.{
  Alert, event, chain_stall, chain_recovery, reorg, timekeeper_stall, timekeeper_recovery,
  slow_slot, avg_slow_slots,
}
use subspace_chain_alerts.Message.{
  Rendering, FormatConfig, format_alert, format_event, format_transfer, format_balance,
  transfer_text, format_fraud_proof, format_chain_stall, format_chain_recovery, format_reorg,
  format_timekeeper_stall, format_timekeeper_recovery, format_slow_slot, format_avg_slow_slot,
}

-- The kinds that the Slack channel tells apart.
pub data Kind : Type 0 where
  balance_transfer runtime_upgrade instantiation fraud_proof slashing offline sudo_call code_update
        stall recovery chain_reorg timekeeper_stop timekeeper_resume slow average_slow :
      Kind

abbrev pub event_kind : Event → Kind
event_kind (transfer t) = balance_transfer
event_kind (domain_runtime_upgraded e) = runtime_upgrade
event_kind (domain_instantiated e) = instantiation
event_kind (fraud_proof_processed e) = fraud_proof
event_kind (operator_slashed e) = slashing
event_kind (operator_offline e) = offline
event_kind sudo = sudo_call
event_kind (Event.code_updated e) = code_update

abbrev pub kind : Alert → Kind
kind (event e) = event_kind e
kind (chain_stall s) = stall
kind (chain_recovery s) = recovery
kind (reorg s) = chain_reorg
kind (timekeeper_stall s) = timekeeper_stop
kind (timekeeper_recovery s) = timekeeper_resume
kind (slow_slot s) = slow
kind (avg_slow_slots s) = average_slow

abbrev headings : List (Text × Kind)
headings =
    (codes "Balance transfer", balance_transfer)
    ∷ (codes "Domain runtime upgraded", runtime_upgrade)
    ∷ (codes "Domain instantiated", instantiation)
    ∷ (codes "Fraud proof processed", fraud_proof)
    ∷ (codes "Operator slashed", slashing)
    ∷ (codes "Operator offline", offline)
    ∷ (codes "Sudo event triggered", sudo_call)
    ∷ (codes "Runtime code updated", code_update)
    ∷ (codes "Block production stalled", stall)
    ∷ (codes "Block production resumed", recovery)
    ∷ (codes "Chain reorg", chain_reorg)
    ∷ (codes "Timekeeper stalled", timekeeper_stop)
    ∷ (codes "Timekeeper resumed", timekeeper_resume)
    ∷ (codes "Slow slot", slow)
    ∷ (codes "Average Slow slots", average_slow)
    ∷ []

find : Text → List (Text × Kind) → Option Kind
find heading [] = none
find heading ((h, k) ∷ table) = if h === heading then some k else find heading table

-- The text up to the next asterisk.
bold : Text → Text
bold [] = []
bold (c ∷ text) = let rest = bold text in if c == b'*' then [] else c ∷ rest

-- The kind that stands in bold at the start of a text.
pub read_kind : Text → Option Kind
unfolding find bold
read_kind (a ∷ b ∷ text) = if a == b'*' then find (bold text) headings else none
read_kind _ = none

read_kind-ok :
    (x text : Text) (k : Kind) → read_kind x ≡ some k → ok x ≡ ok text → read_kind text ≡ some k
read_kind-ok x text k found same = ground arith

module _ (r : Rendering) (config : FormatConfig) where
  read_kind-transfer_text :
      (t : TransferKnownAccountEvent) (amount : Text)
      → read_kind (transfer_text r config t amount) ≡ some balance_transfer
  unfolding read_kind transfer_text
  read_kind-transfer_text t amount = refl

  read_kind-format_transfer :
      (t : TransferKnownAccountEvent) (text : Text)
      → format_transfer r config t ≡ ok text
      → read_kind text ≡ some balance_transfer
  unfolding format_transfer
  read_kind-format_transfer t text h =
      let (amount, got, rest) =
        >>=-eq-ok (format_balance r config t.amount)
          (λ amount. ok (transfer_text r config t amount)) h in
      read_kind-ok (transfer_text r config t amount) text balance_transfer
        (read_kind-transfer_text t amount) rest

  read_kind-format_event :
      (e : Event) (text : Text)
      → format_event r config e ≡ ok text
      → read_kind text ≡ some (event_kind e)
  unfolding format_event read_kind
  read_kind-format_event (transfer t) text h = read_kind-format_transfer t text h
  read_kind-format_event (domain_runtime_upgraded e) text h =
      read_kind-ok _ text runtime_upgrade refl h
  read_kind-format_event (domain_instantiated e) text h = read_kind-ok _ text instantiation refl h
  read_kind-format_event (fraud_proof_processed e) text h =
      read_kind-ok _ text fraud_proof (read_kind-format_fraud_proof e.new_head_receipt_number) h
    where
      read_kind-format_fraud_proof :
          (number : Option ℕ)
          → read_kind (format_fraud_proof r config e.domain_id number) ≡ some fraud_proof
      read_kind-format_fraud_proof none = unfold read_kind format_fraud_proof in refl
      read_kind-format_fraud_proof (some n) = unfold read_kind format_fraud_proof in refl
  read_kind-format_event (operator_slashed e) text h = read_kind-ok _ text slashing refl h
  read_kind-format_event (operator_offline e) text h = read_kind-ok _ text offline refl h
  read_kind-format_event sudo text h = read_kind-ok _ text sudo_call refl h
  read_kind-format_event (Event.code_updated e) text h = read_kind-ok _ text code_update refl h

  -- From the text of an alert its kind can be read: the words in bold at its start tell the fifteen
  -- kinds of alerts apart, whatever the alert's other contents are.
  pub read_kind-format_alert :
      (a : Alert) (text : Text) → format_alert r config a ≡ ok text → read_kind text ≡ some (kind a)
  unfolding format_alert
  read_kind-format_alert (event e) text h = read_kind-format_event e text h
  read_kind-format_alert (chain_stall s) text h =
      read_kind-ok (format_chain_stall r config s) text stall
        (unfold read_kind format_chain_stall in refl) h
  read_kind-format_alert (chain_recovery s) text h =
      read_kind-ok (format_chain_recovery r config s) text recovery
        (unfold read_kind format_chain_recovery in refl) h
  read_kind-format_alert (reorg s) text h =
      read_kind-ok (format_reorg r config s) text chain_reorg
        (unfold read_kind format_reorg in refl) h
  read_kind-format_alert (timekeeper_stall s) text h =
      read_kind-ok (format_timekeeper_stall r config s) text timekeeper_stop
        (unfold read_kind format_timekeeper_stall in refl) h
  read_kind-format_alert (timekeeper_recovery s) text h =
      read_kind-ok (format_timekeeper_recovery r config s) text timekeeper_resume
        (unfold read_kind format_timekeeper_recovery in refl) h
  read_kind-format_alert (slow_slot s) text h =
      read_kind-ok (format_slow_slot r config s) text slow
        (unfold read_kind format_slow_slot in refl) h
  read_kind-format_alert (avg_slow_slots s) text h =
      read_kind-ok (format_avg_slow_slot r config s) text average_slow
        (unfold read_kind format_avg_slow_slot in refl) h
