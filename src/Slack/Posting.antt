-- ===== src/Slack/Posting.antt =====
-- alerter/src/slack.rs with alerter/src/md_format.rs: the requests of the posting loop.
use mathlib.Core.Path.{subst}
use subspace_chain_alerts.Base.{
  sym, ◌^◌, ◌≤◌, ◌≡◌, ◌⊎◌, refl, ap, List, [], ◌∷◌, map, Text, codes, All,
}
use subspace_chain_alerts.Error.{Exec, ok, err, panic, running, Call, done, failed, ◌>>=◌}
use subspace_chain_alerts.Error
use subspace_chain_alerts.EventTypes.{
  Event, TransferKnownAccountEvent, transfer, domain_runtime_upgraded, domain_instantiated,
  fraud_proof_processed, operator_slashed, operator_offline, sudo,
}
use subspace_chain_alerts.Alert.{
  Alert, event, chain_stall, chain_recovery, reorg, timekeeper_stall, timekeeper_recovery,
  slow_slot, avg_slow_slots,
}
use subspace_chain_alerts.Message.{
  Rendering, FormatConfig, format_alert, format_event, format_transfer, format_balance,
  transfer_text,
}
use subspace_chain_alerts.Message.Balances.{
  Has96Bits, Written, written, refused, format_balance-Written,
}
use subspace_chain_alerts.Slack.{
  SlackAlerter, PostRequest, Input, closed, alert, post_request, post, post_loop, run,
}

-- The alerts that were received before the stream was closed, if it was.
abbrev pub received : List Input → List Alert
received [] = []
received (closed ∷ inputs) = []
received (alert a answer ∷ inputs) = a ∷ received inputs

post_loop-received :
    (version : Text) (format : Alert → Exec Text) (text : Alert → Text) (slack : SlackAlerter)
    (inputs : List Input)
    → All (λ a. format a ≡ ok (text a)) (received inputs)
    → (post_loop version format slack inputs).1
      ≡ map (λ a. post_request version slack (text a)) (received inputs)
unfolding post_loop
post_loop-received version format text slack [] h = refl
post_loop-received version format text slack (closed ∷ inputs) h = refl
post_loop-received version format text slack (alert a answer ∷ inputs) h = rw h.0 (
    ap (λ l. post_request version slack (text a) ∷ l)
      (post_loop-received version format text slack inputs h.1))

-- Once the session is open, and where `text` is the text of every alert that is received, every one is
-- posted once, in the order in which they come, whether Slack takes the ones before or refuses them.
pub run-received :
    (version : Text) (r : Rendering) (config : FormatConfig) (text : Alert → Text)
    → (slack : SlackAlerter) (inputs : List Input)
    → All (λ a. format_alert r config a ≡ ok (text a)) (received inputs)
    → (run version r config slack (done tt) (done tt) inputs).1
      ≡ map (λ a. post_request version slack (text a)) (received inputs)
unfolding run
run-received version r config text slack inputs h =
    post_loop-received version (format_alert r config) text slack inputs h

-- What can become of an alert: its text, or a panic, which takes a transfer whose balance or whose
-- token's decimals are out of the decimals' range.
pub data Texted (r : Rendering) (config : FormatConfig) (a : Alert) : Type 0 where
  has_text : {text : Text} → format_alert r config a ≡ ok text → Texted r config a
  out_of_range :
      (t : TransferKnownAccountEvent)
      → a ≡ event (transfer t)
      → (2 ^ 96 ≤ t.amount) ⊎ (29 ≤ config.token_decimals)
      → format_alert r config a ≡ panic
      → Texted r config a

module _ (r : Rendering) (config : FormatConfig) where
  transfer-Texted :
      (t : TransferKnownAccountEvent) {result : Exec Text}
      → result ≡ format_balance r config t.amount
      → Written t.amount config.token_decimals result
      → Texted r config (event (transfer t))
  unfolding format_alert format_event format_transfer
  transfer-Texted t same (written {text = text} small few e) =
      has_text {text = transfer_text r config t text} (rw (← same, e))
  transfer-Texted t same (refused out e) = out_of_range t refl out (rw (← same, e))

  alert-Texted : Has96Bits r → (a : Alert) → Texted r config a
  unfolding format_alert format_event
  alert-Texted bits (event (transfer t)) =
      transfer-Texted t refl (format_balance-Written r bits config t.amount)
  alert-Texted bits (event (domain_runtime_upgraded e)) = has_text refl
  alert-Texted bits (event (domain_instantiated e)) = has_text refl
  alert-Texted bits (event (fraud_proof_processed e)) = has_text refl
  alert-Texted bits (event (operator_slashed e)) = has_text refl
  alert-Texted bits (event (operator_offline e)) = has_text refl
  alert-Texted bits (event sudo) = has_text refl
  alert-Texted bits (event (Event.code_updated e)) = has_text refl
  alert-Texted bits (chain_stall s) = has_text refl
  alert-Texted bits (chain_recovery s) = has_text refl
  alert-Texted bits (reorg s) = has_text refl
  alert-Texted bits (timekeeper_stall s) = has_text refl
  alert-Texted bits (timekeeper_recovery s) = has_text refl
  alert-Texted bits (slow_slot s) = has_text refl
  alert-Texted bits (avg_slow_slots s) = has_text refl

-- How the loop goes through its inputs: what it posts, and where it ends.
pub data Posted (version : Text) (r : Rendering) (config : FormatConfig) (slack : SlackAlerter)
    : List Input → Exec (Unit {0}) → List PostRequest → Type 0 where
  waits : Posted version r config slack [] running []
  closes :
      {inputs : List Input}
      → Posted version r config slack
          (closed ∷ inputs)
          (err (Error.app (codes "Slack stream closed")))
          []
  posts :
      {inputs : List Input} {ends : Exec (Unit {0})} {requests : List PostRequest} (a : Alert)
      (answer : Call (Unit {0})) (text : Text)
      → format_alert r config a ≡ ok text
      → Posted version r config slack inputs ends requests
      → Posted version r config slack
          (alert a answer ∷ inputs)
          ends
          (post_request version slack text ∷ requests)
  stops :
      {inputs : List Input} (t : TransferKnownAccountEvent) (answer : Call (Unit {0}))
      → (2 ^ 96 ≤ t.amount) ⊎ (29 ≤ config.token_decimals)
      → Posted version r config slack (alert (event (transfer t)) answer ∷ inputs) panic []

module _ (version : Text) (r : Rendering) (config : FormatConfig) (slack : SlackAlerter) where
  post-Posted :
      (a : Alert) (answer : Call (Unit {0})) (inputs : List Input)
      → (rest : Exec (Unit {0}) × List PostRequest) → Texted r config a
      → Posted version r config slack inputs rest.0 rest.1
      → Posted version r config slack
          (alert a answer ∷ inputs)
          (post version slack (format_alert r config a) rest).0
          (post version slack (format_alert r config a) rest).1
  unfolding post
  post-Posted a answer inputs rest (has_text {text = text} e) p = rw e (posts a answer text e p)
  post-Posted a answer inputs rest (out_of_range t same range e) p = rw e (
      subst (λ b. Posted version r config slack (alert b answer ∷ inputs) panic []) (sym same)
        (stops t answer range))

  post_loop-Posted :
      Has96Bits r
      → (inputs : List Input)
      → Posted version r config slack inputs
          (post_loop version (format_alert r config) slack inputs).0
          (post_loop version (format_alert r config) slack inputs).1
  unfolding post_loop
  post_loop-Posted bits [] = waits
  post_loop-Posted bits (closed ∷ inputs) = closes
  post_loop-Posted bits (alert a answer ∷ inputs) =
      post-Posted a answer inputs (post_loop version (format_alert r config) slack inputs)
        (alert-Texted r config bits a) (post_loop-Posted bits inputs)

  -- Once the session is open, the alerter posts the text of each alert in order, and ends only by the
  -- error of a closed stream, or by a panic at a transfer that rust_decimal cannot hold: of 2 ^ 96 or
  -- more, or with a token of more than 28 decimals. No answer of Slack's ends it.
  pub run-Posted :
      Has96Bits r
      → (inputs : List Input)
      → Posted version r config slack inputs
          (run version r config slack (done tt) (done tt) inputs).0
          (run version r config slack (done tt) (done tt) inputs).1
  unfolding run
  run-Posted bits inputs = post_loop-Posted bits inputs
