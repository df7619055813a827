-- ===== src/Startup/Values.antt =====
-- alerter/src/main.rs: what the loops of its tasks return.
use subspace_chain_alerts.Base.{ℕ, ◌≡◌, List, [], ◌∷◌, Bool, Map, Text, arith}
use subspace_chain_alerts.Error.{
  Exec, ok, err, panic, running, Error, Call, done, failed, try, Source,
}
use subspace_chain_alerts.Chain.{AccountId, BlockHash, BlockExt, BlocksExt}
use subspace_chain_alerts.EventTypes.{Event}
use subspace_chain_alerts.Alert.{Alert}
use subspace_chain_alerts.Config.{Duration}
use subspace_chain_alerts.Monitor.{Run, Round, finish}
use subspace_chain_alerts.Monitor
use subspace_chain_alerts.Slack.{SlackAlerter, PostRequest, post, post_loop, after_auth}
use subspace_chain_alerts.Slack
use subspace_chain_alerts.Uptime.{push_loop, with_client}
use subspace_chain_alerts.Events.{
  Account, BlockEvents, Received, send_events, send_blocks, on_message, watch_loop, with_accounts,
  events_of,
}
use subspace_chain_alerts.Listener.Actions.{Library, Listener, Action, and_then}
use subspace_chain_alerts.Listener.Sessions.{
  Items, Session, listen_for_blocks, next_block, reconnect, listened, listen_for_all_blocks,
  load_header_metadata_cache,
}
use subspace_chain_alerts.Listener.Import.{on_block}

-- It has not returned a value.
abbrev pub NoValue {ℓ} : {A : Type ℓ} → Exec A → Type 0
NoValue (ok a) = ⊥
NoValue (err e) = Unit {0}
NoValue panic = Unit {0}
NoValue running = Unit {0}

pub NoValue-ok {ℓ} : {A : Type ℓ} (m : Exec A) {a : A} → NoValue m → m ≡ ok a → ⊥
NoValue-ok (ok x) h e = h
NoValue-ok (err x) h e = ground arith
NoValue-ok panic h e = ground arith
NoValue-ok running h e = ground arith

module _ {ℓ κ} {S : Type ℓ} {I : Type κ} (round : Round S I) where
  finish-NoValue :
      (s : S) (alerts : List Alert) (rest : S → Run S) (r : Exec S)
      → ((t : S) → NoValue (rest t).ends)
      → NoValue (finish s alerts rest r).ends
  finish-NoValue s alerts rest (ok t) h = h t
  finish-NoValue s alerts rest (err e) h = tt
  finish-NoValue s alerts rest panic h = tt
  finish-NoValue s alerts rest running h = tt

  pub run-NoValue : (s : S) (inputs : List I) → NoValue (Monitor.run round s inputs).ends
  unfolding Monitor.run
  run-NoValue s [] = tt
  run-NoValue s (i ∷ inputs) =
      finish-NoValue s (round s i).1 (λ t. Monitor.run round t inputs) (round s i).0
        (λ t. run-NoValue t inputs)

module _ (url : Text) (every : Duration) where
  pub push_loop-NoValue : (answers : List (Call Bool)) → NoValue (push_loop url every answers).0
  unfolding push_loop
  push_loop-NoValue [] = tt
  push_loop-NoValue (done s ∷ answers) = push_loop-NoValue answers
  push_loop-NoValue (failed e ∷ answers) = tt

pub with_client-NoValue :
    (interval : Exec (Unit {0})) (client : Call (Unit {0})) (rest : Exec (Unit {0}) × List Text)
    → NoValue rest.0
    → NoValue (with_client interval client rest).0
unfolding with_client
with_client-NoValue (ok x) (done y) rest h = h
with_client-NoValue (ok x) (failed e) rest h = tt
with_client-NoValue (err e) client rest h = tt
with_client-NoValue panic client rest h = tt
with_client-NoValue running client rest h = tt

post-NoValue :
    (version : Text) (slack : SlackAlerter) (text : Exec Text)
    → (rest : Exec (Unit {0}) × List PostRequest) → NoValue rest.0
    → NoValue (post version slack text rest).0
unfolding post
post-NoValue version slack (ok text) rest h = h
post-NoValue version slack (err e) rest h = tt
post-NoValue version slack panic rest h = tt
post-NoValue version slack running rest h = tt

pub post_loop-NoValue :
    (version : Text) (format : Alert → Exec Text) (slack : SlackAlerter)
    → (inputs : List Slack.Input) → NoValue (post_loop version format slack inputs).0
unfolding post_loop
post_loop-NoValue version format slack [] = tt
post_loop-NoValue version format slack (Slack.Input.closed ∷ inputs) = tt
post_loop-NoValue version format slack (Slack.Input.alert a answer ∷ inputs) =
    post-NoValue version slack (format a) (post_loop version format slack inputs)
      (post_loop-NoValue version format slack inputs)

pub after_auth-NoValue :
    (m : Exec (Unit {0})) (rest : Exec (Unit {0}) × List PostRequest)
    → NoValue rest.0
    → NoValue (after_auth m rest).0
unfolding after_auth
after_auth-NoValue (ok x) rest h = h
after_auth-NoValue (err e) rest h = tt
after_auth-NoValue panic rest h = tt
after_auth-NoValue running rest h = tt

send_events-NoValue :
    (found : Exec (List Event)) (rest : Exec (Unit {0}) × List Alert)
    → NoValue rest.0
    → NoValue (send_events found rest).0
unfolding send_events
send_events-NoValue (ok x) rest h = h
send_events-NoValue (err e) rest h = tt
send_events-NoValue panic rest h = tt
send_events-NoValue running rest h = tt

module _ (accounts : Map AccountId Account) where
  send_blocks-NoValue :
      (events_at : BlockHash → Call BlockEvents) (blocks : List BlockExt)
      → (rest : Exec (Unit {0}) × List Alert) → NoValue rest.0
      → NoValue (send_blocks accounts events_at blocks rest).0
  unfolding send_blocks
  send_blocks-NoValue events_at [] rest h = h
  send_blocks-NoValue events_at (block ∷ blocks) rest h =
      send_events-NoValue (events_of accounts (events_at block.hash))
        (send_blocks accounts events_at blocks rest) (send_blocks-NoValue events_at blocks rest h)

  on_message-NoValue :
      (events_at : BlockHash → Call BlockEvents) (message : Call BlocksExt)
      → (rest : Exec (Unit {0}) × List Alert) → NoValue rest.0
      → NoValue (on_message accounts events_at message rest).0
  unfolding on_message
  on_message-NoValue events_at (done m) rest h = send_blocks-NoValue events_at m.blocks rest h
  on_message-NoValue events_at (failed e) rest h = tt

  watch_loop-NoValue : (received : List Received) → NoValue (watch_loop accounts received).0
  unfolding watch_loop
  watch_loop-NoValue [] = tt
  watch_loop-NoValue (r ∷ received) =
      on_message-NoValue r.events_at r.message (watch_loop accounts received)
        (watch_loop-NoValue received)

pub with_accounts-NoValue :
    (accounts : Exec (Map AccountId Account)) (received : List Received)
    → NoValue (with_accounts accounts received).0
unfolding with_accounts
with_accounts-NoValue (ok accounts) received = watch_loop-NoValue accounts received
with_accounts-NoValue (err e) received = tt
with_accounts-NoValue panic received = tt
with_accounts-NoValue running received = tt

and_then-NoValue {ℓ κ} :
    {A : Type ℓ} {B : Type κ} (f : A → Action B) (m : Exec A) (s : Listener)
    → ((a : A) → NoValue (f a s).0)
    → NoValue (and_then f m s).0
and_then-NoValue f (ok a) s h = h a
and_then-NoValue f (err e) s h = tt
and_then-NoValue f panic s h = tt
and_then-NoValue f running s h = tt

module _ (lib : Library) (fuel : ℕ) where
  listen_for_blocks-NoValue :
      (items : Items) (s : Listener) → NoValue (listen_for_blocks lib fuel items s).0
  unfolding listen_for_blocks
  listen_for_blocks-NoValue [] s = tt
  listen_for_blocks-NoValue ((node, item) ∷ items) s =
      and_then-NoValue _ (next_block item) s (λ block.
        and_then-NoValue _ (on_block lib node fuel block s).0 (on_block lib node fuel block s).1
          (λ _. listen_for_blocks-NoValue items (on_block lib node fuel block s).1))

  reconnect-NoValue :
      (again : Action (Unit {0})) (m : Exec (Unit {0})) (s : Listener)
      → NoValue m
      → NoValue (again s).0
      → NoValue (reconnect again m s).0
  unfolding reconnect
  reconnect-NoValue again (err (Error.rpc e)) s h rest = rest
  reconnect-NoValue again m s h rest = h

  pub listen_for_all_blocks-NoValue :
      (sessions : List Session) (s : Listener)
      → NoValue (listen_for_all_blocks lib fuel sessions s).0
  unfolding listen_for_all_blocks listened
  listen_for_all_blocks-NoValue [] s = tt
  listen_for_all_blocks-NoValue (session ∷ sessions) s =
      and_then-NoValue _ (try Source.subxt_error session.subscribed) s (λ opened.
        let (loaded, t) = load_header_metadata_cache lib session.items s in
        and_then-NoValue _ loaded t (λ (best, rest).
          let u = record t { current_best_block = best } in
          let (res, v) = listen_for_blocks lib fuel rest u in
          reconnect-NoValue (listen_for_all_blocks lib fuel sessions) res v
            (listen_for_blocks-NoValue rest u) (listen_for_all_blocks-NoValue sessions v)))
