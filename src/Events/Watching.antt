-- ===== src/Events/Watching.antt =====
-- alerter/src/events.rs: the blocks of all messages as one sequence of steps.
use subspace_chain_alerts.Base.{◌≡◌, refl, List, [], ◌∷◌, ◌++◌, map, Map, map-append}
use subspace_chain_alerts.Error.{Exec, ok, err, panic, running, Call, done, failed, from, Source}
use subspace_chain_alerts.Chain.{AccountId, BlockHash, BlockExt, BlocksExt}
use subspace_chain_alerts.EventTypes.{Event}
use subspace_chain_alerts.Alert.{Alert}
use subspace_chain_alerts.Events.{
  Account, BlockEvents, Received, events_of, send_events, send_blocks, on_message, watch_loop,
}

-- The steps of some messages: the events of each block, or the error of a message that is not there.
abbrev pub steps_of :
    Map AccountId Account
    → (BlockHash → Call BlockEvents)
    → Call BlocksExt
    → List (Exec (List Event))
steps_of accounts events_at (done message) =
    map (λ block. events_of accounts (events_at block.hash)) message.blocks
steps_of accounts events_at (failed e) = err (from Source.recv_error e) ∷ []

abbrev pub steps : Map AccountId Account → List Received → List (Exec (List Event))
steps accounts [] = []
steps accounts (r ∷ received) = steps_of accounts r.events_at r.message ++ steps accounts received

-- The steps that were done, in order, and how it went on: `before` are the events of the steps before
-- the end, which is the first step that is not `ok`, or none.
pub data Stops : List (Exec (List Event)) → Exec (Unit {0}) → List Event → Type 0 where
  waits : Stops [] running []
  goes_on :
      {steps : List (Exec (List Event))} {ends : Exec (Unit {0})} {before : List Event}
      (events : List Event)
      → Stops steps ends before
      → Stops (ok events ∷ steps) ends (events ++ before)
  fails : {steps : List (Exec (List Event))} (e : _) → Stops (err e ∷ steps) (err e) []
  panics : {steps : List (Exec (List Event))} → Stops (panic ∷ steps) panic []
  hangs : {steps : List (Exec (List Event))} → Stops (running ∷ steps) running []

-- A loop's result is that of some steps: it ends where they stop, and its alerts are for the events
-- before.
pub record Reports (steps : List (Exec (List Event))) (result : Exec (Unit {0}) × List Alert)
    : Type 0 where
  pub events : List Event
  pub stops : Stops steps result.0 events
  pub alerts : result.1 ≡ map Alert.event events

send_events-Reports :
    (step : Exec (List Event)) (steps : List (Exec (List Event)))
    → (rest : Exec (Unit {0}) × List Alert) → Reports steps rest
    → Reports (step ∷ steps) (send_events step rest)
unfolding send_events
send_events-Reports (ok events) steps rest r = record {
  events = events ++ r.events;
  stops = goes_on events r.stops;
  alerts = rw (r.alerts, map-append) refl;
}
send_events-Reports (err e) steps rest r = record { events = []; stops = fails e; alerts = refl }
send_events-Reports panic steps rest r = record { events = []; stops = panics; alerts = refl }
send_events-Reports running steps rest r = record { events = []; stops = hangs; alerts = refl }

module _ (accounts : Map AccountId Account) where
  send_blocks-Reports :
      (events_at : BlockHash → Call BlockEvents) (blocks : List BlockExt)
      → (steps : List (Exec (List Event))) (rest : Exec (Unit {0}) × List Alert)
      → Reports steps rest
      → Reports
          (map (λ block. events_of accounts (events_at block.hash)) blocks ++ steps)
          (send_blocks accounts events_at blocks rest)
  unfolding send_blocks
  send_blocks-Reports events_at [] steps rest r = r
  send_blocks-Reports events_at (block ∷ blocks) steps rest r =
      send_events-Reports (events_of accounts (events_at block.hash)) _ _
        (send_blocks-Reports events_at blocks steps rest r)

  on_message-Reports :
      (events_at : BlockHash → Call BlockEvents) (message : Call BlocksExt)
      → (steps : List (Exec (List Event))) (rest : Exec (Unit {0}) × List Alert)
      → Reports steps rest
      → Reports
          (steps_of accounts events_at message ++ steps)
          (on_message accounts events_at message rest)
  unfolding on_message
  on_message-Reports events_at (done message) steps rest r =
      send_blocks-Reports events_at message.blocks steps rest r
  on_message-Reports events_at (failed e) steps rest r = record {
    events = [];
    stops = fails (from Source.recv_error e);
    alerts = refl;
  }

  -- The loop goes through the blocks of the messages in order. It stops at the first block whose events
  -- cannot be read, or the first message that cannot be received, with that error, and it alerts for
  -- exactly the events of the blocks before, in order, and for none of the block that failed.
  pub watch_loop-Reports :
      (received : List Received) → Reports (steps accounts received) (watch_loop accounts received)
  unfolding watch_loop
  watch_loop-Reports [] = record { events = []; stops = waits; alerts = refl }
  watch_loop-Reports (r ∷ received) =
      on_message-Reports r.events_at r.message (steps accounts received)
        (watch_loop accounts received) (watch_loop-Reports received)
