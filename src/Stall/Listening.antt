-- ===== src/Stall/Listening.antt =====
-- alerter/src/stall_and_reorg.rs behind alerter/src/subspace.rs: the monitor on the messages of the
-- block listener.
use subspace_chain_alerts.Base.{◌≡◌, refl, List, [], ◌∷◌, Option, none, some}
use subspace_chain_alerts.Error.{ok, running, done}
use subspace_chain_alerts.Chain.{BlockHash, HashAndNumber, BlocksExt}
use subspace_chain_alerts.Config.{StallAndReorgConfig}
use subspace_chain_alerts.Monitor.{Input, received, timed_out, run, run-round}
use subspace_chain_alerts.Listener.Broadcast.{Follows}
use subspace_chain_alerts.Stall.{Watch, round, on_timeout, non_import_duration, best_of}
use subspace_chain_alerts.Stall.Timeouts.{message-round}

-- What the monitor sees of some messages, with waits that run out anywhere between them.
pub data Sees : List BlocksExt → List (Input BlocksExt) → Type 0 where
  nothing : Sees [] []
  message :
      {messages : List BlocksExt} {inputs : List (Input BlocksExt)} (m : BlocksExt)
      → Sees messages inputs
      → Sees (m ∷ messages) (received (done m) ∷ inputs)
  wait :
      {messages : List BlocksExt} {inputs : List (Input BlocksExt)}
      → Sees messages inputs
      → Sees messages (timed_out ∷ inputs)

-- The hash of the last best block, `from` if there is none yet.
abbrev pub best_hash : BlockHash → Option HashAndNumber → BlockHash
best_hash from none = from
best_hash from (some best) = best.hash

timeout-round :
    (config : StallAndReorgConfig) (w : Watch)
    → (w' : Watch) × ((round config w timed_out).0 ≡ ok w')
      × (w'.maybe_last_best_block ≡ w.maybe_last_best_block)
unfolding round on_timeout
timeout-round config w = (
  record {
    timeout_fired = some (non_import_duration config.non_block_import_threshold w.timeout_fired);
    maybe_last_best_block = w.maybe_last_best_block;
  },
  refl,
  refl,
)

-- On messages that follow one another from `from` to `to`, whatever waits run out between them, the
-- monitor stays in its loop, neither failing nor panicking, and its last best block is `to`.
pub run-Follows :
    (config : StallAndReorgConfig) (w : Watch)
    → {messages : List BlocksExt} {inputs : List (Input BlocksExt)} → Sees messages inputs
    → (to : BlockHash) → (from : BlockHash)
    → Follows (best_hash from w.maybe_last_best_block) messages to
    → ((run (round config) w inputs).ends ≡ running)
      × (best_hash from (run (round config) w inputs).state.maybe_last_best_block ≡ to)
run-Follows config w nothing to from f = unfold run in (refl, f)
run-Follows config w (message m sees) to from (next, step, f) =
    let (latest, found, hashed) = step.tip in
    let w' : Watch = record {
      timeout_fired = none;
      maybe_last_best_block = some (best_of latest);
    } in
    rw
      (run-round (round config) w (received (done m)) _ _ _ (message-round config w m latest found))
      (run-Follows config w' sees to from (rw hashed f))
run-Follows config w (wait sees) to from f =
    let (w', ok_w', same) = timeout-round config w in
    rw (run-round (round config) w timed_out _ (round config w timed_out).0 _ refl, ok_w')
      (run-Follows config w' sees to from (rw same f))
