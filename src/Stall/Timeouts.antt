-- ===== src/Stall/Timeouts.antt =====
-- alerter/src/stall_and_reorg.rs: waits that run out one after the other.
use subspace_chain_alerts.Base.{
  ℕ, zero, suc, ◌+◌, ◌*◌, ◌≤◌, ◌≡◌, refl, ◌∙◌, append-nil, List, [], ◌∷◌, ◌++◌, Option, none, some,
  replicate, min, arith, last,
}
use subspace_chain_alerts.Error.{ok, running, done}
use subspace_chain_alerts.Chain.{HashAndNumber, BlockExt, BlocksExt}
use subspace_chain_alerts.Config.{Duration, duration_max, StallAndReorgConfig}
use subspace_chain_alerts.Alert.{Alert, chain_stall, chain_recovery}
use subspace_chain_alerts.Monitor.{Input, received, timed_out, run, run-round, after}
use subspace_chain_alerts.Stall.{
  Watch, start, round, on_timeout, on_blocks, non_import_duration, stall_alert, recovery_alert,
  reorg_alert, best_of,
}

-- `k` waits of `threshold`, as long as a `Duration` can say.
abbrev pub waited : Duration → ℕ → Duration
waited threshold k = min (k * threshold) duration_max

-- The alerts of the waits number `k`, `k + 1`, …, `n` of them.
abbrev pub stalls : HashAndNumber → Duration → ℕ → ℕ → List Alert
stalls last_block threshold k zero = []
stalls last_block threshold k (suc n) =
    chain_stall (record { last_block = last_block; duration = waited threshold k })
    ∷ stalls last_block threshold (suc k) n

-- What is remembered of `k` waits.
abbrev pub remembered : Duration → ℕ → Option Duration
remembered threshold zero = none
remembered threshold (suc k) = some (waited threshold (suc k))

pub next_duration :
    (threshold : Duration) (k : ℕ)
    → threshold ≤ duration_max
    → non_import_duration threshold (remembered threshold k) ≡ waited threshold (suc k)
unfolding non_import_duration
next_duration threshold zero h = omega arith
next_duration threshold (suc k) h = omega arith

-- The state after `k` waits.
abbrev pub waiting : Duration → Option HashAndNumber → ℕ → Watch
waiting threshold last_block k = record {
  timeout_fired = remembered threshold k;
  maybe_last_best_block = last_block;
}

timeouts-run_from :
    (config : StallAndReorgConfig) (last_block : HashAndNumber) (n k : ℕ)
    → (rest : List (Input BlocksExt)) → config.non_block_import_threshold ≤ duration_max
    → run
        (round config)
        (waiting config.non_block_import_threshold (some last_block) k)
        (replicate n timed_out ++ rest)
      ≡ after (stalls last_block config.non_block_import_threshold (suc k) n) (
          run
            (round config)
            (waiting config.non_block_import_threshold (some last_block) (k + n))
            rest)
unfolding run round on_timeout stall_alert
timeouts-run_from config last_block zero k rest h = let e : k + 0 ≡ k = omega arith in rw e
timeouts-run_from config last_block (suc n) k rest h =
    let e : suc k + n ≡ k + suc n = omega arith in
    rw (
      next_duration config.non_block_import_threshold k h,
      timeouts-run_from config last_block n (suc k) rest h,
      e,
    )

silence-run_from :
    (config : StallAndReorgConfig) (n k : ℕ) (rest : List (Input BlocksExt))
    → config.non_block_import_threshold ≤ duration_max
    → run
        (round config)
        (waiting config.non_block_import_threshold none k)
        (replicate n timed_out ++ rest)
      ≡ run (round config) (waiting config.non_block_import_threshold none (k + n)) rest
unfolding run round on_timeout stall_alert
silence-run_from config zero k rest h = let e : k + 0 ≡ k = omega arith in rw e
silence-run_from config (suc n) k rest h =
    let e : suc k + n ≡ k + suc n = omega arith in
    rw (
      next_duration config.non_block_import_threshold k h,
      silence-run_from config n (suc k) rest h,
      e,
    )

-- A message: what is remembered of the waits goes into the recovery alert.
pub message-round :
    (config : StallAndReorgConfig) (w : Watch) (message : BlocksExt) (latest : BlockExt)
    → last message.blocks ≡ some latest
    → round config w (received (done message)) ≡ (
      ok (record { timeout_fired = none; maybe_last_best_block = some (best_of latest) }),
      recovery_alert (best_of latest) w.timeout_fired
          ++ reorg_alert config.reorg_depth_threshold (best_of latest) message.maybe_reorg_data,
    )
unfolding round on_blocks
message-round config w message latest e = rw (e, on_blocks)

-- The first message after `n` waits: the recovery alert has the time of all of them.
message-run :
    (config : StallAndReorgConfig) (last_block : Option HashAndNumber) (n : ℕ)
    → (message : BlocksExt) (latest : BlockExt) → last message.blocks ≡ some latest
    → run
        (round config)
        (waiting config.non_block_import_threshold last_block (suc n))
        (received (done message) ∷ [])
      ≡ record {
        ends = running;
        state = record { timeout_fired = none; maybe_last_best_block = some (best_of latest) };
        alerts =
            chain_recovery (record {
              best_block = best_of latest;
              duration = waited config.non_block_import_threshold (suc n);
            })
            ∷ reorg_alert config.reorg_depth_threshold (best_of latest) message.maybe_reorg_data;
      }
unfolding run recovery_alert
message-run config last_block n message latest e =
    let w = waiting config.non_block_import_threshold last_block (suc n) in
    rw (
      run-round (round config) w (received (done message)) [] _ _
          (message-round config w message latest e),
      append-nil,
    )

-- A chain that stalls for `n + 1` waits and then goes on gives one stall alert for every wait, with
-- the time since the stall began (up to the longest `Duration`), then one recovery alert with the
-- whole time, then the re-org alert of the message if it is due; the time-out is forgotten.
pub stall_episode :
    (config : StallAndReorgConfig) (last_block : HashAndNumber) (n : ℕ)
    → (message : BlocksExt) (latest : BlockExt) → config.non_block_import_threshold ≤ duration_max
    → last message.blocks ≡ some latest
    → run
        (round config)
        (record { timeout_fired = none; maybe_last_best_block = some last_block })
        (replicate (suc n) timed_out ++ received (done message) ∷ [])
      ≡ record {
        ends = running;
        state = record { timeout_fired = none; maybe_last_best_block = some (best_of latest) };
        alerts =
            stalls last_block config.non_block_import_threshold 1 (suc n)
            ++ chain_recovery (record {
              best_block = best_of latest;
              duration = waited config.non_block_import_threshold (suc n);
            })
              ∷ reorg_alert config.reorg_depth_threshold (best_of latest) message.maybe_reorg_data;
      }
stall_episode config last_block n message latest h e =
    let whole : 0 + suc n ≡ suc n = omega arith in
    timeouts-run_from config last_block (suc n) 0 (received (done message) ∷ []) h
    ∙ rw (whole, message-run config (some last_block) n message latest e) refl

-- Before the first message no stall alert is sent, however many waits run out; the first message
-- still gives a recovery alert with the time of all of them.
pub late_start :
    (config : StallAndReorgConfig) (n : ℕ) (message : BlocksExt) (latest : BlockExt)
    → config.non_block_import_threshold ≤ duration_max
    → last message.blocks ≡ some latest
    → run (round config) start (replicate (suc n) timed_out ++ received (done message) ∷ [])
      ≡ record {
        ends = running;
        state = record { timeout_fired = none; maybe_last_best_block = some (best_of latest) };
        alerts =
            chain_recovery (record {
              best_block = best_of latest;
              duration = waited config.non_block_import_threshold (suc n);
            })
            ∷ reorg_alert config.reorg_depth_threshold (best_of latest) message.maybe_reorg_data;
      }
late_start config n message latest h e =
    let whole : 0 + suc n ≡ suc n = omega arith in
    silence-run_from config (suc n) 0 (received (done message) ∷ []) h
    ∙ rw (whole, message-run config none n message latest e) refl
