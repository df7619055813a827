-- ===== src/Stall/Tests.antt =====
-- The stall and re-org monitor on small inputs.
use subspace_chain_alerts.Base.{ℕ, ◌≡◌, ◌≤◌, refl, [], ◌∷◌, ◌++◌, none, some, arith, replicate}
use subspace_chain_alerts.Error.{running, done}
use subspace_chain_alerts.Chain.{BlockExt, BlocksExt, ReorgData, HashAndNumber}
use subspace_chain_alerts.Config.{StallAndReorgConfig, seconds, duration_max}
use subspace_chain_alerts.Alert.{chain_recovery}
use subspace_chain_alerts.Monitor.{received, timed_out, run}
use subspace_chain_alerts.Stall.{start, round, reorg_alert}
use subspace_chain_alerts.Stall.Timeouts.{stalls, waited, stall_episode, late_start}
use subspace_chain_alerts.Stall.Rounds.{recoveries, recoveries-le-timeouts}
use subspace_chain_alerts.Stall.Listening.{Sees, best_hash, run-Follows}

abbrev config : StallAndReorgConfig
config = record { non_block_import_threshold = seconds 60; reorg_depth_threshold = 2 }

abbrev block : ℕ → ℕ → ℕ → BlockExt
block parent number hash = record {
  number = number;
  hash = hash;
  parent_hash = parent;
  state_root = 0;
  extrinsics_root = 0;
}

abbrev spot : ℕ → ℕ → HashAndNumber
spot number hash = record { number = number; hash = hash }

-- Block 30 replaces blocks 21 and 22 on top of block 10.
abbrev reorg_data : ReorgData
reorg_data = record {
  enacted = spot 2 29 ∷ [];
  retracted = spot 2 21 ∷ spot 3 22 ∷ [];
  common_block = spot 1 10;
}

abbrev message : BlocksExt
message = record { blocks = block 10 2 29 ∷ block 29 3 30 ∷ []; maybe_reorg_data = some reorg_data }

threshold_fits : seconds 60 ≤ duration_max
unfolding duration_max
threshold_fits = omega arith

stall_episode_example :
    run
      (round config)
      (record { timeout_fired = none; maybe_last_best_block = some (spot 3 22) })
      (replicate 2 timed_out ++ received (done message) ∷ [])
    ≡ record {
      ends = running;
      state = record { timeout_fired = none; maybe_last_best_block = some (spot 3 30) };
      alerts =
          stalls (spot 3 22) (seconds 60) 1 2
          ++ chain_recovery (record { best_block = spot 3 30; duration = waited (seconds 60) 2 })
            ∷ reorg_alert 2 (spot 3 30) (some reorg_data);
    }
stall_episode_example =
    stall_episode config (spot 3 22) 1 message (block 29 3 30) threshold_fits refl

late_start_example :
    run (round config) start (replicate 1 timed_out ++ received (done message) ∷ []) ≡ record {
      ends = running;
      state = record { timeout_fired = none; maybe_last_best_block = some (spot 3 30) };
      alerts =
          chain_recovery (record { best_block = spot 3 30; duration = waited (seconds 60) 1 })
          ∷ reorg_alert 2 (spot 3 30) (some reorg_data);
    }
late_start_example = late_start config 0 message (block 29 3 30) threshold_fits refl

recoveries-le-timeouts_example :
    recoveries (run (round config) start (timed_out ∷ received (done message) ∷ [])).alerts ≤ 1
recoveries-le-timeouts_example =
    recoveries-le-timeouts config start (timed_out ∷ received (done message) ∷ [])

run-Follows_example :
    ((run (round config) start (timed_out ∷ received (done message) ∷ [])).ends ≡ running)
    × (best_hash 22
          (run
            (round config)
            start
            (timed_out ∷ received (done message) ∷ [])).state.maybe_last_best_block
        ≡ 30)
run-Follows_example =
    run-Follows config start (Sees.wait (Sees.message message Sees.nothing)) 30 22
      (30, record { chained = (refl, (refl, tt)); tip = (block 29 3 30, refl, refl) }, refl)
