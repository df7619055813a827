-- ===== src/Slots/Tests.antt =====
-- The slot monitor on small inputs.
use subspace_chain_alerts.Base.{
  ℕ, ◌≡◌, refl, [], ◌∷◌, ◌++◌, none, length, init, leb, arith, if◌then◌else◌, replicate, false,
}
use subspace_chain_alerts.Error.{running, done}
use subspace_chain_alerts.Gossip.{PoTInfo}
use subspace_chain_alerts.Config.{SlotsConfig, seconds}
use subspace_chain_alerts.Monitor.{received, timed_out, run, after}
use subspace_chain_alerts.Stall.Timeouts.{remembered}
use subspace_chain_alerts.Slots.{BoundedVec, Truncates, Monitor, bound, round, slot_timeout}
use subspace_chain_alerts.Slots.Full.{KeepsAllButLast, run-KeepsAllButLast}
use subspace_chain_alerts.Slots.Gaps.{proofs, deaf_after_gap}
use subspace_chain_alerts.Slots.Timeouts.{stalls, stalled-run}

abbrev config : SlotsConfig
config = record { per_slot_threshold = seconds 2; avg_slot_threshold = seconds 1 }

unfoldable vec : BoundedVec
vec = record {
  force_push = λ slots x. (if leb bound (length slots) then init slots else slots) ++ x ∷ [];
}

vec-Truncates : Truncates vec
unfolding vec
vec-Truncates = record {
  appends = λ slots x room. let e : leb bound (length slots) ≡ false = ground arith in rw e;
  truncates = λ slots x full. rw full;
}

-- A proof for the slot, that arrives at the time.
abbrev proof : ℕ → ℕ → PoTInfo
proof slot at = record {
  at = at;
  proof = record {
    slot = slot;
    seed = record { bytes = [] };
    slot_iterations = 1;
    checkpoints = record { outputs = [] };
  };
}

-- The monitor after the proof of slot 7, that came a second after the start.
abbrev one_slot : Monitor
one_slot = record {
  timeout_fired = none;
  last_instant = seconds 1;
  slots = record { proof = (proof 7 (seconds 1)).proof; duration = seconds 1 } ∷ [];
}

deaf_after_gap_example :
    run
      (round vec config)
      one_slot
      (proofs (proof 9 (seconds 3) ∷ proof 10 (seconds 4) ∷ proof 11 (seconds 9) ∷ []))
    ≡ record { ends = running; state = one_slot; alerts = [] }
deaf_after_gap_example =
    deaf_after_gap vec config one_slot
      (record { proof = (proof 7 (seconds 1)).proof; duration = seconds 1 })
      (proof 9 (seconds 3) ∷ proof 10 (seconds 4) ∷ proof 11 (seconds 9) ∷ []) refl (omega arith)
      (omega arith, (omega arith, (omega arith, tt)))

stalled-run_example :
    run
      (round vec config)
      (record one_slot { timeout_fired = remembered slot_timeout 0 })
      (replicate 2 timed_out ++ received (done (proof 8 (seconds 62))) ∷ [])
    ≡ after (stalls 7 1 2) (
        run
          (round vec config)
          (record one_slot { timeout_fired = remembered slot_timeout 2 })
          (received (done (proof 8 (seconds 62))) ∷ []))
stalled-run_example =
    stalled-run vec config one_slot
      (record { proof = (proof 7 (seconds 1)).proof; duration = seconds 1 }) 2 0
      (received (done (proof 8 (seconds 62))) ∷ []) refl

-- The monitor after 600 proofs.
abbrev full_window : Monitor
full_window = record one_slot {
  slots = replicate 600 (record { proof = (proof 7 (seconds 1)).proof; duration = seconds 1 });
}

run-KeepsAllButLast_example :
    KeepsAllButLast full_window
      (run
        (round vec config)
        full_window
        (received (done (proof 8 (seconds 2))) ∷ timed_out ∷ [])).state
run-KeepsAllButLast_example =
    run-KeepsAllButLast vec vec-Truncates config full_window
      (received (done (proof 8 (seconds 2))) ∷ timed_out ∷ []) refl
