-- ===== src/Slots.antt =====
-- alerter/src/slots.rs: `monitor_slots`. One round of its loop handles a proof of time from the p2p
-- network, or the time-out of the wait for one. sp_runtime's `BoundedVec` is an argument.
pub mod Window
pub mod Rounds
pub mod Alerts
pub mod Full
pub mod Gaps
pub mod Timeouts
mod Tests
use subspace_chain_alerts.Base.{
  ℕ, zero, suc, ◌+◌, ◌-◌, ◌/◌, ◌≤◌, ◌≡◌, List, [], ◌∷◌, ◌++◌, Option, none, some, Bool, true, false,
  last, init, length, sum, map, leb, ltb, ◌==◌, ◌&&◌, if◌then◌else◌,
}
use subspace_chain_alerts.Error.{Exec, ok, err, panic, Call, done, failed, from, Source}
use subspace_chain_alerts.Error
use subspace_chain_alerts.Chain.{Slot}
use subspace_chain_alerts.Gossip.{GossipProof, PoTInfo}
use subspace_chain_alerts.Config.{Duration, SlotsConfig, seconds, duration_max}
use subspace_chain_alerts.Alert.{
  Alert, timekeeper_stall, timekeeper_recovery, slow_slot, avg_slow_slots,
}
use subspace_chain_alerts.Monitor.{Input, received, timed_out, Run, run}
use subspace_chain_alerts.Stall.{non_import_duration}

pub record SlotDetails : Type 0 where
  pub proof : GossipProof
  pub duration : Duration

abbrev pub bound : ℕ
bound = 600

-- `BoundedVec<SlotDetails, ConstU32<600>>`.
pub record BoundedVec : Type 0 where
  pub force_push : List SlotDetails → SlotDetails → List SlotDetails

-- `force_push` puts the item at the end, "truncating first if necessary": where the vector is full, its
-- last item goes.
pub record Truncates (vec : BoundedVec) : Type 0 where
  pub appends :
      (slots : List SlotDetails) (x : SlotDetails)
      → suc (length slots) ≤ bound
      → vec.force_push slots x ≡ slots ++ x ∷ []
  pub truncates :
      (slots : List SlotDetails) (x : SlotDetails)
      → length slots ≡ bound
      → vec.force_push slots x ≡ init slots ++ x ∷ []

-- The loop's variables.
pub record Monitor : Type 0 where
  pub timeout_fired : Option Duration
  pub last_instant : ℕ
  pub slots : List SlotDetails

-- At the start of the loop, at the time `now`.
abbrev pub start : ℕ → Monitor
start now = record { timeout_fired = none; last_instant = now; slots = [] }

-- A panic for a value that the machine type cannot hold.
unfoldable pub checked : ℕ → ℕ → Exec ℕ
checked limit n = if leb n limit then ok n else panic

-- u64::MAX
abbrev pub slot_max : ℕ
slot_max = 18446744073709551615

-- The sum of the durations, an overflow of `Duration` being a panic.
unfoldable pub total_duration : Duration → List SlotDetails → Exec Duration
unfolding checked
total_duration acc [] = ok acc
total_duration acc (x ∷ slots) =
    Error.◌>>=◌ (checked duration_max (acc + x.duration)) λ acc'. total_duration acc' slots

-- `Duration::div`: a division by zero would be a panic.
unfoldable pub div : Duration → ℕ → Exec Duration
div total zero = panic
div total (suc n) = ok (total / suc n)

unfoldable pub recovery_alert : Slot → Option Duration → List Alert
recovery_alert slot none = []
recovery_alert slot (some timeout) =
    timekeeper_recovery (record { slot = slot; duration = timeout }) ∷ []

unfoldable pub slow_alert : SlotsConfig → Slot → Slot → Duration → List Alert
slow_alert config slot previous_slot duration =
    if ltb config.per_slot_threshold duration
    then slow_slot (record {
      slot = slot;
      previous_slot = previous_slot;
      slot_time = duration;
      threshold = config.per_slot_threshold;
    })
      ∷ []
    else []

-- `slots.is_full() && avg_slot_time.gt(…)`.
unfoldable pub average_alert : SlotsConfig → Slot → ℕ → Duration → List Alert
average_alert config slot count average =
    if leb bound count && ltb config.avg_slot_threshold average
    then avg_slow_slots (record {
      slot = slot;
      slot_count = count;
      avg_slot_time = average;
      threshold = config.avg_slot_threshold;
    })
      ∷ []
    else []

-- The end of the round: the average over the window with the new slot, or a panic on the way to it.
unfoldable pub with_average :
    SlotsConfig → Monitor → Slot → List Alert → Exec Duration → Exec Monitor × List Alert
unfolding average_alert
with_average config m slot alerts (ok average) =
    (ok m, alerts ++ average_alert config slot (length m.slots) average)
with_average config m slot alerts (err e) = (err e, alerts)
with_average config m slot alerts panic = (panic, alerts)
with_average config m slot alerts Exec.running = (Exec.running, alerts)

unfoldable pub average_time : List SlotDetails → Exec Duration
unfolding total_duration div
average_time slots = Error.◌>>=◌ (total_duration 0 slots) λ total. div total (length slots)

-- A proof for the slot after the last one.
unfoldable pub on_extension :
    BoundedVec → SlotsConfig → Monitor → PoTInfo → SlotDetails → Exec Monitor × List Alert
unfolding recovery_alert slow_alert with_average average_time
on_extension vec config m info last_slot =
    let duration = info.at - m.last_instant in
    let slot = info.proof.slot in
    let m' : Monitor = record {
      timeout_fired = none;
      last_instant = info.at;
      slots = vec.force_push m.slots (record { proof = info.proof; duration = duration });
    } in
    with_average config m' slot
      (recovery_alert slot m.timeout_fired ++ slow_alert config slot last_slot.proof.slot duration)
      (average_time m'.slots)

-- `last_slot` is `slots.last()`, `expected` the slot after it: the addition is checked.
unfoldable pub on_next :
    BoundedVec → SlotsConfig → Monitor → PoTInfo → SlotDetails → Exec ℕ → Exec Monitor × List Alert
unfolding on_extension
on_next vec config m info last_slot (ok expected) =
    if info.proof.slot == expected then on_extension vec config m info last_slot else (ok m, [])
on_next vec config m info last_slot (err e) = (err e, [])
on_next vec config m info last_slot panic = (panic, [])
on_next vec config m info last_slot Exec.running = (Exec.running, [])

unfoldable pub on_proof :
    BoundedVec → SlotsConfig → Monitor → PoTInfo → Option SlotDetails → Exec Monitor × List Alert
unfolding on_next checked
on_proof vec config m info none = (
  ok (record m {
    last_instant = info.at;
    slots =
        vec.force_push m.slots (record { proof = info.proof; duration = info.at - m.last_instant });
  }),
  [],
)
on_proof vec config m info (some last_slot) =
    on_next vec config m info last_slot (checked slot_max (last_slot.proof.slot + 1))

-- `slot_timeout`
abbrev pub slot_timeout : Duration
slot_timeout = seconds 30

unfoldable pub stall_alert : Duration → Option SlotDetails → List Alert
stall_alert duration none = []
stall_alert duration (some last_slot) =
    timekeeper_stall (record { last_slot = last_slot.proof.slot; duration = duration }) ∷ []

unfoldable pub on_timeout : Monitor → Exec Monitor × List Alert
unfolding stall_alert non_import_duration
on_timeout m =
    let duration = non_import_duration slot_timeout m.timeout_fired in
    (ok (record m { timeout_fired = some duration }), stall_alert duration (last m.slots))

unfoldable pub round :
    BoundedVec → SlotsConfig → Monitor → Input PoTInfo → Exec Monitor × List Alert
unfolding on_proof on_timeout
round vec config m (received (done info)) = on_proof vec config m info (last m.slots)
round vec config m (received (failed e)) = (err (from Source.recv_error e), [])
round vec config m timed_out = on_timeout m

-- The whole loop, begun at the time `now`, by what its waits give.
unfoldable pub monitor_slots : BoundedVec → SlotsConfig → ℕ → List (Input PoTInfo) → Run Monitor
monitor_slots vec config now inputs = run (round vec config) (start now) inputs
