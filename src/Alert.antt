-- ===== src/Alert.antt =====
-- The alerts: `Alert` of alerter/src/slack.rs, and the structs of alerter/src/stall_and_reorg.rs and
-- alerter/src/slots.rs that it carries.
use subspace_chain_alerts.Base.{ℕ, List}
use subspace_chain_alerts.Chain.{HashAndNumber, Slot}
use subspace_chain_alerts.Config.{Duration}
use subspace_chain_alerts.EventTypes.{Event}

pub record ChainStall : Type 0 where
  pub last_block : HashAndNumber
  pub duration : Duration

pub record ChainRecovery : Type 0 where
  pub best_block : HashAndNumber
  pub duration : Duration

pub record ChainReorg : Type 0 where
  pub best_block : HashAndNumber
  pub common_block : HashAndNumber
  pub enacted : List HashAndNumber
  pub retracted : List HashAndNumber

pub record TimekeeperStall : Type 0 where
  pub last_slot : Slot
  pub duration : Duration

pub record TimekeeperRecovery : Type 0 where
  pub slot : Slot
  pub duration : Duration

pub record SlowSlot : Type 0 where
  pub slot : Slot
  pub previous_slot : Slot
  pub slot_time : Duration
  pub threshold : Duration

pub record AvgSlowSlot : Type 0 where
  pub slot : Slot
  pub slot_count : ℕ
  pub avg_slot_time : Duration
  pub threshold : Duration

pub data Alert : Type 0 where
  event : Event → Alert
  chain_stall : ChainStall → Alert
  chain_recovery : ChainRecovery → Alert
  reorg : ChainReorg → Alert
  timekeeper_stall : TimekeeperStall → Alert
  timekeeper_recovery : TimekeeperRecovery → Alert
  slow_slot : SlowSlot → Alert
  avg_slow_slots : AvgSlowSlot → Alert
