-- ===== src/Config.antt =====
-- alerter/src/cli.rs: the command line's settings. A `humantime::Duration` is a number of
-- nanoseconds; the defaults are what the clap attributes say.
use subspace_chain_alerts.Base.{ℕ, ◌*◌, ◌-◌, Option, none, Text, codes}

-- `std::time::Duration`, in nanoseconds.
abbrev pub Duration : Type 0
Duration = ℕ

-- `Duration::MAX`: 2 ^ 64 seconds less a nanosecond.
unfoldable pub duration_max : Duration
duration_max = 18446744073709551616 * 1000000000 - 1

abbrev pub milliseconds : ℕ → Duration
milliseconds n = n * 1000000

abbrev pub seconds : ℕ → Duration
seconds n = n * 1000000000

pub record UptimekumaConfig : Type 0 where
  pub uptimekuma_url : Option Text
  pub uptimekuma_interval : Duration

pub record StallAndReorgConfig : Type 0 where
  pub non_block_import_threshold : Duration
  pub reorg_depth_threshold : ℕ

pub record SlackConfig : Type 0 where
  pub slack_team_id : Text
  pub slack_bot_name : Text
  pub slack_bot_icon : Text
  pub slack_channel_name : Text
  pub slack_secret_path : Text

pub record SlotsConfig : Type 0 where
  pub per_slot_threshold : Duration
  pub avg_slot_threshold : Duration

pub record Config : Type 0 where
  pub rpc_url : Text
  pub network_config_path : Text
  pub uptimekuma : UptimekumaConfig
  pub stall_and_reorg : StallAndReorgConfig
  pub slack : SlackConfig
  pub slots : SlotsConfig

-- The settings when only the required arguments are given.
abbrev pub default_config : Text → Text → Text → Config
default_config rpc_url slack_bot_name slack_channel_name = record {
  rpc_url = rpc_url;
  network_config_path = codes "/networks.toml";
  uptimekuma = record { uptimekuma_url = none; uptimekuma_interval = seconds 60 };
  stall_and_reorg = record { non_block_import_threshold = seconds 60; reorg_depth_threshold = 6 };
  slack = record {
    slack_team_id = codes "T03LJ85UR5G";
    slack_bot_name = slack_bot_name;
    slack_bot_icon = codes "robot_face";
    slack_channel_name = slack_channel_name;
    slack_secret_path = codes "/slack-secret";
  };
  slots = record { per_slot_threshold = milliseconds 1200; avg_slot_threshold = milliseconds 1100 };
}
