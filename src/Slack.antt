-- ===== src/Slack.antt =====
-- alerter/src/slack.rs: the secret, the alerter's settings, and the loop that posts the alerts. The file
-- system and the Slack session are seen by their answers.
pub mod Trimming
pub mod Secrets
pub mod Posting
mod Tests
use subspace_chain_alerts.Base.{
  trim, ℕ, ◌%◌, List, [], ◌∷◌, ◌++◌, Option, none, some, Bool, true, false, ◌==◌, ◌&&◌, ◌||◌, leb,
  reverse, is_empty, if◌then◌else◌, Text, codes,
}
use subspace_chain_alerts.Error.{
  Exec, ok, err, panic, running, ◌>>=◌, ◌>>◌, assert, Call, done, failed, try, from, Source,
}
use subspace_chain_alerts.Error
use subspace_chain_alerts.Config.{SlackConfig}
use subspace_chain_alerts.Alert.{Alert}
use subspace_chain_alerts.Message.{Rendering, FormatConfig, format_alert}

-- `SlackApiToken` with its team.
pub record SlackSecret : Type 0 where
  pub token_value : Text
  pub team_id : Text

-- `USER_READ_ONLY` and `USER_READ_WRITE`: 0o400 and 0o600.
abbrev pub user_read_only : ℕ
user_read_only = 256

abbrev pub user_read_write : ℕ
user_read_write = 384

-- The `assert!` on the permissions: `& 0o777` is the remainder by 512.
unfoldable pub is_private : ℕ → Bool
is_private secret_perms =
    (secret_perms % 512 == user_read_only) || (secret_perms % 512 == user_read_write)

-- What the file system says of the secret's file.
pub record SecretFile : Type 0 where
  pub mode : Call ℕ
  pub content : Call Text

-- The secret of some text.
unfoldable pub secret_of : Text → Text → Exec SlackSecret
secret_of team_id secret =
    if is_empty secret
    then err (Error.config (codes "Slack Secret cannot be empty"))
    else ok (record { token_value = secret; team_id = team_id })

-- `SlackSecret::new`.
unfoldable pub new_secret : SecretFile → Text → Exec SlackSecret
new_secret file team_id = do
  secret_perms ← try Source.io_error file.mode
  assert (is_private secret_perms)
  secret ← try Source.io_error file.content
  secret_of team_id (trim secret)

-- `strip_prefix("#").unwrap_or(…)`.
unfoldable pub strip_hash : Text → Text
strip_hash [] = []
strip_hash (c ∷ name) = if c == 35 then name else c ∷ name

-- `format!("#{}", …)`.
unfoldable pub channel_of : Text → Text
unfolding strip_hash
channel_of name = 35 ∷ strip_hash name

-- The alerter, but for its channel of alerts.
pub record SlackAlerter : Type 0 where
  pub bot_name : Text
  pub bot_icon : Text
  pub channel_name : Text
  pub secret : SlackSecret

-- `SlackAlerter::new`; `file` is the file at the configured path.
unfoldable pub new : (Text → SecretFile) → SlackConfig → Exec SlackAlerter
new files config = do
  secret ← new_secret (files config.slack_secret_path) config.slack_team_id
  ok (record {
    bot_name = config.slack_bot_name;
    bot_icon = config.slack_bot_icon;
    channel_name = channel_of config.slack_channel_name;
    secret = secret;
  })

-- `SlackApiChatPostMessageRequest`, as it is filled.
pub record PostRequest : Type 0 where
  pub channel : Text
  pub markdown : Text
  pub icon_emoji : Text
  pub username : Text
  pub unfurl_links : Bool

-- `version` is the package's version, which the build sets.
unfoldable pub post_request : Text → SlackAlerter → Text → PostRequest
post_request version slack markdown = record {
  channel = slack.channel_name;
  markdown = markdown;
  icon_emoji = slack.bot_icon;
  username = slack.bot_name ++ codes "(" ++ version ++ codes ")";
  unfurl_links = false;
}

-- What one round sees: the end of the stream, or an alert, with Slack's answer to its message.
pub data Input : Type 0 where
  closed : Input
  alert : Alert → Call (Unit {0}) → Input

-- The message of an alert, once its text is there. A refusal of Slack's is logged.
unfoldable pub post :
    Text
    → SlackAlerter
    → Exec Text
    → Exec (Unit {0}) × List PostRequest
    → Exec (Unit {0}) × List PostRequest
unfolding post_request
post version slack (ok text) rest = (rest.0, post_request version slack text ∷ rest.1)
post version slack (err e) rest = (err e, [])
post version slack panic rest = (panic, [])
post version slack running rest = (running, [])

-- The loop of `run`: how it ends, or that it still waits, and the requests that were posted.
unfoldable pub post_loop :
    Text → (Alert → Exec Text) → SlackAlerter → List Input → Exec (Unit {0}) × List PostRequest
unfolding post
post_loop version format_alert slack [] = (running, [])
post_loop version format_alert slack (closed ∷ inputs) =
    (err (Error.app (codes "Slack stream closed")), [])
post_loop version format_alert slack (alert a answer ∷ inputs) =
    post version slack (format_alert a) (post_loop version format_alert slack inputs)

-- The loop, unless the session could not be opened.
unfoldable pub after_auth :
    Exec (Unit {0}) → Exec (Unit {0}) × List PostRequest → Exec (Unit {0}) × List PostRequest
after_auth (ok _) rest = rest
after_auth (err e) rest = (err e, [])
after_auth panic rest = (panic, [])
after_auth running rest = (running, [])

-- `run`: the connector, the test of the session, and the loop.
unfoldable pub run :
    Text
    → Rendering
    → FormatConfig
    → SlackAlerter
    → Call (Unit {0})
    → Call (Unit {0})
    → List Input
    → Exec (Unit {0}) × List PostRequest
unfolding post_loop after_auth
run version r format_config slack connector auth_test inputs =
    after_auth (try Source.io_error connector >> try Source.slack_client_error auth_test)
      (post_loop version (format_alert r format_config) slack inputs)
