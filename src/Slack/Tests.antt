-- ===== src/Slack/Tests.antt =====
-- The Slack alerter on small inputs.
use subspace_chain_alerts.Base.{trim, trim_start, ◌≢◌, refl, ◌≡◌, ◌↔◌, List, [], ◌∷◌, Text, codes}
use subspace_chain_alerts.Error.{ok, done, failed}
use subspace_chain_alerts.EventTypes.{sudo}
use subspace_chain_alerts.Alert.{Alert}
use subspace_chain_alerts.Slack.{
  SlackSecret, SecretFile, SlackAlerter, Input, closed, alert, is_private, secret_of, new_secret,
  run,
}
use subspace_chain_alerts.Slack.Trimming.{IsTrimmed}
use subspace_chain_alerts.Slack.Secrets.{Loaded, new_secret_iff, new_secret-IsTrimmed}
use subspace_chain_alerts.Slack.Posting.{Posted, run-Posted}
use subspace_chain_alerts.Message.Fixture.{rendering, config, rendering-Has96Bits}

program : Unit {0}
unfolding new_secret is_private trim trim_start secret_of
program = tt

-- A regular file, 0o100600, with a line break at its end.
abbrev file : SecretFile
file = record { mode = done 33152; content = done (120 ∷ 121 ∷ 10 ∷ []) }

abbrev secret : SlackSecret
secret = record { token_value = 120 ∷ 121 ∷ []; team_id = codes "T1" }

new_secret_iff_example :
    (new_secret file (codes "T1") ≡ ok secret) ↔ Loaded file (codes "T1") secret
new_secret_iff_example = new_secret_iff file (codes "T1") secret

new_secret-IsTrimmed_example :
    (content : Text) × (file.content ≡ done content)
    × IsTrimmed content secret.token_value
    × (secret.token_value ≢ [])
unfolding program
new_secret-IsTrimmed_example = new_secret-IsTrimmed file (codes "T1") secret refl

abbrev slack : SlackAlerter
slack = record {
  bot_name = codes "bot";
  bot_icon = codes "robot_face";
  channel_name = codes "#alerts";
  secret = secret;
}

abbrev inputs : List Input
inputs = alert (Alert.event sudo) (failed []) ∷ alert (Alert.event sudo) (done tt) ∷ closed ∷ []

run-Posted_example :
    Posted
      (codes "1")
      rendering
      config
      slack
      inputs
      (run (codes "1") rendering config slack (done tt) (done tt) inputs).0
      (run (codes "1") rendering config slack (done tt) (done tt) inputs).1
run-Posted_example = run-Posted (codes "1") rendering config slack rendering-Has96Bits inputs
