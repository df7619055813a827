-- ===== src/Slack/Secrets.antt =====
-- alerter/src/slack.rs: the loading of the secret.
use subspace_chain_alerts.Slack.Trimming.{IsTrimmed, trim-IsTrimmed}
use subspace_chain_alerts.Base.{
  trim, ℕ, ◌%◌, ◌≡◌, ◌≢◌, ◌↔◌, ◌⊎◌, refl, inl, inr, [], ◌∷◌, true, arith, Text, Bool-cases,
}
use subspace_chain_alerts.Error.{ok, Call, done, failed}
use subspace_chain_alerts.Slack.{
  SlackSecret, SecretFile, is_private, user_read_only, user_read_write, secret_of, new_secret,
}

-- Only the owner may read the file, and write it at most.
abbrev pub OwnerOnly : ℕ → Type 0
OwnerOnly mode = (mode % 512 ≡ user_read_only) ⊎ (mode % 512 ≡ user_read_write)

-- The secret of a file that only its owner may read.
pub record Loaded (file : SecretFile) (team_id : Text) (secret : SlackSecret) : Type 0 where
  pub mode : ℕ
  pub content : Text
  pub has_mode : file.mode ≡ done mode
  pub is_owners : OwnerOnly mode
  pub was_read : file.content ≡ done content
  pub is_token : secret.token_value ≡ trim content
  pub is_some : trim content ≢ []
  pub of_team : secret.team_id ≡ team_id

is_private_iff : (mode : ℕ) → (is_private mode ≡ true) ↔ OwnerOnly mode
unfolding is_private
is_private_iff mode = ground arith

secret_of_iff :
    (team_id text : Text) (secret : SlackSecret)
    → (secret_of team_id text ≡ ok secret)
      ↔ ((secret.token_value ≡ text) × (text ≢ []) × (secret.team_id ≡ team_id))
unfolding secret_of
secret_of_iff team_id [] secret = ground arith
secret_of_iff team_id (c ∷ text) secret = ground arith

-- A secret is loaded exactly if only the owner may read the file, or read and write it, the file can
-- be read, and something but white space stands in it; the secret is the text of the file, trimmed.
pub new_secret_iff :
    (file : SecretFile) (team_id : Text) (secret : SlackSecret)
    → (new_secret file team_id ≡ ok secret) ↔ Loaded file team_id secret
unfolding new_secret
new_secret_iff file team_id secret = (loads file.mode refl file.content refl, loaded)
  where
    loads :
        (m : Call ℕ)
        → file.mode ≡ m
        → (c : Call Text) → file.content ≡ c
        → new_secret file team_id ≡ ok secret
        → Loaded file team_id secret
    loads (failed x) em c ec e = absurd (ground (arith, e))
    loads (done mode) em (failed x) ec e =
        absurd (let g = rw (em, ec) at e in ground (arith, Bool-cases (is_private mode)))
    loads (done mode) em (done content) ec e = elim (Bool-cases (is_private mode)) [
      | inr open_to_others ↦ absurd (let g = rw (em, open_to_others) at e in ground arith)
      | inl private ↦
          let g : secret_of team_id (trim content) ≡ ok secret = rw (em, private, ec) at e in
          let (token, filled, team) = (secret_of_iff team_id (trim content) secret).0 g in
          record {
            mode = mode;
            content = content;
            has_mode = em;
            is_owners = (is_private_iff mode).0 private;
            was_read = ec;
            is_token = token;
            is_some = filled;
            of_team = team;
          }
    ]

    loaded : Loaded file team_id secret → new_secret file team_id ≡ ok secret
    loaded l =
        rw (l.has_mode, l.was_read, (is_private_iff l.mode).1 l.is_owners)
          ((secret_of_iff team_id (trim l.content) secret).1 (l.is_token, l.is_some, l.of_team))

-- The token of a secret that is loaded is the text of its file without the white space at both ends, it
-- is not empty, and no white space is left at its ends.
pub new_secret-IsTrimmed :
    (file : SecretFile) (team_id : Text) (secret : SlackSecret)
    → new_secret file team_id ≡ ok secret
    → (content : Text) × (file.content ≡ done content)
      × IsTrimmed content secret.token_value
      × (secret.token_value ≢ [])
new_secret-IsTrimmed file team_id secret e =
    let l = (new_secret_iff file team_id secret).0 e in
    (l.content, l.was_read, rw l.is_token (trim-IsTrimmed l.content), rw l.is_token l.is_some)
