-- ===== src/Uptime/Requests.antt =====
-- alerter/src/uptime.rs: the requests, by the client's answers.
use subspace_chain_alerts.Base.{
  ap, ◌∙◌, codes, show_ℕ, append-nil, ◌/◌, suc, ◌≡◌, refl, List, [], ◌∷◌, ◌++◌, Bool, Text, map,
  length, replicate,
}
use subspace_chain_alerts.Error.{Exec, ok, err, running, Call, done, failed, from, Source}
use subspace_chain_alerts.Config.{Duration}
use subspace_chain_alerts.Uptime.{formatted_url, push_loop, push_uptime_status}

module _ (url : Text) (every : Duration) where
  push_loop-answered :
      (statuses : List Bool)
      → push_loop url every (map done statuses)
        ≡ (running, replicate (length statuses) (formatted_url url every))
  unfolding push_loop
  push_loop-answered [] = refl
  push_loop-answered (s ∷ statuses) = rw (push_loop-answered statuses) refl

  push_loop-failed :
      (statuses : List Bool) (e : Text) (later : List (Call Bool))
      → push_loop url every (map done statuses ++ (failed e ∷ later)) ≡ (
        err (from Source.reqwest_error e),
        replicate (suc (length statuses)) (formatted_url url every),
      )
  unfolding push_loop
  push_loop-failed [] e later = refl
  push_loop-failed (s ∷ statuses) e later = rw (push_loop-failed statuses e later) refl

-- The URL of a push: its ping is the interval in milliseconds.
abbrev pub push_url : Text → Duration → Text
push_url url every = url ++ (codes "?status=up&msg=Ok&ping=" ++ show_ℕ (every / 1000000))

formatted_url-push_url :
    (url : Text) (every : Duration) → formatted_url url every ≡ push_url url every
unfolding formatted_url
formatted_url-push_url url every =
    ap (λ t. url ++ (codes "?status=up&msg=Ok&ping=" ++ t)) (append-nil (show_ℕ (every / 1000000)))

-- Once the timer and the client are there, the status is pushed again and again by the same request,
-- with the interval in milliseconds as its ping, one for each answer, whatever HTTP statuses come back;
-- the first request that cannot be sent is the last, and its error ends the task.
pub push_uptime_status-answered :
    (interval : Duration → Exec (Unit {0})) (url : Text) (every : Duration) (statuses : List Bool)
    → (e : Text) (later : List (Call Bool)) → interval every ≡ ok tt
    → (push_uptime_status interval (done tt) url every (map done statuses)
        ≡ (running, replicate (length statuses) (push_url url every)))
      × (push_uptime_status interval (done tt) url every (map done statuses ++ (failed e ∷ later))
          ≡ (
            err (from Source.reqwest_error e),
            replicate (suc (length statuses)) (push_url url every),
          ))
unfolding push_uptime_status
push_uptime_status-answered interval url every statuses e later ticks = (
  rw ticks (
      push_loop-answered url every statuses
      ∙ ap (λ u. (running, replicate (length statuses) u)) (formatted_url-push_url url every)),
  rw ticks (
      push_loop-failed url every statuses e later
      ∙ ap (λ u. (err (from Source.reqwest_error e), replicate (suc (length statuses)) u))
          (formatted_url-push_url url every)),
)
