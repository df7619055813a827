-- ===== src/Uptime.antt =====
-- alerter/src/uptime.rs: `push_uptime_status`. The timer and the HTTP client are seen by their answers.
pub mod Requests
mod Tests
use subspace_chain_alerts.Base.{ℕ, ◌/◌, List, [], ◌∷◌, Bool, Text, codes, concat, show_ℕ}
use subspace_chain_alerts.Error.{Exec, ok, err, panic, running, Call, done, failed, from, Source}
use subspace_chain_alerts.Config.{Duration}

-- `formatted_url`; `as_millis` of a duration in nanoseconds.
unfoldable pub formatted_url : Text → Duration → Text
formatted_url url every =
    concat (url ∷ codes "?status=up&msg=Ok&ping=" ∷ show_ℕ (every / 1000000) ∷ [])

-- The loop, by the client's answers to its requests: an error, or whether the status is a success, which
-- is only logged. It gives how it ends, or that it still waits for the next tick, and the requests.
unfoldable pub push_loop : Text → Duration → List (Call Bool) → Exec (Unit {0}) × List Text
unfolding formatted_url
push_loop url every [] = (running, [])
push_loop url every (done is_success ∷ answers) =
    let rest = push_loop url every answers in (rest.0, formatted_url url every ∷ rest.1)
push_loop url every (failed e ∷ answers) =
    (err (from Source.reqwest_error e), formatted_url url every ∷ [])

-- The loop, once the timer and the client are there; a client that cannot be built is a panic.
unfoldable pub with_client :
    Exec (Unit {0}) → Call (Unit {0}) → Exec (Unit {0}) × List Text → Exec (Unit {0}) × List Text
with_client (ok _) (done _) rest = rest
with_client (ok _) (failed e) rest = (panic, [])
with_client (err e) client rest = (err e, [])
with_client panic client rest = (panic, [])
with_client running client rest = (running, [])

-- `interval` is tokio's, which may panic.
unfoldable pub push_uptime_status :
    (Duration → Exec (Unit {0}))
    → Call (Unit {0})
    → Text
    → Duration
    → List (Call Bool)
    → Exec (Unit {0}) × List Text
unfolding push_loop with_client
push_uptime_status interval client url every answers =
    with_client (interval every) client (push_loop url every answers)
