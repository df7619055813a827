-- ===== src/Uptime/Tests.antt =====
-- The uptime push on small inputs.
use subspace_chain_alerts.Base.{
  ◌≡◌, refl, [], ◌∷◌, ◌++◌, true, false, codes, map, replicate, show_ℕ,
}
use subspace_chain_alerts.Error.{Exec, ok, err, running, done, failed, from, Source}
use subspace_chain_alerts.Config.{Duration, seconds}
use subspace_chain_alerts.Uptime.{formatted_url, push_uptime_status}
use subspace_chain_alerts.Uptime.Requests.{push_url, push_uptime_status-answered}

url_text :
    formatted_url (codes "http://kuma/push") (seconds 60)
    ≡ codes "http://kuma/push?status=up&msg=Ok&ping=60000"
unfolding formatted_url show_ℕ
url_text = refl

abbrev interval : Duration → Exec (Unit {0})
interval _ = ok tt

push_uptime_status-answered_example :
    (push_uptime_status interval (done tt) (codes "u") (seconds 60) (map done (true ∷ false ∷ []))
      ≡ (running, replicate 2 (push_url (codes "u") (seconds 60))))
    × (push_uptime_status interval
          (done tt)
          (codes "u")
          (seconds 60)
          (map done (true ∷ false ∷ []) ++ (failed [] ∷ []))
        ≡ (err (from Source.reqwest_error []), replicate 3 (push_url (codes "u") (seconds 60))))
push_uptime_status-answered_example =
    push_uptime_status-answered interval (codes "u") (seconds 60) (true ∷ false ∷ []) [] [] refl
