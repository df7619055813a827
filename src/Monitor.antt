-- ===== src/Monitor.antt =====
-- The shape of the monitors' `loop`s: wait for an input, handle it, give alerts to the Slack channel.
-- (A refusal of `alert_sink.send` is logged and changes nothing, so the alerts that are given are
-- all that a monitor does to the outside.)
use subspace_chain_alerts.Base.{◌≡◌, refl, List, [], ◌∷◌, ◌++◌, All, All-append}
use subspace_chain_alerts.Error.{Exec, ok, err, panic, running, Call}
use subspace_chain_alerts.Alert.{Alert}

-- `time::timeout(t, stream.recv())`: what was received, or that the time ran out.
pub data Input {ℓ} (A : Type ℓ) : Type ℓ where
  received : Call A → Input A
  timed_out : Input A

-- How the loop ended, or that it still waits; its variables; and the alerts, the oldest first.
pub record Run {ℓ} (S : Type ℓ) : Type ℓ where
  pub ends : Exec (Unit {0})
  pub state : S
  pub alerts : List Alert

-- One round gives the new variables, or ends the loop; its alerts are given in any case.
abbrev pub Round {ℓ κ} : Type ℓ → Type κ → Type (ℓ ⊔ κ)
Round S I = S → I → Exec S × List Alert

abbrev pub after {ℓ} : {S : Type ℓ} → List Alert → Run S → Run S
after alerts r = record r { alerts = alerts ++ r.alerts }

-- A round's end: the rest of the run, or the end of the loop.
abbrev pub finish {ℓ} : {S : Type ℓ} → S → List Alert → (S → Run S) → Exec S → Run S
finish s alerts rest (ok s') = after alerts (rest s')
finish s alerts rest (err e) = record { ends = err e; state = s; alerts = alerts }
finish s alerts rest panic = record { ends = panic; state = s; alerts = alerts }
finish s alerts rest running = record { ends = running; state = s; alerts = alerts }

module _ {ℓ κ} {S : Type ℓ} {I : Type κ} (round : Round S I) where
  unfoldable pub run : S → List I → Run S
  run s [] = record { ends = running; state = s; alerts = [] }
  run s (i ∷ inputs) = finish s (round s i).1 (λ t. run t inputs) (round s i).0

  -- The first round of a run, by what it returns.
  pub run-round :
      (s : S) (i : I) (inputs : List I) (r : Exec S) (alerts : List Alert)
      → round s i ≡ (r, alerts)
      → run s (i ∷ inputs) ≡ finish s alerts (λ t. run t inputs) r
  unfolding run
  run-round s i inputs r alerts e = rw (e, run)

  -- A property of the alerts that every round has from states with `P`, the whole run has.
  pub run-alerts {ι ι'} :
      (P : S → Type ι) (Q : Alert → Type ι')
      → ((s : S) (i : I) → P s → All Q (round s i).1)
      → ((s s' : S) (i : I) → P s → (round s i).0 ≡ ok s' → P s')
      → (s : S) (inputs : List I) → P s
      → All Q (run s inputs).alerts
  unfolding run
  run-alerts P Q all keep s [] p = tt
  run-alerts P Q all keep s (i ∷ inputs) p =
      by_end (round s i).0 refl (λ t q. run-alerts P Q all keep t inputs q)
    where
      by_end :
          (r : Exec S)
          → (round s i).0 ≡ r
          → ((t : S) → P t → All Q (run t inputs).alerts)
          → All Q (finish s (round s i).1 (λ t. run t inputs) r).alerts
      by_end (ok s') e rest =
          All-append Q (round s i).1 (run s' inputs).alerts (all s i p) (rest s' (keep s s' i p e))
      by_end (err x) e rest = all s i p
      by_end panic e rest = all s i p
      by_end running e rest = all s i p
