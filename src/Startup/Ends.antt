-- ===== src/Startup/Ends.antt =====
-- alerter/src/main.rs: how `main` ends.
use subspace_chain_alerts.Base.{ℕ, ◌≡◌, ◌↔◌, refl, ap, ◌∙◌, Option, none, some, get_elem?, arith}
use subspace_chain_alerts.Error.{
  Exec, ok, err, panic, running, Call, done, failed, Foreign, >>=-eq-ok,
}
use subspace_chain_alerts.Config.{Config}
use subspace_chain_alerts.Events.{account_mapped_name, watch_events}
use subspace_chain_alerts.Stall.{watch_chain_stall_and_reorg}
use subspace_chain_alerts.Stall
use subspace_chain_alerts.Slots.{monitor_slots}
use subspace_chain_alerts.Slots
use subspace_chain_alerts.Slack
use subspace_chain_alerts.Message.{format_alert}
use subspace_chain_alerts.Uptime.{push_loop, push_uptime_status}
use subspace_chain_alerts.Startup.Values.{
  NoValue, NoValue-ok, run-NoValue, with_client-NoValue, push_loop-NoValue, post_loop-NoValue,
  after_auth-NoValue, with_accounts-NoValue, listen_for_all_blocks-NoValue,
}
use subspace_chain_alerts.Startup.Tasks.{
  Surroundings, Ready, set_up, Task, runtime_updates, uptime, stall_and_reorg, events, slots, slack,
  listener, network, tasks, Inputs, updated, outcome, update, joined, main,
}

-- The tasks of this program's own loops.
abbrev IsLoop : Task → Type 0
IsLoop runtime_updates = ⊥
IsLoop _ = Unit {0}

outcome-NoValue : (i : Inputs) (task : Task) → IsLoop task → NoValue (outcome i task)
unfolding outcome push_uptime_status watch_chain_stall_and_reorg watch_events monitor_slots
    Slack.run
outcome-NoValue i runtime_updates h = absurd h
outcome-NoValue i (uptime url every) h =
    with_client-NoValue (i.interval every) i.http_client (push_loop url every i.pushes)
      (push_loop-NoValue url every i.pushes)
outcome-NoValue i (stall_and_reorg config) h =
    run-NoValue (Stall.round config) Stall.start i.block_waits
outcome-NoValue i (events accounts) h =
    with_accounts-NoValue (account_mapped_name i.account_of accounts) i.block_events
outcome-NoValue i (slots config) h =
    run-NoValue (Slots.round i.vec config) (Slots.start i.now) i.proof_waits
outcome-NoValue i (slack alerter config) h =
    after_auth-NoValue _ _
      (post_loop-NoValue i.version (format_alert i.rendering config) alerter i.alerts)
outcome-NoValue i listener h = listen_for_all_blocks-NoValue i.library i.fuel i.sessions i.before
outcome-NoValue i (network n) h = tt

-- The updates came to their end without an error.
abbrev UpdatesEnded : Inputs → Task → Type 0
UpdatesEnded i task = (task ≡ runtime_updates) × (i.perform_runtime_updates ≡ some (done tt))

updated-ok : (o : Option (Call (Unit {0}))) → updated o ≡ ok tt → o ≡ some (done tt)
unfolding updated
updated-ok none e = ground arith
updated-ok (some (done x)) e = refl
updated-ok (some (failed x)) e = ground arith

update-ok : (text : Foreign) (m : Exec (Unit {0})) → update text m ≡ ok tt → m ≡ ok tt
unfolding update
update-ok text (ok x) e = refl
update-ok text (err x) e = ground arith
update-ok text panic e = ground arith
update-ok text running e = ground arith

outcome-ok : (i : Inputs) (task : Task) → outcome i task ≡ ok tt → UpdatesEnded i task
unfolding outcome
outcome-ok i runtime_updates e = (refl, updated-ok i.perform_runtime_updates e)
outcome-ok i (uptime url every) e =
    absurd (NoValue-ok _ (outcome-NoValue i (uptime url every) tt) e)
outcome-ok i (stall_and_reorg c) e =
    absurd (NoValue-ok _ (outcome-NoValue i (stall_and_reorg c) tt) e)
outcome-ok i (events a) e = absurd (NoValue-ok _ (outcome-NoValue i (events a) tt) e)
outcome-ok i (slots c) e = absurd (NoValue-ok _ (outcome-NoValue i (slots c) tt) e)
outcome-ok i (slack a c) e = absurd (NoValue-ok _ (outcome-NoValue i (slack a c) tt) e)
outcome-ok i listener e = absurd (NoValue-ok _ (outcome-NoValue i listener tt) e)
outcome-ok i (network n) e = absurd (NoValue-ok _ (outcome-NoValue i (network n) tt) e)

joined-ok :
    (text : Foreign) (i : Inputs) (task : Option Task)
    → joined text i task ≡ ok tt
    → (t : Task) × (task ≡ some t) × UpdatesEnded i t
unfolding joined
joined-ok text i none e = ground arith
joined-ok text i (some t) e = (t, refl, outcome-ok i t (update-ok text (outcome i t) e))

-- The program ends without an error exactly if it could be set up and the task that ends first is that
-- of the runtime updates, which have come to their end without an error. No other task's end does it,
-- whatever the node, Slack, the web, the channels and the peers have answered.
pub main_iff :
    (world : Surroundings) (panicked : Foreign) (i : Inputs) (cli : Config) (first : ℕ)
    → (main world panicked i cli first ≡ ok tt) ↔ (
        (ready : Ready) × (set_up world cli ≡ ok ready)
        × (get_elem? (tasks cli ready) first ≡ some runtime_updates)
        × (i.perform_runtime_updates ≡ some (done tt)))
unfolding main joined outcome update updated
main_iff world panicked i cli first = (
  (λ e.
      let (ready, prepared, ended) = >>=-eq-ok (set_up world cli) _ e in
      let (task, found, (is_updates, finished)) =
        joined-ok panicked i (get_elem? (tasks cli ready) first) ended in
      (ready, prepared, found ∙ ap some is_updates, finished)),
  (λ (ready, prepared, found, finished). rw (prepared, found, finished) refl),
)
