-- ===== src/Power/Outcome.antt =====
-- The states in which starting and stopping a machine end, checks included
-- (internal/controlplane/machine_power.go).
use fascinate.Base.{◌≡◌, ◌∙◌, refl, ap, Option, some, arith, inl, inr, ◌⊎◌, if◌then◌else◌, []}
use fascinate.Base.Text.{Text}
use fascinate.Result.{Result, Error, ok, err, is_ok}
use fascinate.Database.Records.{World, User, MachineRecord, LiveMachine, EventKind}
use fascinate.Database.Monad.{M, rescue, record_event, ◌>>=◌, ◌>>◌}
use fascinate.Database.Frame.{Same}
use fascinate.Database.Machines.{has_id, update_machine_state}
use fascinate.Database.Rows.{Touches-Ready, Ready, update_machine_state-Touches}
use fascinate.Database.Leaves.{
  state_of, record_event_machines, record_event_ok, record_event_quiet, event-Ready,
  update_machine_state-Leaves,
}
use fascinate.Service.{Service, machine_host_id}
use fascinate.Service.State.{
  machine_state_running, machine_state_starting, machine_state_stopping, machine_state_stopped,
}
use fascinate.Service.Storage.{ResourceSpec}
use fascinate.Service.Machines.{host_by_id}
use fascinate.Budget.Check.{ensure_user_can_start_machine, ensure_host_can_start_machine}
use fascinate.Budget.Effects.{
  ensure_user_can_start_machine-Same, ensure_host_can_start_machine-Same,
}
use fascinate.Power.Start.{admit_start, run_start, perform_start}
use fascinate.Power.Stop.{perform_stop}
use fascinate.Power.Isolation.{admit_start-Touches, host_by_id-Same}
use fascinate.Power.Settle.{run_start_settles, run_stop_settles}

-- An operation that leaves the table of machines alone, whatever it returns.
record Reads {A : Type 0} (m : M A) : Type 0 where
  rows_eq : (w : World) → (m w).1.machines ≡ w.machines
  quiet : (w : World) → w.faults ≡ [] → (m w).1.faults ≡ []

Same-Reads : {A : Type 0} (m : M A) → ((w : World) → Same w (m w).1) → Reads m
Same-Reads m h = record { rows_eq = λ w. (h w).machines_eq; quiet = λ w. (h w).quiet }

-- `if err := m; err != nil { record an event; return err }`
rescue-Reads :
    (m : M (Unit {0}))
    → ((w : World) → Same w (m w).1)
    → (a b : Option Text) (k : EventKind) → Reads (rescue m (record_event a b k))
rescue-Reads m h a b k = record {
  rows_eq = λ w. ground (arith, h w, record_event_machines a b k (m w).1);
  quiet =
      λ w f. ground (arith, h w, (h w).quiet f, record_event_quiet a b k (m w).1 ((h w).quiet f));
}

-- An operation that leaves it alone where it fails, the row i being there and no statement failing.
record Refuses (i : Text) {A : Type 0} (m : M A) : Type 0 where
  refused : (w : World) (x : Error) → Ready i w → (m w).0 ≡ err x → (m w).1.machines ≡ w.machines

bind-Refuses :
    {A B : Type 0} {i : Text} {m : M A} {k : A → M B}
    → Reads m
    → ((a : A) → Refuses i (k a))
    → Refuses i (m >>= k)
bind-Refuses {A} {B} {i} {m} {k} h hk = record {
  refused = λ w x d e. after w (m w) (h.rows_eq w) (h.quiet w d.no_faults) x d e;
}
  where
    after :
        (w : World) (p : Result A × World)
        → p.1.machines ≡ w.machines
        → p.1.faults ≡ []
        → (x : Error) → Ready i w
        → (elim p.0 as (λ _. Result B × World) [ ok a ↦ k a p.1 | err y ↦ (err y, p.1) ]).0 ≡ err x
        → (elim p.0 as (λ _. Result B × World) [ ok a ↦ k a p.1 | err y ↦ (err y, p.1) ]).1.machines
          ≡ w.machines
    after w (ok a, v) same quiet x d e =
        (hk a).refused v x (record { no_faults = quiet; known = ap (has_id i) same ∙ d.known }) e
        ∙ same
    after w (err y, v) same quiet x d e = same

update_machine_state-Refuses : (i st : Text) → Refuses i (update_machine_state i st)
update_machine_state-Refuses i st = record {
  refused = λ w x d e. absurd (ground (arith, (update_machine_state-Leaves i st).succeeds w d));
}

module _ (s : Service) (user : User) (r : MachineRecord) (spec : ResourceSpec) where
  admit_start-Refuses : Refuses r.id (admit_start s user r spec)
  unfolding admit_start
  admit_start-Refuses = bind-Refuses (Same-Reads (host_by_id h) (host_by_id-Same h)) λ host.
      bind-Refuses
        (rescue-Reads (ensure_user_can_start_machine s user spec)
          (ensure_user_can_start_machine-Same s user spec) (some user.id) (some r.id)
          EventKind.machine_start_rejected)
        λ _.
          bind-Refuses
            (rescue-Reads (ensure_host_can_start_machine s host spec)
              (ensure_host_can_start_machine-Same s host spec) (some user.id) (some r.id)
              EventKind.machine_start_rejected)
            λ _. update_machine_state-Refuses r.id machine_state_starting
    where
      h : Text
      h = machine_host_id r s.local_host_id

  -- The state that an outcome of starting leaves, by the state before.
  abbrev pub Started : Result LiveMachine → Option Text → Option Text → Type 0
  Started (ok live) before after = after ≡ some machine_state_running
  Started (err x) before after = (after ≡ before) ⊎ (after ≡ some machine_state_stopped)

  -- When no statement of the database fails and the machine has a row, starting it ends with the row
  -- RUNNING if it succeeds; if it fails, the row has the state it had before or is STOPPED.
  pub perform_start_settles :
      (w : World)
      → Ready r.id w
      → Started
          (perform_start s user r spec w).0
          (state_of r.id w.machines)
          (state_of r.id (perform_start s user r spec w).1.machines)
  unfolding perform_start record_event
  perform_start_settles w d =
      after (admit_start s user r spec w)
        (Touches-Ready r.id w (admit_start s user r spec w).1
          ((admit_start-Touches s r user spec).step w) d)
        (λ x h. admit_start-Refuses.refused w x d h)
    where
      starting : MachineRecord
      starting = record r { state = machine_state_starting }

      event : M (Unit {0})
      event = record_event (some user.id) (some r.id) EventKind.machine_start_started

      started_of :
          (q : Result LiveMachine) (before state : Option Text)
          → state ≡ some (if is_ok q then machine_state_running else machine_state_stopped)
          → Started q before state
      started_of (ok live) before state h = h
      started_of (err x) before state h = inr h

      after :
          (p : Result (Unit {0}) × World)
          → Ready r.id p.1
          → ((x : Error) → p.0 ≡ err x → p.1.machines ≡ w.machines)
          → Started
              (elim p.0 as (λ _. Result LiveMachine × World) [
                | ok a ↦ (event >> run_start s starting) p.1
                | err x ↦ (err x, p.1)
              ]).0
              (state_of r.id w.machines)
              (state_of r.id
                (elim p.0 as (λ _. Result LiveMachine × World) [
                  | ok a ↦ (event >> run_start s starting) p.1
                  | err x ↦ (err x, p.1)
                ]).1.machines)
      after (ok a, v) d' same =
          (started_of _ _ _ (
            run_start_settles s starting (event v).1
              (event-Ready r.id (some user.id) (some r.id) EventKind.machine_start_started v d')))
      after (err x, v) d' same = inl (ap (state_of r.id) (same x refl))

module _ (s : Service) (r : MachineRecord) where
  -- When no statement of the database fails and the machine has a row, stopping it ends with the row
  -- STOPPED if it succeeds and RUNNING if it fails.
  pub perform_stop_settles :
      (w : World)
      → Ready r.id w
      → state_of r.id (perform_stop s r w).1.machines
        ≡ some
            (if is_ok (perform_stop s r w).0 then machine_state_stopped else machine_state_running)
  unfolding perform_stop
  perform_stop_settles w d = ground (
    arith,
    (update_machine_state-Leaves r.id machine_state_stopping).succeeds w d,
    record_event_ok (some r.owner_user_id) (some r.id) EventKind.machine_stop_started w1,
    run_stop_settles s stopping (event w1).1
        (event-Ready r.id (some r.owner_user_id) (some r.id) EventKind.machine_stop_started w1 d1),
  )
    where
      stopping : MachineRecord
      stopping = record r { state = machine_state_stopping }

      event : M (Unit {0})
      event = record_event (some r.owner_user_id) (some r.id) EventKind.machine_stop_started

      w1 : World
      w1 = (update_machine_state r.id machine_state_stopping w).1

      d1 : Ready r.id w1
      d1 =
          Touches-Ready r.id w w1
            ((update_machine_state-Touches r.id machine_state_stopping).step w) d
