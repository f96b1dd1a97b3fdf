-- ===== src/Power/Whole.antt =====
-- StartMachine and StopMachine (internal/controlplane/machine_power.go), from the lookup of the machine
-- to the answer: what they answer, and the state in which they leave the row.
use fascinate.Base.{
  ◌≡◌, refl, ap, ◌∙◌, inl, inr, some, List, [], ◌∷◌, arith, Bool-cases, if◌then◌else◌,
}
use fascinate.Base.Text.{Text, trim_space, is_empty}
use fascinate.Result.{Result, Result-cases, ok, err, is_ok}
use fascinate.Database.Records.{World, MachineRecord, LiveMachine, User, Call, EventKind}
use fascinate.Database.Machines.{find_name, has_id, normalize_email, update_machine_state}
use fascinate.Database.Monad.{M, ask, record_event, statement, ◌>>=◌, ◌>>◌}
use fascinate.Database.Frame.{Same}
use fascinate.Database.Rows.{Touches, Touches-Ready}
use fascinate.Database.Leaves.{state_of}
use fascinate.Database.Named.{id_named, Touches-id_named}
use fascinate.Database.Users.{upsert_user, apply_user_budget_defaults, get_user_by_email}
use fascinate.Service.{Service, runtime_name_for_record}
use fascinate.Service.State.{
  machine_state_running, machine_state_stopped, machine_state_stopping, machine_state_starting,
  ensure_machine_running_for_stop, ensure_machine_stopped_for_start,
}
use fascinate.Service.Storage.{ResourceSpec}
use fascinate.Service.Machines.{owned_machine_record}
use fascinate.Service.Users.{ensure_user}
use fascinate.Budget.Spec.{machine_spec_for_record}
use fascinate.Power.Start.{start_machine, perform_start, run_start, admit_start}
use fascinate.Power.Stop.{stop_machine, perform_stop, run_stop}
use fascinate.Power.Isolation.{perform_start-Touches, perform_stop-Touches}
use fascinate.Power.Outcome.{Started, perform_start_settles, perform_stop_settles}
use fascinate.Power.Scope.{
  key_of, found_at, shown_again, rest_of_stop, owned_machine_record_found,
  owned_machine_record-Same,
}
use fascinate.Power.StartScope.{rest_of_start}
use fascinate.Power.Answer.{
  UniqueIds, OnlyRow-UniqueIds, find_name-has_id, find_name-state_of, At, Answered, Settled,
  shown_again-Settled,
}

-- The machine r has that name, and no statement fails.
pub record Stands (name : Text) (r : MachineRecord) (w : World) : Type 0 where
  pub found : find_name (key_of name) w.machines ≡ some r
  pub unique : UniqueIds w.machines
  pub no_faults : w.faults ≡ []

-- The same of the row that the lookup hands out, in a state.
Stands-At :
    (name : Text) (r : MachineRecord) (w : World) → Stands name r w → At r.name r.id r.state w
Stands-At name r w h = record {
  ready = record {
    no_faults = h.no_faults;
    known = find_name-has_id (key_of name) w.machines r h.found;
  };
  named = found_at name w.machines r h.found;
  unique = h.unique;
  state_eq = find_name-state_of (key_of name) w.machines r h.unique h.found;
}

Touches-At :
    (n i st st' : Text) (w w' : World)
    → Touches i w w'
    → At n i st w
    → state_of i w'.machines ≡ some st'
    → At n i st' w'
Touches-At n i st st' w w' t a h = record {
  ready = Touches-Ready i w w' t a.ready;
  named = Touches-id_named i (trim_space n) i w w' t a.named;
  unique = OnlyRow-UniqueIds i w.machines w'.machines t.rows a.unique;
  state_eq = h;
}

-- What an operation returns is what the runtime answered to a call.
record Tells (reply : List Call → Result LiveMachine) (call : Call) (m : M LiveMachine)
    : Type 0 where
  told :
      (w : World) (live : LiveMachine)
      → (m w).0 ≡ ok live
      → (calls : List Call) × (reply (call ∷ calls) ≡ ok live)

seq-Tells :
    {A : Type 0} {reply : List Call → Result LiveMachine} {call : Call} (m : M A)
    {k : M LiveMachine}
    → Tells reply call k
    → Tells reply call (m >> k)
seq-Tells {A} {reply} {call} m {k} t = record { told = λ w live h. go w live (m w) h }
  where
    go :
        (w : World) (live : LiveMachine) (p : Result A × World)
        → (elim p.0 as (λ _. Result LiveMachine × World) [ ok a ↦ k p.1 | err x ↦ (err x, p.1) ]).0
          ≡ ok live
        → (calls : List Call) × (reply (call ∷ calls) ≡ ok live)
    go w live (ok a, v) h = t.told v live h
    go w live (err x, v) h = absurd (ground (arith, h))

module _ (s : Service) where
  run_stop-Tells :
      (r : MachineRecord)
      → Tells s.runtime.live_reply (Call.stop_machine (runtime_name_for_record r)) (run_stop s r)
  unfolding run_stop ask
  run_stop-Tells r = record { told = λ w live h. (w.calls, ground (arith, h)) }

  run_start-Tells :
      (r : MachineRecord)
      → Tells s.runtime.live_reply (Call.start_machine (runtime_name_for_record r)) (run_start s r)
  unfolding run_start ask
  run_start-Tells r = record { told = λ w live h. (w.calls, ground (arith, h)) }

  perform_stop-Tells :
      (r : MachineRecord)
      → Tells s.runtime.live_reply
          (Call.stop_machine (runtime_name_for_record r))
          (perform_stop s r)
  unfolding perform_stop runtime_name_for_record
  perform_stop-Tells r = seq-Tells (update_machine_state r.id machine_state_stopping) (
      seq-Tells (record_event (some r.owner_user_id) (some r.id) EventKind.machine_stop_started)
        (run_stop-Tells (record r { state = machine_state_stopping })))

  perform_start-Tells :
      (user : User) (r : MachineRecord) (spec : ResourceSpec)
      → Tells s.runtime.live_reply
          (Call.start_machine (runtime_name_for_record r))
          (perform_start s user r spec)
  unfolding perform_start runtime_name_for_record
  perform_start-Tells user r spec = seq-Tells (admit_start s user r spec) (
      seq-Tells (record_event (some user.id) (some r.id) EventKind.machine_start_started)
        (run_start-Tells (record r { state = machine_state_starting })))

  -- What ensureUser leaves alone.
  ensure_user_machines :
      (fresh email : Text) (w : World) → (ensure_user s fresh email w).1.machines ≡ w.machines
  unfolding ensure_user upsert_user apply_user_budget_defaults get_user_by_email statement
  ensure_user_machines fresh email w = ground arith

  ensure_user_quiet :
      (fresh email : Text) (w : World) → w.faults ≡ [] → (ensure_user s fresh email w).1.faults ≡ []
  unfolding ensure_user upsert_user apply_user_budget_defaults get_user_by_email statement
  ensure_user_quiet fresh email w h = ground arith

  -- StopMachine behind the lookup.
  rest_of_stop-Answered :
      (r : MachineRecord) (w : World)
      → At r.name r.id r.state w
      → Settled s.runtime.live_reply
          (Call.stop_machine (runtime_name_for_record r))
          r.name
          r.id
          machine_state_stopped
          machine_state_running
          (some r.state)
          (rest_of_stop s r w)
  rest_of_stop-Answered r w a = elim (Result-cases (ensure_machine_running_for_stop r)) [
    | inr (x, refused) ↦ rw refused (inl a.state_eq)
    | inl (u, running) ↦ rw running (
        go (perform_stop s r w) refl (perform_stop-Touches s r w)
          (perform_stop_settles s r w a.ready))
  ]
    where
      call : Call
      call = Call.stop_machine (runtime_name_for_record r)

      go :
          (p : Result LiveMachine × World)
          → perform_stop s r w ≡ p
          → Touches r.id w p.1
          → state_of r.id p.1.machines
            ≡ some (if is_ok p.0 then machine_state_stopped else machine_state_running)
          → Settled s.runtime.live_reply call r.name r.id machine_state_stopped
              machine_state_running
              (some r.state)
              (elim p.0 as (λ _. Result MachineRecord × World) [
                | ok live ↦ shown_again r.name live p.1
                | err x ↦ (err x, p.1)
              ])
      go (err x, v) e t h = inr h
      go (ok live, v) e t h =
          let (calls, told) = (perform_stop-Tells r).told w live (ap (λ p. p.0) e) in
          shown_again-Settled s.runtime.live_reply call r.name r.id machine_state_stopped
            machine_state_running (some r.state) live calls v told
            (Touches-At r.name r.id r.state machine_state_stopped w v t a h)

  -- StartMachine behind the lookup.
  rest_of_start-Answered :
      (fresh email : Text) (r : MachineRecord) (w : World)
      → At r.name r.id r.state w
      → Settled s.runtime.live_reply
          (Call.start_machine (runtime_name_for_record r))
          r.name
          r.id
          machine_state_running
          machine_state_stopped
          (some r.state)
          (rest_of_start s fresh email r w)
  rest_of_start-Answered fresh email r w a =
      elim (Result-cases (ensure_machine_stopped_for_start r)) [
        | inr (x, refused) ↦ rw refused (inl a.state_eq)
        | inl (u, stopped) ↦ elim (Result-cases (machine_spec_for_record s r)) [
          | inr (x, unread) ↦ rw (stopped, unread) (inl a.state_eq)
          | inl (spec, is_read) ↦
              rw (stopped, is_read)
                (ensured spec (ensure_user s fresh email w) (ensure_user_machines fresh email w)
                  (ensure_user_quiet fresh email w a.ready.no_faults))
        ]
      ]
    where
      call : Call
      call = Call.start_machine (runtime_name_for_record r)

      started :
          (user : User) (spec : ResourceSpec) (v : World)
          → At r.name r.id r.state v
          → (p : Result LiveMachine × World) → perform_start s user r spec v ≡ p
          → Touches r.id v p.1
          → Started s user r spec p.0 (state_of r.id v.machines) (state_of r.id p.1.machines)
          → Settled s.runtime.live_reply call r.name r.id machine_state_running
              machine_state_stopped
              (some r.state)
              (elim p.0 as (λ _. Result MachineRecord × World) [
                | ok live ↦ shown_again r.name live p.1
                | err x ↦ (err x, p.1)
              ])
      started user spec v b (err x, v2) e t (inl h) = inl (h ∙ b.state_eq)
      started user spec v b (err x, v2) e t (inr h) = inr h
      started user spec v b (ok live, v2) e t h =
          let (calls, told) = (perform_start-Tells user r spec).told v live (ap (λ p. p.0) e) in
          shown_again-Settled s.runtime.live_reply call r.name r.id machine_state_running
            machine_state_stopped (some r.state) live calls v2 told
            (Touches-At r.name r.id r.state machine_state_running v v2 t b h)

      ensured :
          (spec : ResourceSpec) (p : Result User × World)
          → p.1.machines ≡ w.machines
          → p.1.faults ≡ []
          → Settled s.runtime.live_reply call r.name r.id machine_state_running
              machine_state_stopped
              (some r.state)
              (elim p.0 as (λ _. Result MachineRecord × World) [
                | ok user ↦ (perform_start s user r spec >>= shown_again r.name) p.1
                | err x ↦ (err x, p.1)
              ])
      ensured spec (err x, v) same quiet = inl (ap (state_of r.id) same ∙ a.state_eq)
      ensured spec (ok user, v) same quiet =
          started user spec v b (perform_start s user r spec v) refl
            (perform_start-Touches s user r spec v) (perform_start_settles s user r spec v b.ready)
        where
          b : At r.name r.id r.state v
          b = record {
            ready = record { no_faults = quiet; known = ap (has_id r.id) same ∙ a.ready.known };
            named = ap (id_named (trim_space r.name)) same ∙ a.named;
            unique = rw same a.unique;
            state_eq = ap (state_of r.id) same ∙ a.state_eq;
          }

  -- Behind the lookup of a machine that is there.
  after_lookup-Settled :
      (reply : List Call → Result LiveMachine) (call : Call) (goal back name email : Text)
      (r : MachineRecord) (w : World) (k : MachineRecord → M MachineRecord)
      → Stands name r w
      → ((v : World)
          → At r.name r.id r.state v
          → Settled reply call r.name r.id goal back (some r.state) (k r v))
      → Settled reply call r.name r.id goal back
          (some r.state)
          ((owned_machine_record name email >>= k) w)
  after_lookup-Settled reply call goal back name email r w k h hk =
      go (owned_machine_record name email w) refl (owned_machine_record-Same name email w)
    where
      go :
          (p : Result MachineRecord × World)
          → owned_machine_record name email w ≡ p
          → Same w p.1
          → Settled reply call r.name r.id goal back
              (some r.state)
              (elim p.0 as (λ _. Result MachineRecord × World) [
                | ok q ↦ k q p.1
                | err x ↦ (err x, p.1)
              ])
      go (err x, v) e same =
          inl (ap (state_of r.id) same.machines_eq ∙ (Stands-At name r w h).state_eq)
      go (ok q, v) e same =
          let found = (owned_machine_record_found name email w q (ap (λ p. p.0) e)).0 in
          let is_q : r ≡ q = ground (arith, found, h.found) in
          let there : Stands name r v = record {
            found = ap (find_name (key_of name)) same.machines_eq ∙ h.found;
            unique = rw (same.machines_eq) h.unique;
            no_faults = same.quiet h.no_faults;
          } in
          rw (← is_q) (hk v (Stands-At name r v there))

  -- When no statement of the database fails, no two machines share an identifier and a machine has the
  -- name: StopMachine, if it succeeds, answers that machine and the state in which it leaves its row,
  -- which is STOPPED, or a state that the runtime reported in its answer to the stop and that
  -- shouldAdoptRuntimeState takes over STOPPED; if it fails, the row has the state that it had before
  -- or is RUNNING.
  pub stop_machine_settles :
      (name email : Text) (r : MachineRecord) (w : World)
      → Stands name r w
      → Answered s.runtime.live_reply
          (Call.stop_machine (runtime_name_for_record r))
          r.id
          machine_state_stopped
          machine_state_running
          (some r.state)
          (stop_machine s name email w).0
          (state_of r.id (stop_machine s name email w).1.machines)
  unfolding stop_machine
  stop_machine_settles name email r w h = elim (Bool-cases (is_empty (normalize_email email))) [
    | inl nobody ↦ rw nobody (inl (Stands-At name r w h).state_eq)
    | inr given ↦ rw given (
        after_lookup-Settled s.runtime.live_reply (Call.stop_machine (runtime_name_for_record r))
          machine_state_stopped machine_state_running name (normalize_email email) r w
          (rest_of_stop s) h (rest_of_stop-Answered r))
  ]

  -- When no statement of the database fails, no two machines share an identifier and a machine has the
  -- name: StartMachine, if it succeeds, answers that machine and the state in which it leaves its row,
  -- which is RUNNING, or a state that the runtime reported in its answer to the start and that
  -- shouldAdoptRuntimeState takes over RUNNING; if it fails, the row has the state that it had before
  -- or is STOPPED.
  pub start_machine_settles :
      (fresh name email : Text) (r : MachineRecord) (w : World)
      → Stands name r w
      → Answered s.runtime.live_reply
          (Call.start_machine (runtime_name_for_record r))
          r.id
          machine_state_running
          machine_state_stopped
          (some r.state)
          (start_machine s fresh name email w).0
          (state_of r.id (start_machine s fresh name email w).1.machines)
  unfolding start_machine
  start_machine_settles fresh name email r w h =
      elim (Bool-cases (is_empty (normalize_email email))) [
        | inl nobody ↦ rw nobody (inl (Stands-At name r w h).state_eq)
        | inr given ↦ rw given (
            after_lookup-Settled s.runtime.live_reply
              (Call.start_machine (runtime_name_for_record r)) machine_state_running
              machine_state_stopped name (normalize_email email) r w
              (rest_of_start s fresh (normalize_email email)) h
              (rest_of_start-Answered fresh (normalize_email email) r))
      ]
