-- ===== src/Machine/Settle.antt =====
-- Where the task that makes a machine (internal/controlplane/service.go) leaves its row.
use fascinate.Base.{◌∷◌, ◌≡◌, refl, ◌⊎◌, inl, inr, some, arith}
use fascinate.Base.Text.{Text, trim_space}
use fascinate.Result.{Result, Result-cases, ok}
use fascinate.Database.Records.{World, MachineRecord, LiveMachine, Call, EventKind}
use fascinate.Database.Monad.{ask}
use fascinate.Database.Effect.{
  record_event-KeepsTo, KeepsTo, IsEffect, ignore-KeepsTo, bind-KeepsTo, lift-KeepsTo, ask-KeepsTo,
}
use fascinate.Database.Machines.{update_machine_state}
use fascinate.Database.Rows.{Touches, Touches-IsEffect, Touches-Ready, Ready}
use fascinate.Power.Isolation.{sync_managed_env-KeepsTo}
use fascinate.Env.Vars.{sync_managed_env}
use fascinate.Database.Leaves.{
  record_event_ok, record_event_calls, ask_reply, record_event_machines, state_of,
  update_machine_state-Leaves,
}
use fascinate.Database.Named.{id_named, Touches-id_named, get_machine_by_name-id_named}
use fascinate.Service.{Service, executor_for_host_id, machine_host_id}
use fascinate.Service.State.{machine_state_failed}
use fascinate.Service.Machines.{event_of, cleanup_runtime_machine}
use fascinate.Power.Settle.{write_state, write_state-Leaves}
use fascinate.Machine.Create.{
  run_machine_create, after_update, finish_create_success, finish_create_failure,
}

-- The row i is there under the name n, and no statement will fail.
pub record Filed (i n : Text) (w : World) : Type 0 where
  pub ready : Ready i w
  pub named : id_named (trim_space n) w.machines ≡ some i

pub Touches-Filed : (i n : Text) (w w' : World) → Touches i w w' → Filed i n w → Filed i n w'
Touches-Filed i n w w' t f = record {
  ready = Touches-Ready i w w' t f.ready;
  named = Touches-id_named i (trim_space n) i w w' t f.named;
}

module _ (s : Service) where
  pub cleanup-KeepsTo :
      {R : World → World → Type 0}
      → IsEffect R
      → (name host_id : Text) → KeepsTo R (cleanup_runtime_machine s name host_id)
  unfolding cleanup_runtime_machine
  cleanup-KeepsTo e name host_id = ignore-KeepsTo e (
      bind-KeepsTo e (lift-KeepsTo e (executor_for_host_id s host_id))
        λ _. ask-KeepsTo e s.runtime.unit_reply (Call.delete_machine name))

  pub cleanup_ok :
      (name host_id : Text) (w : World) → (cleanup_runtime_machine s name host_id w).0 ≡ ok tt
  unfolding cleanup_runtime_machine
  cleanup_ok name host_id w = refl

  pub finish_create_failure_state :
      (r : MachineRecord) (name : Text) (w : World)
      → Filed r.id r.name w
      → state_of r.id (finish_create_failure s r name w).1.machines ≡ some machine_state_failed
  unfolding finish_create_failure
  finish_create_failure_state r name w f =
      let (q, (found, same)) = get_machine_by_name-id_named r.name r.id v fv.ready fv.named in
      ground (
        arith,
        cleanup_ok name (machine_host_id r s.local_host_id) w,
        found,
        same,
        (update_machine_state-Leaves r.id machine_state_failed).state_is v fv.ready,
        record_event_machines (some r.owner_user_id) (some r.id) EventKind.machine_create_failed
            (update_machine_state r.id machine_state_failed v).1,
      )
    where
      v : World
      v = (cleanup_runtime_machine s name (machine_host_id r s.local_host_id) w).1

      fv : Filed r.id r.name v
      fv =
          Touches-Filed r.id r.name w v
            ((cleanup-KeepsTo (Touches-IsEffect r.id) name (machine_host_id r s.local_host_id)).step
              w)
            f

  -- The same for the row q that a query by name found.
  write_state_found :
      (q : MachineRecord) (i st : Text) (w : World)
      → q.id ≡ i
      → Ready i w
      → ((write_state s q st w).0 ≡ ok tt)
        × (state_of i (write_state s q st w).1.machines ≡ some st)
  write_state_found q i st w same d =
      let d' : Ready q.id w = rw same d in
      (
        (write_state-Leaves s q st).succeeds w d',
        rw (← same) ((write_state-Leaves s q st).state_is w d'),
      )

  finish_create_success_state :
      (r : MachineRecord) (live : LiveMachine) (w : World)
      → Filed r.id r.name w
      → state_of r.id (finish_create_success s r live w).1.machines ≡ some live.state
  unfolding finish_create_success after_update
  finish_create_success_state r live w f =
      let (q, (found, same)) = get_machine_by_name-id_named r.name r.id w f.ready f.named in
      let (done, state) = write_state_found q r.id live.state w same f.ready in
      ground (
        arith,
        found,
        done,
        state,
        record_event_machines (some r.owner_user_id) (some r.id) EventKind.machine_create_succeeded
            (write_state s q live.state w).1,
      )

  event-Touches :
      (r : MachineRecord) (kind : EventKind) (w : World) → Touches r.id w (event_of r kind w).1
  event-Touches r kind w =
      (record_event-KeepsTo (Touches-IsEffect r.id) (some r.owner_user_id) (some r.id) kind).step w

  -- The answer of the runtime to the creation, as the first call of the task.
  abbrev pub create_reply : Text → World → Result LiveMachine
  create_reply name w = s.runtime.live_reply (Call.create_machine name ∷ w.calls)

  -- When the database does not fail and the machine's row is there under its name, the task that
  -- creates a machine ends with the row FAILED, or, if the runtime has made the machine, with the
  -- row in the state that the runtime reported.
  pub run_machine_create_settles :
      (r : MachineRecord) (name : Text) (w : World)
      → Filed r.id r.name w
      → (state_of r.id (run_machine_create s r name w).1.machines ≡ some machine_state_failed)
        ⊎ ((live : LiveMachine) × ((create_reply name w ≡ ok live)
              × (state_of r.id (run_machine_create s r name w).1.machines ≡ some live.state)))
  unfolding run_machine_create
  run_machine_create_settles r name w f =
      elim (Result-cases (executor_for_host_id s (machine_host_id r s.local_host_id))) [
        | inr (x, no_host) ↦ inl (ground (arith, ok1, finish_create_failure_state r name w1 f1))
        | inl (key, host) ↦ elim (Result-cases (create_reply name w)) [
          | inr (x, refused) ↦
              inl (ground (arith, ok1, asked, calls1, finish_create_failure_state r name w2 f2))
          | inl (live, made) ↦ elim (Result-cases (sync_managed_env s r w3).0) [
            | inr (x, failed) ↦
                inl (
                  ground (arith, ok1, ok2, asked, calls1, finish_create_failure_state r name w4 f4))
            | inl (u, synced) ↦ inr (
              live,
              (
                made,
                ground (arith, ok1, ok2, asked, calls1, finish_create_success_state r live w4 f4),
              ),
            )
          ]
        ]
      ]
    where
      w1 : World
      w1 = (event_of r EventKind.machine_create_started w).1

      w2 : World
      w2 = (ask s.runtime.live_reply (Call.create_machine name) w1).1

      w3 : World
      w3 = (event_of r EventKind.machine_create_runtime_ready w2).1

      w4 : World
      w4 = (sync_managed_env s r w3).1

      e : IsEffect (Touches r.id)
      e = Touches-IsEffect r.id

      f1 : Filed r.id r.name w1
      f1 = Touches-Filed r.id r.name w w1 (event-Touches r EventKind.machine_create_started w) f

      f2 : Filed r.id r.name w2
      f2 =
          Touches-Filed r.id r.name w1 w2
            ((ask-KeepsTo e s.runtime.live_reply (Call.create_machine name)).step w1) f1

      f3 : Filed r.id r.name w3
      f3 =
          Touches-Filed r.id r.name w2 w3
            (event-Touches r EventKind.machine_create_runtime_ready w2) f2

      f4 : Filed r.id r.name w4
      f4 = Touches-Filed r.id r.name w3 w4 ((sync_managed_env-KeepsTo s e r).step w3) f3

      ok1 : (event_of r EventKind.machine_create_started w).0 ≡ ok tt
      ok1 = record_event_ok (some r.owner_user_id) (some r.id) EventKind.machine_create_started w

      ok2 : (event_of r EventKind.machine_create_runtime_ready w2).0 ≡ ok tt
      ok2 =
          record_event_ok (some r.owner_user_id) (some r.id) EventKind.machine_create_runtime_ready
            w2

      calls1 : w1.calls ≡ w.calls
      calls1 =
          record_event_calls (some r.owner_user_id) (some r.id) EventKind.machine_create_started w

      asked :
          (ask s.runtime.live_reply (Call.create_machine name) w1).0
          ≡ s.runtime.live_reply (Call.create_machine name ∷ w1.calls)
      asked = ask_reply s.runtime.live_reply (Call.create_machine name) w1
