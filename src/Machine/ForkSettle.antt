-- ===== src/Machine/ForkSettle.antt =====
-- Where ForkMachine (internal/controlplane/service.go) leaves the row of its target.
use mathlib.Core.Path.{subst}
use fascinate.Base.{ℕ, ◌≡◌, refl, ◌∙◌, ◌∷◌, inl, inr, ap, Option, some, arith, true, false}
use fascinate.Base.Text.{Text}
use fascinate.Result.{Result, Result-cases, ok, err, is_ok}
use fascinate.Database.Records.{World, User, MachineRecord, LiveMachine, Call, EventKind}
use fascinate.Database.Monad.{M, ask, rescue, record_event, statement, ◌>>◌}
use fascinate.Database.Effect.{
  record_event-KeepsTo, KeepsTo, IsEffect, attempt-KeepsTo, lift-KeepsTo, ask-KeepsTo,
}
use fascinate.Database.Machines.{update_machine_state, update_machine_state_and_disk_usage}
use fascinate.Database.Users.{mark_user_tutorial_completed}
use fascinate.Database.Rows.{
  Touches, Touches-IsEffect, Ready, update_machine_state_and_disk_usage-Touches,
}
use fascinate.Database.Leaves.{
  record_event_machines, record_event_ok, state_of, update_machine_state-Leaves,
  update_machine_state_and_disk_usage-Leaves, ask_reply,
}
use fascinate.Database.Named.{get_machine_by_name-id_named}
use fascinate.Service.{Service, machine_host_id, runtime_name_for_record}
use fascinate.Service.State.{machine_state_failed}
use fascinate.Service.Storage.{retained_machine_disk_bytes}
use fascinate.Service.Machines.{
  machine_from_record, cleanup_runtime_machine, refresh_machine_disk_usage, kept_or_fail,
  refresh_if_known,
}
use fascinate.Env.Vars.{sync_managed_env}
use fascinate.Power.Isolation.{refresh-Touches, sync_managed_env-KeepsTo}
use fascinate.Machine.Request.{mark_user_tutorial_completed_best_effort}
use fascinate.Machine.Fork.{forked, finish_fork_failure, run_fork}
use fascinate.Machine.Settle.{Filed, Touches-Filed, cleanup-KeepsTo, cleanup_ok}

-- No row of the table of machines has changed.
abbrev SameRows : World → World → Type 0
SameRows w w' = w'.machines ≡ w.machines

SameRows-IsEffect : IsEffect SameRows
SameRows-IsEffect = record {
  same = λ w w' h. h.machines_eq;
  chain = λ u v w h k. k ∙ h;
  log = λ w c es. refl;
}

-- Marking the tutorial as done touches no machine.
Filed-tutorial :
    (u i n : Text) (w : World)
    → Filed i n w
    → Filed i n (mark_user_tutorial_completed_best_effort u w).1
unfolding mark_user_tutorial_completed_best_effort mark_user_tutorial_completed statement
Filed-tutorial u i n w f = record {
  ready = record { no_faults = ground arith; known = ground arith };
  named = ground arith;
}

tutorial_machines :
    (u : Text) (w : World) → (mark_user_tutorial_completed_best_effort u w).1.machines ≡ w.machines
unfolding mark_user_tutorial_completed_best_effort mark_user_tutorial_completed statement
tutorial_machines u w = ground arith

tutorial_ok : (u : Text) (w : World) → (mark_user_tutorial_completed_best_effort u w).0 ≡ ok tt
unfolding mark_user_tutorial_completed_best_effort
tutorial_ok u w = refl

module _ (s : Service) where
  refresh_if_known-Touches : (r : MachineRecord) → KeepsTo (Touches r.id) (refresh_if_known s r)
  unfolding refresh_if_known
  refresh_if_known-Touches r =
      attempt-KeepsTo (Touches-IsEffect r.id) (refresh-Touches s r)
        λ q. lift-KeepsTo (Touches-IsEffect r.id) (kept_or_fail s r q)

  -- The refreshed row is the row in all but its disk usage.
  refresh_if_known_kept :
      (r q : MachineRecord) (w w' : World)
      → refresh_if_known s r w ≡ (ok q, w')
      → (q.id ≡ r.id) × (q.name ≡ r.name) × (q.state ≡ r.state)
  unfolding refresh_if_known refresh_machine_disk_usage kept_or_fail
  refresh_if_known_kept r q w w' h = (ground arith, ground arith, ground arith)

  finish_fork_failure_state :
      (r : MachineRecord) (w : World)
      → Filed r.id r.name w
      → (state_of r.id (finish_fork_failure s r w).1.machines ≡ some machine_state_failed)
        × ((finish_fork_failure s r w).0 ≡ ok tt)
  unfolding finish_fork_failure
  finish_fork_failure_state r w f =
      let (q, (found, same)) = get_machine_by_name-id_named r.name r.id v fv.ready fv.named in
      (
        ground (
          arith,
          cleanup_ok s name host_id w,
          found,
          same,
          (update_machine_state-Leaves r.id machine_state_failed).state_is v fv.ready,
          record_event_machines (some r.owner_user_id) (some r.id) EventKind.machine_fork_failed
              (update_machine_state r.id machine_state_failed v).1,
        ),
        ground (
          arith,
          cleanup_ok s name host_id w,
          found,
          same,
          record_event_ok (some r.owner_user_id) (some r.id) EventKind.machine_fork_failed
              (update_machine_state r.id machine_state_failed v).1,
        ),
      )
    where
      name : Text
      name = runtime_name_for_record r

      host_id : Text
      host_id = machine_host_id r s.local_host_id

      v : World
      v = (cleanup_runtime_machine s name host_id w).1

      fv : Filed r.id r.name v
      fv =
          Touches-Filed r.id r.name w v
            ((cleanup-KeepsTo s (Touches-IsEffect r.id) name host_id).step w) f

-- Showing a row that is in the runtime's state leaves it there.
machine_from_record_state :
    (r : MachineRecord) (live : LiveMachine) (w : World)
    → Ready r.id w
    → state_of r.id w.machines ≡ some live.state
    → (state_of r.id (machine_from_record r live w).1.machines ≡ some live.state)
      × (is_ok (machine_from_record r live w).0 ≡ true)
unfolding machine_from_record
machine_from_record_state r live w d h =
    (ground (arith, (update_machine_state-Leaves r.id live.state).state_is w d), ground arith)

module _ (s : Service) (user : User) where
  -- The part of run_fork behind the refresh.
  abbrev rest_of_fork : MachineRecord → LiveMachine → M MachineRecord
  rest_of_fork refreshed live = do
    rescue
        (update_machine_state_and_disk_usage refreshed.id live.state
          (retained_machine_disk_bytes refreshed))
        (finish_fork_failure s refreshed)
    mark_user_tutorial_completed_best_effort user.id
    rescue (sync_managed_env s refreshed) (finish_fork_failure s refreshed)
    record_event (some user.id) (some refreshed.id) EventKind.machine_fork_succeeded
    machine_from_record refreshed live

  -- The state that an outcome of a fork leaves.
  abbrev pub Ended : LiveMachine → Result MachineRecord → Option Text → Type 0
  Ended live (ok r) state = state ≡ some live.state
  Ended live (err x) state = state ≡ some machine_state_failed

  Ended-ok :
      (live : LiveMachine) (q : Result MachineRecord) (state : Option Text)
      → is_ok q ≡ true
      → state ≡ some live.state
      → Ended live q state
  Ended-ok live (ok r) state h e = e
  Ended-ok live (err x) state h e = absurd (ground arith)

  Ended-err :
      (live : LiveMachine) (q : Result MachineRecord) (state : Option Text)
      → is_ok q ≡ false
      → state ≡ some machine_state_failed
      → Ended live q state
  Ended-err live (ok r) state h e = absurd (ground arith)
  Ended-err live (err x) state h e = e

  rest_of_fork_settles :
      (r : MachineRecord) (live : LiveMachine) (w : World)
      → Filed r.id r.name w
      → Ended live (rest_of_fork r live w).0 (state_of r.id (rest_of_fork r live w).1.machines)
  rest_of_fork_settles r live w f = elim (Result-cases (sync_managed_env s r w2).0) [
    | inr (x, failed) ↦
        let (state, done) = finish_fork_failure_state s r w3 f3 in
        Ended-err live _ _ (ground (arith, wrote, tutorial_ok user.id w1, failed, done))
          (ground (arith, wrote, tutorial_ok user.id w1, failed, done, state))
    | inl (u, synced) ↦
        let (state, done) = machine_from_record_state r live w4 f4.ready state4 in
        Ended-ok live _ _ (ground (arith, wrote, tutorial_ok user.id w1, synced, ok4, done))
          (ground (arith, wrote, tutorial_ok user.id w1, synced, ok4, done, state))
  ]
    where
      e : IsEffect (Touches r.id)
      e = Touches-IsEffect r.id

      n : ℕ
      n = retained_machine_disk_bytes r

      wrote : (update_machine_state_and_disk_usage r.id live.state n w).0 ≡ ok tt
      wrote = (update_machine_state_and_disk_usage-Leaves r.id live.state n).succeeds w f.ready

      w1 : World
      w1 = (update_machine_state_and_disk_usage r.id live.state n w).1

      f1 : Filed r.id r.name w1
      f1 =
          Touches-Filed r.id r.name w w1
            ((update_machine_state_and_disk_usage-Touches r.id live.state n).step w) f

      w2 : World
      w2 = (mark_user_tutorial_completed_best_effort user.id w1).1

      w3 : World
      w3 = (sync_managed_env s r w2).1

      f3 : Filed r.id r.name w3
      f3 =
          Touches-Filed r.id r.name w2 w3 ((sync_managed_env-KeepsTo s e r).step w2)
            (Filed-tutorial user.id r.id r.name w1 f1)

      same3 : w3.machines ≡ w2.machines
      same3 = (sync_managed_env-KeepsTo s SameRows-IsEffect r).step w2

      w4 : World
      w4 = (record_event (some user.id) (some r.id) EventKind.machine_fork_succeeded w3).1

      ok4 : (record_event (some user.id) (some r.id) EventKind.machine_fork_succeeded w3).0 ≡ ok tt
      ok4 = record_event_ok (some user.id) (some r.id) EventKind.machine_fork_succeeded w3

      f4 : Filed r.id r.name w4
      f4 =
          Touches-Filed r.id r.name w3 w4
            ((record_event-KeepsTo e (some user.id) (some r.id)
                EventKind.machine_fork_succeeded).step
              w3)
            f3

      state4 : state_of r.id w4.machines ≡ some live.state
      state4 =
          ap (state_of r.id) (
            record_event_machines (some user.id) (some r.id) EventKind.machine_fork_succeeded w3
            ∙ same3
            ∙ tutorial_machines user.id w1)
          ∙ (update_machine_state_and_disk_usage-Leaves r.id live.state n).state_is w f.ready

  -- The answer of the runtime to the fork, as the next call.
  abbrev pub fork_reply : MachineRecord → Text → World → Result LiveMachine
  fork_reply source target w =
      s.runtime.live_reply (Call.fork_machine (runtime_name_for_record source) target ∷ w.calls)

  -- The state by the runtime's answer.
  abbrev pub Forked : Result LiveMachine → Result MachineRecord → Option Text → Type 0
  Forked (ok live) q state = Ended live q state
  Forked (err x) q state = (is_ok q ≡ false) × (state ≡ some machine_state_failed)

  -- When the database does not fail and the target's row is there under its name, a fork that
  -- succeeds leaves the target in the state that the runtime reported, and a fork that fails
  -- leaves it FAILED; it fails if the runtime refuses.
  pub run_fork_settles :
      (source r : MachineRecord) (target : Text) (w : World)
      → Filed r.id r.name w
      → Forked
          (fork_reply source target w)
          (run_fork s user source r target w).0
          (state_of r.id (run_fork s user source r target w).1.machines)
  unfolding run_fork
  run_fork_settles source r target w f = answer (fork_reply source target w) asked
    where
      c : Call
      c = Call.fork_machine (runtime_name_for_record source) target

      e : IsEffect (Touches r.id)
      e = Touches-IsEffect r.id

      w1 : World
      w1 = (ask s.runtime.live_reply c w).1

      f1 : Filed r.id r.name w1
      f1 = Touches-Filed r.id r.name w w1 ((ask-KeepsTo e s.runtime.live_reply c).step w) f

      asked : (ask s.runtime.live_reply c w).0 ≡ fork_reply source target w
      asked = ask_reply s.runtime.live_reply c w

      refreshing :
          (live : LiveMachine) (p : Result MachineRecord × World)
          → refresh_if_known s (forked s r live) w1 ≡ p
          → Touches r.id w1 p.1
          → (ask s.runtime.live_reply c w).0 ≡ ok live
          → Ended live
              (run_fork s user source r target w).0
              (state_of r.id (run_fork s user source r target w).1.machines)
      refreshing live (ok q, v) h t k =
          let (i, n, st) = refresh_if_known_kept s (forked s r live) q w1 v h in
          let same : run_fork s user source r target w ≡ rest_of_fork q live v =
            ground (arith, k, h) in
          let filed : Filed q.id q.name v = rw (i, n) (Touches-Filed r.id r.name w1 v t f1) in
          rw same (
            subst
              (λ j.
                Ended live (rest_of_fork q live v).0
                  (state_of j (rest_of_fork q live v).1.machines))
              i (rest_of_fork_settles q live v filed))
      refreshing live (err x, v) h t k =
          let (state, done) =
            finish_fork_failure_state s (forked s r live) v (Touches-Filed r.id r.name w1 v t f1) in
          Ended-err live _ _ (ground (arith, k, h, done)) (ground (arith, k, h, state, done))

      answer :
          (q : Result LiveMachine)
          → (ask s.runtime.live_reply c w).0 ≡ q
          → Forked q
              (run_fork s user source r target w).0
              (state_of r.id (run_fork s user source r target w).1.machines)
      answer (ok live) k =
          refreshing live (refresh_if_known s (forked s r live) w1) refl
            ((refresh_if_known-Touches s (forked s r live)).step w1) k
      answer (err x) k =
          let (state, done) = finish_fork_failure_state s r w1 f1 in
          (ground (arith, k, done), ground (arith, k, state, done))
