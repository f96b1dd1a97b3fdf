-- ===== src/Power/Isolation.antt =====
-- What starting and stopping a machine (internal/controlplane/machine_power.go) can change.
use fascinate.Base.{◌≡◌, refl, arith, some, ◌==◌, ℕ}
use fascinate.Base.Text.{Text, trim_space, is_empty}
use fascinate.Result.{Result, ok, err}
use fascinate.Database.Records.{World, User, MachineRecord, HostRecord, Call, EventKind}
use fascinate.Database.Monad.{M, pure, allow_missing, record_event}
use fascinate.Database.Hosts.{get_host_by_id}
use fascinate.Database.EnvVars.{list_user_env_vars}
use fascinate.Database.Frame.{get_host_by_id-Same, list_user_env_vars-Same}
use fascinate.Database.Effect.{
  KeepsTo, IsEffect, seq-KeepsTo, bind-KeepsTo, attempt-KeepsTo, Same-KeepsTo, lift-KeepsTo,
  rescue-KeepsTo, ignore-KeepsTo, ask-KeepsTo, record_event-KeepsTo, allow_missing-KeepsTo,
  if-KeepsTo,
}
use fascinate.Database.Rows.{
  Touches, Touches-IsEffect, update_machine_state-Touches, update_machine_disk_usage-Touches,
  update_machine_state_and_disk_usage-Touches,
}
use fascinate.Service.{Service, executor_for_host_id, machine_host_id, runtime_name_for_record}
use fascinate.Service.Machines.{machine_disk_usage_bytes, refresh_machine_disk_usage, host_by_id}
use fascinate.Service.Storage.{ResourceSpec}
use fascinate.Database.Machines.{update_machine_state_and_disk_usage}
use fascinate.Database.Frame.{Same}
use fascinate.Service.State.{
  machine_state_running, machine_state_stopped, machine_state_starting, machine_state_stopping,
}
use fascinate.Env.Render.{render_effective_env}
use fascinate.Env.Vars.{
  region_of_host, builtins_of, render_machine_env_map, sync_managed_env, raw_env_var_map,
}
use fascinate.Budget.Effects.{
  ensure_user_can_start_machine-Same, ensure_host_can_start_machine-Same,
}
use fascinate.Budget.Check.{ensure_user_can_start_machine, ensure_host_can_start_machine}
use fascinate.Power.Stop.{finish_stop_success, finish_stop_failure, run_stop, perform_stop}
use fascinate.Power.Start.{
  persist_state, finish_start_success, finish_start_failure, stop_again, perform_start, run_start,
  admit_start,
}

-- Queries and calls of the runtime touch no row at all.
module _ (s : Service) {R : World → World → Type 0} (e : IsEffect R) where
  region_of_host-KeepsTo : (h : Text) → KeepsTo R (region_of_host s h)
  unfolding region_of_host
  region_of_host-KeepsTo h =
      if-KeepsTo e (is_empty h) (lift-KeepsTo e (ok (trim_space s.cfg.host_region)))
        (attempt-KeepsTo e (Same-KeepsTo e (get_host_by_id h) (get_host_by_id-Same h)) after)
    where
      after :
          (r : Result HostRecord)
          → KeepsTo R (elim r as (λ _. M Text) [
            | ok host ↦ pure (trim_space host.region)
            | err _ ↦ pure (trim_space s.cfg.host_region)
          ])
      after (ok host) = lift-KeepsTo e (ok (trim_space host.region))
      after (err x) = lift-KeepsTo e (ok (trim_space s.cfg.host_region))

  builtins_of-KeepsTo : (r : MachineRecord) → KeepsTo R (builtins_of s r)
  unfolding builtins_of
  builtins_of-KeepsTo r =
      bind-KeepsTo e (region_of_host-KeepsTo (machine_host_id r s.local_host_id))
        λ region. lift-KeepsTo e (ok _)

  pub sync_managed_env-KeepsTo : (r : MachineRecord) → KeepsTo R (sync_managed_env s r)
  unfolding sync_managed_env render_machine_env_map
  sync_managed_env-KeepsTo r =
      bind-KeepsTo e (lift-KeepsTo e (executor_for_host_id s (machine_host_id r s.local_host_id)))
        λ _.
          bind-KeepsTo e
            (bind-KeepsTo e
              (Same-KeepsTo e (list_user_env_vars r.owner_user_id)
                (list_user_env_vars-Same r.owner_user_id))
              λ records. bind-KeepsTo e (builtins_of-KeepsTo r) λ builtins.
                lift-KeepsTo e (render_effective_env builtins (raw_env_var_map records)))
            λ _.
              ask-KeepsTo e s.runtime.unit_reply (Call.sync_managed_env (runtime_name_for_record r))

  machine_disk_usage_bytes-KeepsTo : (r : MachineRecord) → KeepsTo R (machine_disk_usage_bytes s r)
  unfolding machine_disk_usage_bytes
  machine_disk_usage_bytes-KeepsTo r =
      bind-KeepsTo e (lift-KeepsTo e (executor_for_host_id s (machine_host_id r s.local_host_id)))
        λ _. ask-KeepsTo e s.runtime.usage_reply (Call.inspect_machine (runtime_name_for_record r))

pub host_by_id-Same : (h : Text) (w : World) → Same w (host_by_id h w).1
unfolding host_by_id
host_by_id-Same h w = ground (arith, get_host_by_id-Same h w)

module _ (s : Service) where
  pub refresh-Touches :
      (r : MachineRecord) → KeepsTo (Touches r.id) (refresh_machine_disk_usage s r)
  unfolding refresh_machine_disk_usage
  refresh-Touches r = bind-KeepsTo e (machine_disk_usage_bytes-KeepsTo s e r) λ bytes.
      if-KeepsTo e (bytes == r.disk_usage_bytes) (lift-KeepsTo e (ok r))
        (seq-KeepsTo e (update_machine_disk_usage-Touches r.id bytes) (lift-KeepsTo e (ok _)))
    where
      e : IsEffect (Touches r.id)
      e = Touches-IsEffect r.id

  -- The refreshed row is the row that was given, in all but its disk usage.
  pub refresh_id :
      (r q : MachineRecord) (w w' : World)
      → refresh_machine_disk_usage s r w ≡ (ok q, w')
      → q.id ≡ r.id
  unfolding refresh_machine_disk_usage
  refresh_id r q w w' h = ground arith

  pub persist_state-Touches :
      (r : MachineRecord) (st : Text) → KeepsTo (Touches r.id) (persist_state s r st)
  unfolding persist_state
  persist_state-Touches r st = record {
    step = λ w. after w (refresh_machine_disk_usage s r w) refl ((refresh-Touches r).step w);
  }
    where
      e : IsEffect (Touches r.id)
      e = Touches-IsEffect r.id

      write :
          (i : Text) (n : ℕ)
          → i ≡ r.id
          → KeepsTo (Touches r.id) (allow_missing (update_machine_state_and_disk_usage i st n))
      write i n h =
          rw h (allow_missing-KeepsTo e (update_machine_state_and_disk_usage-Touches r.id st n))

      after :
          (w : World) (p : Result MachineRecord × World)
          → refresh_machine_disk_usage s r w ≡ p
          → Touches r.id w p.1
          → Touches r.id w (persist_state s r st w).1
      after w (ok q, v) h t = rw h (e.chain w v _ t ((write q.id _ (refresh_id r q w v h)).step v))
      after w (err x, v) h t = rw h (e.chain w v _ t ((write r.id _ refl).step v))

  -- The cleanups and the run, at a row r.
  module _ (r : MachineRecord) where
    e : IsEffect (Touches r.id)
    e = Touches-IsEffect r.id

    finish_start_success-Touches : KeepsTo (Touches r.id) (finish_start_success s r)
    unfolding finish_start_success
    finish_start_success-Touches =
        seq-KeepsTo e (persist_state-Touches r machine_state_running) (record_event-KeepsTo e _ _ _)

    finish_start_failure-Touches : KeepsTo (Touches r.id) (finish_start_failure s r)
    unfolding finish_start_failure
    finish_start_failure-Touches = ignore-KeepsTo e (
        seq-KeepsTo e
          (allow_missing-KeepsTo e (update_machine_state-Touches r.id machine_state_stopped))
          (record_event-KeepsTo e _ _ _))

    stop_again-Touches : KeepsTo (Touches r.id) (stop_again s r)
    unfolding stop_again
    stop_again-Touches =
        seq-KeepsTo e (ignore-KeepsTo e (ask-KeepsTo e s.runtime.live_reply _))
          finish_start_failure-Touches

    run_start-Touches : KeepsTo (Touches r.id) (run_start s r)
    unfolding run_start
    run_start-Touches =
        seq-KeepsTo e
          (rescue-KeepsTo e
            (lift-KeepsTo e (executor_for_host_id s (machine_host_id r s.local_host_id)))
            (ignore-KeepsTo e (update_machine_state-Touches r.id machine_state_stopped)))
          (bind-KeepsTo e
            (rescue-KeepsTo e (ask-KeepsTo e s.runtime.live_reply _) finish_start_failure-Touches)
            λ live.
              seq-KeepsTo e (rescue-KeepsTo e (sync_managed_env-KeepsTo s e r) stop_again-Touches) (
                seq-KeepsTo e
                  (rescue-KeepsTo e finish_start_success-Touches finish_start_failure-Touches)
                  (lift-KeepsTo e (ok live))))

    finish_stop_success-Touches : KeepsTo (Touches r.id) (finish_stop_success s r)
    unfolding finish_stop_success
    finish_stop_success-Touches =
        seq-KeepsTo e (persist_state-Touches r machine_state_stopped) (record_event-KeepsTo e _ _ _)

    finish_stop_failure-Touches : KeepsTo (Touches r.id) (finish_stop_failure s r)
    unfolding finish_stop_failure
    finish_stop_failure-Touches = ignore-KeepsTo e (
        seq-KeepsTo e
          (allow_missing-KeepsTo e (update_machine_state-Touches r.id machine_state_running))
          (record_event-KeepsTo e _ _ _))

    run_stop-Touches : KeepsTo (Touches r.id) (run_stop s r)
    unfolding run_stop
    run_stop-Touches =
        seq-KeepsTo e
          (rescue-KeepsTo e
            (lift-KeepsTo e (executor_for_host_id s (machine_host_id r s.local_host_id)))
            (ignore-KeepsTo e (update_machine_state-Touches r.id machine_state_running)))
          (bind-KeepsTo e
            (rescue-KeepsTo e (ask-KeepsTo e s.runtime.live_reply _) finish_stop_failure-Touches)
            λ live.
              seq-KeepsTo e
                (rescue-KeepsTo e finish_stop_success-Touches finish_stop_failure-Touches)
                (lift-KeepsTo e (ok live)))

    pub admit_start-Touches :
        (user : User) (spec : ResourceSpec) → KeepsTo (Touches r.id) (admit_start s user r spec)
    unfolding admit_start
    admit_start-Touches user spec =
        bind-KeepsTo e
          (Same-KeepsTo e (host_by_id (machine_host_id r s.local_host_id))
            (host_by_id-Same (machine_host_id r s.local_host_id)))
          λ host.
            seq-KeepsTo e
              (rescue-KeepsTo e
                (Same-KeepsTo e (ensure_user_can_start_machine s user spec)
                  (ensure_user_can_start_machine-Same s user spec))
                rejected)
              (seq-KeepsTo e
                (rescue-KeepsTo e
                  (Same-KeepsTo e (ensure_host_can_start_machine s host spec)
                    (ensure_host_can_start_machine-Same s host spec))
                  rejected)
                (update_machine_state-Touches r.id machine_state_starting))
      where
        rejected :
            KeepsTo
              (Touches r.id)
              (record_event (some user.id) (some r.id) EventKind.machine_start_rejected)
        rejected = record_event-KeepsTo e _ _ _

  -- Starting a machine, whatever fails on the way, changes no table but that of the machines, no row
  -- there but the machine's, and of that row the state and the disk usage alone.
  pub perform_start-Touches :
      (user : User) (r : MachineRecord) (spec : ResourceSpec) (w : World)
      → Touches r.id w (perform_start s user r spec w).1
  unfolding perform_start
  perform_start-Touches user r spec w =
      (seq-KeepsTo e (admit_start-Touches r user spec) (
          seq-KeepsTo e (record_event-KeepsTo e _ _ _)
            (run_start-Touches (record r { state = machine_state_starting })))).step
        w
    where
      e : IsEffect (Touches r.id)
      e = Touches-IsEffect r.id

  -- Stopping a machine, whatever fails on the way, changes no table but that of the machines, no row
  -- there but the machine's, and of that row the state and the disk usage alone.
  pub perform_stop-Touches : (r : MachineRecord) (w : World) → Touches r.id w (perform_stop s r w).1
  unfolding perform_stop
  perform_stop-Touches r w =
      (seq-KeepsTo e (update_machine_state-Touches r.id machine_state_stopping) (
          seq-KeepsTo e (record_event-KeepsTo e _ _ _)
            (run_stop-Touches (record r { state = machine_state_stopping })))).step
        w
    where
      e : IsEffect (Touches r.id)
      e = Touches-IsEffect r.id
