-- ===== src/Terminal/Machines.antt =====
-- The machines that the terminals ask for are those of the control plane: Service.GetMachine of
-- internal/controlplane/service.go is the machineManager of internal/browserterm/manager.go.
use fascinate.Base.{◌≡◌, refl, ◌∙◌, Bool, false, not, ◌∷◌, arith}
use fascinate.Base.Text.{Text, is_empty}
use fascinate.Result.{Result, Error, ok, err}
use fascinate.Database.Records.{World, MachineRecord, LiveMachine, Call}
use fascinate.Database.Monad.{M, gets, pure, statement, ◌>>=◌}
use fascinate.Database.Effect.{
  KeepsTo, IsEffect, lift-KeepsTo, bind-KeepsTo, gets-KeepsTo, attempt-KeepsTo, ask-KeepsTo,
}
use fascinate.Database.Machines.{update_machine_state, update_machine, get_machine_by_name}
use fascinate.Service.{Service, machine_host_id, runtime_name_for_record, executor_for_host_id}
use fascinate.Service.Machines.{owned_machine_record, machine_from_record}
use fascinate.Machine.Lookup.{machine_from_record_with_runtime, answered, missing_machine}
use fascinate.Terminal.{GuestMachine, TerminalService, FindsMachines}

-- machineFromRecord sets the runtime of the machine it shows when the runtime has named it.
unfoldable pub is_named : Result LiveMachine → Bool
is_named (ok live) = not (is_empty live.name)
is_named (err e) = false

guest_of : Service → Bool → MachineRecord → GuestMachine
guest_of c named r = record {
  id = r.id;
  name = r.name;
  state = r.state;
  host_id = machine_host_id r c.local_host_id;
  has_runtime = named;
}

named_next : Service → MachineRecord → World → Bool
named_next c r w =
    is_named (c.runtime.live_reply (Call.get_machine (runtime_name_for_record r) ∷ w.calls))

-- GetMachine, with what browserterm uses of its answer
unfoldable pub find_guest_machine : Service → Text → Text → M GuestMachine
unfolding guest_of named_next
find_guest_machine c name email = do
  r ← owned_machine_record name email
  named ← gets (named_next c r)
  shown ← machine_from_record_with_runtime c r
  pure (guest_of c named shown)

abbrev KeepsMemory : World → World → Type 0
KeepsMemory w v = (v.terminals ≡ w.terminals) × (v.now ≡ w.now)

KeepsMemory-IsEffect : IsEffect KeepsMemory
KeepsMemory-IsEffect = record {
  same = λ w v same. (same.terminals_eq, same.now_eq);
  chain = λ u v w f g. (g.0 ∙ f.0, g.1 ∙ f.1);
  log = λ w c es. (refl, refl);
}

owned_machine_record-KeepsTo :
    (name email : Text) → KeepsTo KeepsMemory (owned_machine_record name email)
unfolding owned_machine_record get_machine_by_name statement
owned_machine_record-KeepsTo name email = record { step = λ w. (ground arith, ground arith) }

machine_from_record-KeepsTo :
    (r : MachineRecord) (live : LiveMachine) → KeepsTo KeepsMemory (machine_from_record r live)
unfolding machine_from_record update_machine_state update_machine statement
machine_from_record-KeepsTo r live = record { step = λ w. (ground arith, ground arith) }

missing_machine-KeepsTo : (r : MachineRecord) → KeepsTo KeepsMemory (missing_machine r)
unfolding missing_machine machine_from_record update_machine_state update_machine statement
missing_machine-KeepsTo r = record { step = λ w. (ground arith, ground arith) }

answered-KeepsTo : (r : MachineRecord) (q : Result LiveMachine) → KeepsTo KeepsMemory (answered r q)
unfolding answered
answered-KeepsTo r (ok live) = machine_from_record-KeepsTo r live
answered-KeepsTo r (err Error.machine_not_found) = missing_machine-KeepsTo r
answered-KeepsTo r (err e) = lift-KeepsTo KeepsMemory-IsEffect (err e)

module _ (c : Service) where
  machine_from_record_with_runtime-KeepsTo :
      (r : MachineRecord) → KeepsTo KeepsMemory (machine_from_record_with_runtime c r)
  unfolding machine_from_record_with_runtime
  machine_from_record_with_runtime-KeepsTo r =
      let e = KeepsMemory-IsEffect in
      bind-KeepsTo e (lift-KeepsTo e (executor_for_host_id c (machine_host_id r c.local_host_id)))
        (λ executor.
          attempt-KeepsTo e
            (ask-KeepsTo e c.runtime.live_reply (Call.get_machine (runtime_name_for_record r)))
            (answered-KeepsTo r))

  find_guest_machine-KeepsTo :
      (name email : Text) → KeepsTo KeepsMemory (find_guest_machine c name email)
  unfolding find_guest_machine
  find_guest_machine-KeepsTo name email =
      let e = KeepsMemory-IsEffect in
      bind-KeepsTo e (owned_machine_record-KeepsTo name email) (λ r.
        bind-KeepsTo e (gets-KeepsTo e (named_next c r)) (λ named.
          bind-KeepsTo e (machine_from_record_with_runtime-KeepsTo r)
            (λ shown. lift-KeepsTo e (ok (guest_of c named shown)))))

  -- The control plane is what the terminals rely on: a manager that asks it for machines has its
  -- shells, its commands and the time left alone.
  pub find_guest_machine-FindsMachines :
      (s : TerminalService) → s.find_machine ≡ find_guest_machine c → FindsMachines s
  find_guest_machine-FindsMachines s same = record {
    keeps_terminals = λ name email w. rw same (((find_guest_machine-KeepsTo name email).step w).0);
    keeps_now = λ name email w. rw same (((find_guest_machine-KeepsTo name email).step w).1);
  }
