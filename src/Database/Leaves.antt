-- ===== src/Database/Leaves.antt =====
-- Operations that leave a row of the table of machines in a given state.
use fascinate.Base.{
  ℕ, ◌≡◌, refl, ap, ◌∙◌, true, Option, none, some, List, [], ◌∷◌, arith, if◌then◌else◌,
}
use fascinate.Base.Text.{Text, text_eq}
use fascinate.Result.{Result, ok}
use fascinate.Database.Records.{World, MachineRecord, EventKind, Call}
use fascinate.Database.Monad.{M, ask, statement, attempt, ignore, allow_missing, record_event, ◌>>◌}
use fascinate.Database.Effect.{KeepsTo}
use fascinate.Database.Machines.{
  has_id, update_rows, update_machine, update_machine_state, update_machine_state_and_disk_usage,
}
use fascinate.Database.Rows.{Touches, Touches-Ready, Ready}

-- The state of the row with an identifier.
unfoldable pub state_of : Text → List MachineRecord → Option Text
state_of i [] = none
state_of i (r ∷ rs) = if text_eq r.id i then some r.state else state_of i rs

state_of-update_rows :
    (i st : Text) (f : MachineRecord → MachineRecord)
    → ((r : MachineRecord) → (f r).id ≡ r.id)
    → ((r : MachineRecord) → (f r).state ≡ st)
    → (rows : List MachineRecord) → has_id i rows ≡ true
    → state_of i (update_rows i f rows) ≡ some st
unfolding state_of update_rows has_id
state_of-update_rows i st f hi hs [] k = absurd (ground arith)
state_of-update_rows i st f hi hs (r ∷ rs) k =
    ground (arith, hi r, hs r, state_of-update_rows i st f hi hs rs)

-- On a row that is there, without faults, an operation succeeds and leaves the row in a state.
pub record Leaves (i st : Text) (m : M (Unit {0})) : Type 0 where
  pub succeeds : (w : World) → Ready i w → (m w).0 ≡ ok tt
  pub state_is : (w : World) → Ready i w → state_of i (m w).1.machines ≡ some st

update_machine-Leaves :
    (i st : Text) (f : MachineRecord → MachineRecord)
    → ((r : MachineRecord) → (f r).id ≡ r.id)
    → ((r : MachineRecord) → (f r).state ≡ st)
    → Leaves i st (update_machine i f)
unfolding update_machine statement
update_machine-Leaves i st f hi hs = record {
  succeeds = λ w d. ground (arith, d.no_faults, d.known);
  state_is = λ w d.
      ground (arith, d.no_faults, d.known, state_of-update_rows i st f hi hs w.machines d.known);
}

pub update_machine_state-Leaves : (i st : Text) → Leaves i st (update_machine_state i st)
unfolding update_machine_state
update_machine_state-Leaves i st = update_machine-Leaves i st _ (λ r. refl) (λ r. refl)

pub update_machine_state_and_disk_usage-Leaves :
    (i st : Text) (n : ℕ) → Leaves i st (update_machine_state_and_disk_usage i st n)
unfolding update_machine_state_and_disk_usage
update_machine_state_and_disk_usage-Leaves i st n =
    update_machine-Leaves i st _ (λ r. refl) (λ r. refl)

pub record_event_machines :
    (a m : Option Text) (k : EventKind) (w : World) → (record_event a m k w).1.machines ≡ w.machines
unfolding record_event statement
record_event_machines a m k w = ground arith

pub record_event_calls :
    (a m : Option Text) (k : EventKind) (w : World) → (record_event a m k w).1.calls ≡ w.calls
unfolding record_event statement
record_event_calls a m k w = ground arith

pub ask_reply :
    {A : Type 0} (reply : List Call → Result A) (c : Call) (w : World)
    → (ask reply c w).0 ≡ reply (c ∷ w.calls)
unfolding ask
ask_reply reply c w = refl

pub record_event_ok :
    (a m : Option Text) (k : EventKind) (w : World) → (record_event a m k w).0 ≡ ok tt
unfolding record_event
record_event_ok a m k w = refl

pub record_event_quiet :
    (a b : Option Text) (k : EventKind) (w : World)
    → w.faults ≡ []
    → (record_event a b k w).1.faults ≡ []
unfolding record_event statement
record_event_quiet a b k w h = ground arith

pub event-Ready :
    (i : Text) (a b : Option Text) (k : EventKind) (w : World)
    → Ready i w
    → Ready i (record_event a b k w).1
event-Ready i a b k w d = record {
  no_faults = record_event_quiet a b k w d.no_faults;
  known = ap (has_id i) (record_event_machines a b k w) ∙ d.known;
}

pub ask-Ready :
    {A : Type 0} (reply : List Call → Result A) (i : Text) (c : Call) (w : World)
    → Ready i w
    → Ready i (ask reply c w).1
unfolding ask
ask-Ready reply i c w d = record { no_faults = d.no_faults; known = d.known }

-- An event is recorded after it.
pub recorded-Leaves :
    {i st : Text} {m : M (Unit {0})}
    → Leaves i st m
    → (a b : Option Text) (k : EventKind) → Leaves i st (m >> record_event a b k)
recorded-Leaves {m} l a b k = record {
  succeeds = λ w d. ground (arith, l.succeeds w d, record_event_ok a b k (m w).1);
  state_is =
      λ w d. ground (arith, l.succeeds w d, l.state_is w d, record_event_machines a b k (m w).1);
}

pub allow_missing-Leaves :
    {i st : Text} {m : M (Unit {0})} → Leaves i st m → Leaves i st (allow_missing m)
allow_missing-Leaves {m} l = record {
  succeeds = λ w d. ground (arith, l.succeeds w d);
  state_is = λ w d. ground (arith, l.state_is w d);
}

pub ignore-Leaves : {i st : Text} {m : M (Unit {0})} → Leaves i st m → Leaves i st (ignore m)
ignore-Leaves {m} l = record { succeeds = λ w d. refl; state_is = λ w d. l.state_is w d }

-- It may come after any operation on the same row.
pub attempt-Leaves :
    {A : Type 0} {i st : Text} {m : M A} {k : Result A → M (Unit {0})}
    → KeepsTo (Touches i) m
    → ((w v : World) (r : Result A) → m w ≡ (r, v) → Leaves i st (k r))
    → Leaves i st (attempt m k)
attempt-Leaves {i} {m} h hk = record {
  succeeds =
      λ w d. (hk w (m w).1 (m w).0 refl).succeeds (m w).1 (Touches-Ready i w (m w).1 (h.step w) d);
  state_is =
      λ w d. (hk w (m w).1 (m w).0 refl).state_is (m w).1 (Touches-Ready i w (m w).1 (h.step w) d);
}
