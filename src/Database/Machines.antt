-- ===== src/Database/Machines.antt =====
-- internal/database/machines.go. The table is kept in the order of ListMachines, by name.
use fascinate.Base.{
  Bool, false, not, ◌||◌, Option, none, some, List, [], ◌∷◌, map, if◌then◌else◌, ℕ,
}
use fascinate.Base.Text.{Text, text_eq, text_lt, trim_space, is_empty, to_lower}
use fascinate.Result.{not_found, conflict, db_failure}
use fascinate.Database.Records.{
  ShellRecord, ExecRecord, Terminals, MachineRecord, SnapshotRecord, User,
}
use fascinate.Database.Monad.{M, or_fail, gets, modify, fail_if, statement, ◌>>=◌, ◌>>◌}

-- normalizeEmail
unfoldable pub normalize_email : Text → Text
normalize_email value = to_lower (trim_space value)

unfoldable pub find_name : Text → List MachineRecord → Option MachineRecord
find_name n [] = none
find_name n (r ∷ rs) = if text_eq r.name n then some r else find_name n rs

unfoldable pub has_id : Text → List MachineRecord → Bool
has_id i [] = false
has_id i (r ∷ rs) = text_eq r.id i || has_id i rs

-- SET ... WHERE id = ?
unfoldable pub update_rows :
    Text → (MachineRecord → MachineRecord) → List MachineRecord → List MachineRecord
update_rows i f [] = []
update_rows i f (r ∷ rs) = (if text_eq r.id i then f r else r) ∷ update_rows i f rs

unfoldable pub delete_rows : Text → List MachineRecord → List MachineRecord
delete_rows i [] = []
delete_rows i (r ∷ rs) = let rest = delete_rows i rs in if text_eq r.id i then rest else r ∷ rest

unfoldable pub insert_row : MachineRecord → List MachineRecord → List MachineRecord
insert_row m [] = m ∷ []
insert_row m (r ∷ rs) =
    let rest = insert_row m rs in if text_lt m.name r.name then m ∷ r ∷ rs else r ∷ rest

-- The UNIQUE columns id, name and runtime_name.
unfoldable pub clashes : MachineRecord → List MachineRecord → Bool
clashes m [] = false
clashes m (r ∷ rs) =
    (text_eq r.id m.id || text_eq r.name m.name || text_eq r.runtime_name m.runtime_name)
    || clashes m rs

unfoldable pub email_of : Text → List User → Option Text
email_of i [] = none
email_of i (u ∷ us) = if text_eq u.id i then some u.email else email_of i us

-- GetMachineByName
unfoldable pub get_machine_by_name : Text → M MachineRecord
get_machine_by_name name = do
  statement
  or_fail (← gets (λ w. find_name (trim_space name) w.machines)) not_found

keep_owner : Text → List MachineRecord → List MachineRecord
keep_owner email [] = []
keep_owner email (r ∷ rs) =
    let rest = keep_owner email rs in if text_eq r.owner_email email then r ∷ rest else rest

-- ListMachines; an empty address lists them all.
unfoldable pub list_machines : Text → M (List MachineRecord)
unfolding keep_owner
list_machines owner_email = do
  statement
  let email = normalize_email owner_email
  gets λ w. if is_empty email then w.machines else keep_owner email w.machines

-- CreateMachine: INSERT, with the owner's address as the join will show it, and SELECT.
unfoldable pub create_machine_row : MachineRecord → M MachineRecord
unfolding email_of
create_machine_row params = do
  statement
  taken ← gets λ w. clashes params w.machines
  fail_if taken conflict
  email ← or_fail (← gets (λ w. email_of params.owner_user_id w.users)) db_failure
  modify λ w. record w { machines = insert_row (record params { owner_email = email }) w.machines }
  get_machine_by_name params.name

-- An UPDATE of the row with an id; ErrNotFound if no row has it.
unfoldable pub update_machine : Text → (MachineRecord → MachineRecord) → M (Unit {0})
update_machine i f = do
  statement
  known ← gets λ w. has_id i w.machines
  fail_if (not known) not_found
  modify λ w. record w { machines = update_rows i f w.machines }

unfoldable pub update_machine_state : Text → Text → M (Unit {0})
update_machine_state i state = update_machine i λ r. record r { state = state }

unfoldable pub update_machine_state_and_disk_usage : Text → Text → ℕ → M (Unit {0})
update_machine_state_and_disk_usage i state bytes =
    update_machine i λ r. record r { state = state; disk_usage_bytes = bytes }

unfoldable pub update_machine_disk_usage : Text → ℕ → M (Unit {0})
update_machine_disk_usage i bytes = update_machine i λ r. record r { disk_usage_bytes = bytes }

forget_source : Text → SnapshotRecord → SnapshotRecord
forget_source i r = elim r.source_machine_id [
  | none ↦ r
  | some j ↦
      if text_eq j i then record r { source_machine_id = none; source_machine_name = none } else r
]

keep_shells : Text → List ShellRecord → List ShellRecord
keep_shells i [] = []
keep_shells i (r ∷ rs) =
    let rest = keep_shells i rs in if text_eq r.machine_id i then rest else r ∷ rest

keep_execs : Text → List ExecRecord → List ExecRecord
keep_execs i [] = []
keep_execs i (r ∷ rs) =
    let rest = keep_execs i rs in if text_eq r.machine_id i then rest else r ∷ rest

-- The shells and commands of a machine go with it (ON DELETE CASCADE of migrations 0016 and 0017).
forget_machine : Text → Terminals → Terminals
unfolding keep_shells keep_execs
forget_machine i t = record t { shells = keep_shells i t.shells; execs = keep_execs i t.execs }

-- MarkMachineDeleted; the snapshots of the machine lose their reference (ON DELETE SET NULL).
unfoldable pub mark_machine_deleted : Text → M (Unit {0})
unfolding forget_source forget_machine
mark_machine_deleted i = do
  statement
  known ← gets λ w. has_id i w.machines
  fail_if (not known) not_found
  modify λ w. record w {
    machines = delete_rows i w.machines;
    snapshots = map (forget_source i) w.snapshots;
    terminals = forget_machine i w.terminals;
  }
