-- ===== src/Database/Snapshots.antt =====
-- internal/database/snapshots.go. The table is kept newest first, as ListSnapshots lists it (two
-- snapshots of one second may stand there in another order).
use fascinate.Base.{
  Bool, false, not, ◌||◌, ◌&&◌, Option, none, some, List, [], ◌∷◌, map, if◌then◌else◌, ℕ,
}
use fascinate.Base.Text.{Text, text_eq, trim_space}
use fascinate.Result.{not_found, conflict}
use fascinate.Database.Records.{SnapshotRecord, MachineRecord}
use fascinate.Database.Monad.{M, or_fail, gets, modify, fail_if, statement, ◌>>=◌, ◌>>◌}

unfoldable pub find_owned : Text → Text → List SnapshotRecord → Option SnapshotRecord
find_owned owner n [] = none
find_owned owner n (r ∷ rs) =
    if text_eq r.owner_user_id owner && text_eq r.name n then some r else find_owned owner n rs

unfoldable pub find_id : Text → List SnapshotRecord → Option SnapshotRecord
find_id i [] = none
find_id i (r ∷ rs) = if text_eq r.id i then some r else find_id i rs

unfoldable pub has_id : Text → List SnapshotRecord → Bool
has_id i [] = false
has_id i (r ∷ rs) = text_eq r.id i || has_id i rs

unfoldable pub update_rows :
    Text → (SnapshotRecord → SnapshotRecord) → List SnapshotRecord → List SnapshotRecord
update_rows i f [] = []
update_rows i f (r ∷ rs) = (if text_eq r.id i then f r else r) ∷ update_rows i f rs

unfoldable pub delete_rows : Text → List SnapshotRecord → List SnapshotRecord
delete_rows i [] = []
delete_rows i (r ∷ rs) = let rest = delete_rows i rs in if text_eq r.id i then rest else r ∷ rest

-- PRIMARY KEY (id), UNIQUE (runtime_name) and UNIQUE (owner_user_id, name).
unfoldable pub clashes : SnapshotRecord → List SnapshotRecord → Bool
clashes m [] = false
clashes m (r ∷ rs) =
    (text_eq r.id m.id
      || text_eq r.runtime_name m.runtime_name
      || (text_eq r.owner_user_id m.owner_user_id && text_eq r.name m.name))
    || clashes m rs

-- GetSnapshotByName
unfoldable pub get_snapshot_by_name : Text → Text → M SnapshotRecord
get_snapshot_by_name owner n = do
  statement
  or_fail (← gets (λ w. find_owned (trim_space owner) (trim_space n) w.snapshots)) not_found

-- GetSnapshotByID
unfoldable pub get_snapshot_by_id : Text → M SnapshotRecord
get_snapshot_by_id i = do
  statement
  or_fail (← gets (λ w. find_id (trim_space i) w.snapshots)) not_found

-- ListSnapshots with no address.
unfoldable pub list_snapshots : M (List SnapshotRecord)
list_snapshots = do statement; gets λ w. w.snapshots

-- CreateSnapshot
unfoldable pub create_snapshot_row : SnapshotRecord → M SnapshotRecord
create_snapshot_row params = do
  statement
  taken ← gets λ w. clashes params w.snapshots
  fail_if taken conflict
  modify λ w. record w { snapshots = params ∷ w.snapshots }
  get_snapshot_by_name params.owner_user_id params.name

update_snapshot : Text → (SnapshotRecord → SnapshotRecord) → M (Unit {0})
update_snapshot i f = do
  statement
  known ← gets λ w. has_id (trim_space i) w.snapshots
  fail_if (not known) not_found
  modify λ w. record w { snapshots = update_rows (trim_space i) f w.snapshots }

unfoldable pub update_snapshot_state : Text → Text → M (Unit {0})
unfolding update_snapshot
update_snapshot_state i state = update_snapshot i λ r. record r { state = state }

-- UpdateSnapshotArtifacts; the versions are left out.
unfoldable pub update_snapshot_artifacts : Text → ℕ → ℕ → M (Unit {0})
unfolding update_snapshot
update_snapshot_artifacts i disk memory =
    update_snapshot i λ r. record r { disk_size_bytes = disk; memory_size_bytes = memory }

forget_snapshot : Text → MachineRecord → MachineRecord
forget_snapshot i r = elim r.source_snapshot_id [
  | none ↦ r
  | some j ↦ if text_eq j i then record r { source_snapshot_id = none } else r
]

-- MarkSnapshotDeleted; the machines made from it lose their reference (ON DELETE SET NULL).
unfoldable pub mark_snapshot_deleted : Text → M (Unit {0})
unfolding forget_snapshot
mark_snapshot_deleted i = do
  statement
  known ← gets λ w. has_id (trim_space i) w.snapshots
  fail_if (not known) not_found
  modify λ w. record w {
    snapshots = delete_rows (trim_space i) w.snapshots;
    machines = map (forget_snapshot (trim_space i)) w.machines;
  }
