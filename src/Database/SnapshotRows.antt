-- ===== src/Database/SnapshotRows.antt =====
-- The statements on one row of the table of snapshots (internal/database/snapshots.go).
use fascinate.Base.{
  ◌≡◌, refl, true, false, Option, none, some, List, [], ◌∷◌, arith, ℕ, if◌then◌else◌, Bool-cases,
  inl, inr,
}
use fascinate.Base.Text.{Text, text_eq, trim_space, eq_of_text_eq}
use fascinate.Result.{ok, err, not_found}
use fascinate.Database.Records.{World, SnapshotRecord}
use fascinate.Database.Monad.{statement}
use fascinate.Database.Snapshots.{
  find_id, has_id, update_rows, delete_rows, get_snapshot_by_id, update_snapshot_state,
  update_snapshot_artifacts, mark_snapshot_deleted,
}

-- The state of the row with an identifier.
unfoldable pub snapshot_state_of : Text → List SnapshotRecord → Option Text
snapshot_state_of i [] = none
snapshot_state_of i (r ∷ rs) = if text_eq r.id i then some r.state else snapshot_state_of i rs

-- The row is there, its identifier has no spaces around it, and no statement will fail.
pub record Stored (i : Text) (w : World) : Type 0 where
  pub no_faults : w.faults ≡ []
  pub trimmed : trim_space i ≡ i
  pub known : has_id i w.snapshots ≡ true

find_id-has_id :
    (i : Text) (rows : List SnapshotRecord)
    → has_id i rows ≡ true
    → (q : SnapshotRecord) × ((find_id i rows ≡ some q) × (q.id ≡ i))
unfolding has_id find_id
find_id-has_id i [] h = absurd (ground arith)
find_id-has_id i (r ∷ rs) h = elim (Bool-cases (text_eq r.id i)) [
  | inl e ↦ (r, (ground arith, eq_of_text_eq r.id i e))
  | inr e ↦ let (q, (f, same)) = find_id-has_id i rs (ground arith) in (q, (ground arith, same))
]

find_id_missing :
    (i : Text) (rows : List SnapshotRecord) → has_id i rows ≡ false → find_id i rows ≡ none
unfolding has_id find_id
find_id_missing i [] h = refl
find_id_missing i (r ∷ rs) h = ground (arith, find_id_missing i rs)

has_id-update_rows :
    (i j : Text) (f : SnapshotRecord → SnapshotRecord) (rows : List SnapshotRecord)
    → ((r : SnapshotRecord) → (f r).id ≡ r.id)
    → has_id j (update_rows i f rows) ≡ has_id j rows
unfolding has_id update_rows
has_id-update_rows i j f [] h = refl
has_id-update_rows i j f (r ∷ rs) h = ground (arith, h r, has_id-update_rows i j f rs h)

state_of-update_rows :
    (i st : Text) (rows : List SnapshotRecord)
    → has_id i rows ≡ true
    → snapshot_state_of i (update_rows i (λ r. record r { state = st }) rows) ≡ some st
unfolding has_id update_rows snapshot_state_of
state_of-update_rows i st [] h = absurd (ground arith)
state_of-update_rows i st (r ∷ rs) h = elim (Bool-cases (text_eq r.id i)) [
  | inl e ↦ ground arith
  | inr e ↦ ground (arith, state_of-update_rows i st rs)
]

state_of-delete_rows :
    (i : Text) (rows : List SnapshotRecord) → snapshot_state_of i (delete_rows i rows) ≡ none
unfolding snapshot_state_of delete_rows
state_of-delete_rows i [] = refl
state_of-delete_rows i (r ∷ rs) = ground (arith, state_of-delete_rows i rs)

module _ (i : Text) (w : World) where
  pub get_snapshot_by_id_found :
      Stored i w → (q : SnapshotRecord) × ((get_snapshot_by_id i w ≡ (ok q, w)) × (q.id ≡ i))
  unfolding get_snapshot_by_id statement
  get_snapshot_by_id_found d =
      let (q, (f, same)) = find_id-has_id i w.snapshots d.known in
      (q, (rw (d.no_faults, d.trimmed, f) refl, same))

  pub get_snapshot_by_id_gone :
      w.faults ≡ []
      → has_id (trim_space i) w.snapshots ≡ false
      → get_snapshot_by_id i w ≡ (err not_found, w)
  unfolding get_snapshot_by_id statement
  get_snapshot_by_id_gone h gone = rw (h, find_id_missing (trim_space i) w.snapshots gone) refl

  pub update_snapshot_state_done :
      (st : Text)
      → Stored i w
      → ((update_snapshot_state i st w).0 ≡ ok tt)
        × (snapshot_state_of i (update_snapshot_state i st w).1.snapshots ≡ some st)
  unfolding update_snapshot_state statement
  update_snapshot_state_done st d = (
    rw (d.no_faults, d.trimmed, d.known) refl,
    rw (d.no_faults, d.trimmed, d.known) (state_of-update_rows i st w.snapshots d.known),
  )

  pub update_snapshot_artifacts-Stored :
      (disk memory : ℕ) → Stored i w → Stored i (update_snapshot_artifacts i disk memory w).1
  unfolding update_snapshot_artifacts statement
  update_snapshot_artifacts-Stored disk memory d = record {
    no_faults = ground (arith, d.no_faults, d.trimmed, d.known);
    trimmed = d.trimmed;
    known = ground (
      arith,
      d.no_faults,
      d.trimmed,
      d.known,
      has_id-update_rows i i (λ r. record r { disk_size_bytes = disk; memory_size_bytes = memory })
          w.snapshots (λ r. refl),
    );
  }

  pub mark_snapshot_deleted_done :
      Stored i w
      → ((mark_snapshot_deleted i w).0 ≡ ok tt)
        × (snapshot_state_of i (mark_snapshot_deleted i w).1.snapshots ≡ none)
  unfolding mark_snapshot_deleted statement
  mark_snapshot_deleted_done d = (
    rw (d.no_faults, d.trimmed, d.known) refl,
    rw (d.no_faults, d.trimmed, d.known) (state_of-delete_rows i w.snapshots),
  )
