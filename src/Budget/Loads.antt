-- ===== src/Budget/Loads.antt =====
-- calculateUserUsage and calculateHostUsage of internal/controlplane/budgets.go as sums: each total
-- is the sum, modulo 2 ^ 64, of what every listed row adds to it.
use fascinate.Base.{
  ℕ, ◌<◌, ◌≡◌, refl, Bool, List, [], ◌∷◌, if◌then◌else◌, arith, Bool-cases, inl, inr,
}
use fascinate.Base.Word.{◌+w◌, word_mod}
use fascinate.Result.{Result, ok, err, Result-cases}
use fascinate.Database.Records.{World, MachineRecord, SnapshotRecord}
use fascinate.Database.Machines.{insert_row, list_machines}
use fascinate.Database.Frame.{
  Same, list_machines-Same, list_snapshots-Same, list_machines_all, list_snapshots_all,
}
use fascinate.Service.{Service}
use fascinate.Service.State.{
  machine_counts_toward_quota, machine_consumes_compute, machine_consumes_disk,
  snapshot_counts_toward_quota, snapshot_consumes_disk,
}
use fascinate.Service.Storage.{retained_machine_disk_bytes, snapshot_reserved_disk_bytes}
use fascinate.Budget.Spec.{machine_spec_for_record}
use fascinate.Service.Storage.{ResourceSpec}
use fascinate.Budget.Usage.{
  Usage, add_count, add_compute, add_disk, add_machine, add_machines, add_snapshot, add_snapshots,
  tally, no_usage,
}

-- The sum of what the rows add.
unfoldable pub total : {A : Type 0} → (A → ℕ) → List A → ℕ
total f [] = 0
total f (r ∷ rs) = f r +w total f rs

abbrev pub count_load : MachineRecord → ℕ
count_load r = if machine_counts_toward_quota r.state then 1 else 0

abbrev pub disk_load : MachineRecord → ℕ
disk_load r = if machine_consumes_disk r.state then retained_machine_disk_bytes r else 0

abbrev pub snapshot_count_load : SnapshotRecord → ℕ
snapshot_count_load r = if snapshot_counts_toward_quota r.state then 1 else 0

abbrev pub snapshot_disk_load : SnapshotRecord → ℕ
snapshot_disk_load r = if snapshot_consumes_disk r.state then snapshot_reserved_disk_bytes r else 0

-- A row's part of a total over the rows that `keep` lets through.
abbrev pub only : {A : Type 0} → (A → Bool) → (A → ℕ) → A → ℕ
only keep f r = if keep r then f r else 0

pub total-lt : {A : Type 0} (f : A → ℕ) (rows : List A) → total f rows < word_mod
unfolding total
total-lt f [] = omega arith
total-lt f (r ∷ rs) = omega arith

-- A new row adds its part, wherever it is listed.
pub total-insert_row :
    (f : MachineRecord → ℕ) (m : MachineRecord) (rows : List MachineRecord)
    → total f (insert_row m rows) ≡ f m +w total f rows
unfolding total insert_row
total-insert_row f m [] = refl
total-insert_row f m (r ∷ rs) = ground (arith, total-insert_row f m rs)

record Bounded {F : Type 0} (u : Usage F) : Type 0 where
  pub memory : u.memory_bytes < word_mod
  pub disk : u.disk_bytes < word_mod
  pub machines : u.machine_count < word_mod
  pub snapshots : u.snapshot_count < word_mod

module _ (s : Service) where
  open s use {floats}
  open floats use {Float}

  abbrev spec_memory : Result ResourceSpec → ℕ
  spec_memory (ok spec) = spec.memory_bytes
  spec_memory (err e) = 0

  abbrev pub memory_load : MachineRecord → ℕ
  memory_load r =
      if machine_consumes_compute r.state then spec_memory (machine_spec_for_record s r) else 0

  -- What one round of the first loop adds.
  record Adds (u u' : Usage Float) (count memory disk : ℕ) : Type 0 where
    count_eq : u'.machine_count ≡ u.machine_count +w count
    memory_eq : u'.memory_bytes ≡ u.memory_bytes +w memory
    disk_eq : u'.disk_bytes ≡ u.disk_bytes +w disk
    snapshot_eq : u'.snapshot_count ≡ u.snapshot_count

  Adds-Bounded :
      {u u' : Usage Float} {count memory disk : ℕ}
      → Bounded u
      → Adds u u' count memory disk
      → Bounded u'
  Adds-Bounded b a = ground arith

  add_machine-Adds :
      (r : MachineRecord) (u u' : Usage Float)
      → Bounded u
      → add_machine s r u ≡ ok u'
      → Adds u u' (count_load r) (memory_load r) (disk_load r)
  unfolding add_machine add_count add_compute add_disk
  add_machine-Adds r u u' b h = ground arith

  add_machines-Adds :
      (keep : MachineRecord → Bool) (rows : List MachineRecord) (u u' : Usage Float)
      → Bounded u
      → add_machines s keep rows u ≡ ok u'
      → Adds u u'
          (total (only keep count_load) rows)
          (total (only keep memory_load) rows)
          (total (only keep disk_load) rows)
  unfolding add_machines total
  add_machines-Adds keep [] u u' b h = ground arith
  add_machines-Adds keep (r ∷ rs) u u' b h = elim (Bool-cases (keep r)) [
    | inl kept ↦ elim (Result-cases (add_machine s r u)) [
      | inl (v, e) ↦
          let a = add_machine-Adds r u v b e in
          ground (arith, add_machines-Adds keep rs v u' (Adds-Bounded b a))
      | inr (x, e) ↦ ground arith
    ]
    | inr dropped ↦ ground (arith, add_machines-Adds keep rs u u' b)
  ]

  add_snapshot_count :
      (r : SnapshotRecord) (u : Usage Float)
      → Bounded u
      → (add_snapshot r u).snapshot_count ≡ u.snapshot_count +w snapshot_count_load r
  unfolding add_snapshot
  add_snapshot_count r u b = ground arith

  add_snapshot_disk :
      (r : SnapshotRecord) (u : Usage Float)
      → Bounded u
      → (add_snapshot r u).disk_bytes ≡ u.disk_bytes +w snapshot_disk_load r
  unfolding add_snapshot
  add_snapshot_disk r u b = ground arith

  -- What the second loop adds.
  record AddsSnapshots (u u' : Usage Float) (count disk : ℕ) : Type 0 where
    count_eq : u'.snapshot_count ≡ u.snapshot_count +w count
    disk_eq : u'.disk_bytes ≡ u.disk_bytes +w disk
    memory_same : u'.memory_bytes ≡ u.memory_bytes
    machines_same : u'.machine_count ≡ u.machine_count

  add_snapshot-AddsSnapshots :
      (r : SnapshotRecord) (u : Usage Float)
      → Bounded u
      → AddsSnapshots u (add_snapshot r u) (snapshot_count_load r) (snapshot_disk_load r)
  unfolding add_snapshot
  add_snapshot-AddsSnapshots r u b = ground arith

  add_snapshots-AddsSnapshots :
      (keep : SnapshotRecord → Bool) (rows : List SnapshotRecord) (u : Usage Float)
      → Bounded u
      → AddsSnapshots u
          (add_snapshots keep rows u)
          (total (only keep snapshot_count_load) rows)
          (total (only keep snapshot_disk_load) rows)
  unfolding add_snapshots total
  add_snapshots-AddsSnapshots keep [] u b = ground arith
  add_snapshots-AddsSnapshots keep (r ∷ rs) u b = elim (Bool-cases (keep r)) [
    | inl kept ↦ ground (
      arith,
      add_snapshot-AddsSnapshots r u b,
      add_snapshots-AddsSnapshots keep rs (add_snapshot r u),
    )
    | inr dropped ↦ ground (arith, add_snapshots-AddsSnapshots keep rs u b)
  ]

  -- The totals that a calculation returns, by the tables that it read.
  pub record Sums (keep : MachineRecord → Bool) (keep_snapshot : SnapshotRecord → Bool) (w : World)
      (u : Usage Float) : Type 0 where
    pub machines_sum : u.machine_count ≡ total (only keep count_load) w.machines
    pub memory_sum : u.memory_bytes ≡ total (only keep memory_load) w.machines
    pub disk_sum :
        u.disk_bytes
        ≡ total (only keep disk_load) w.machines
          +w total (only keep_snapshot snapshot_disk_load) w.snapshots
    pub snapshots_sum :
        u.snapshot_count ≡ total (only keep_snapshot snapshot_count_load) w.snapshots

  no_usage-Bounded : Bounded (no_usage s)
  no_usage-Bounded = omega arith

  pub tally-Same :
      (keep : MachineRecord → Bool) (keep_snapshot : SnapshotRecord → Bool) (w : World)
      → Same w (tally s keep keep_snapshot w).1
  unfolding tally
  tally-Same keep keep_snapshot w =
      ground (arith, list_machines-Same [] w, list_snapshots-Same (list_machines [] w).1)

  -- The counts, the memory and the disk are the sums of what the rows add.
  pub tally-Sums :
      (keep : MachineRecord → Bool) (keep_snapshot : SnapshotRecord → Bool) (w w' : World)
      (u : Usage Float)
      → tally s keep keep_snapshot w ≡ (ok u, w')
      → Sums keep keep_snapshot w u
  unfolding tally
  tally-Sums keep keep_snapshot w w' u h =
      elim (Result-cases (add_machines s keep w.machines (no_usage s))) [
        | inl (v, e) ↦
            let a = add_machines-Adds keep w.machines (no_usage s) v no_usage-Bounded e in
            ground (
              arith,
              list_machines-Same [] w,
              list_machines_all w,
              list_snapshots_all (list_machines [] w).1,
              add_snapshots-AddsSnapshots keep_snapshot w.snapshots v
                  (Adds-Bounded no_usage-Bounded a),
              total-lt (only keep count_load) w.machines,
              total-lt (only keep memory_load) w.machines,
              total-lt (only keep disk_load) w.machines,
              total-lt (only keep_snapshot snapshot_count_load) w.snapshots,
            )
        | inr (x, e) ↦ ground (arith, list_machines_all w)
      ]
