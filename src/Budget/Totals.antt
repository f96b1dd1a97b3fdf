-- ===== src/Budget/Totals.antt =====
-- The totals of calculateUserUsage and calculateHostUsage (internal/controlplane/budgets.go) that are
-- shown beside the budgets: the retained disks, and the machines in each state.
use fascinate.Base.{
  ℕ, ◌<◌, ◌≡◌, refl, ap, ◌∙◌, Bool, true, false, List, [], ◌∷◌, if◌then◌else◌, arith, Bool-cases,
  inl, inr,
}
use fascinate.Base.Word.{◌+w◌, word_mod}
use fascinate.Result.{ok, Result-cases}
use fascinate.Database.Records.{World, MachineRecord, SnapshotRecord}
use fascinate.Database.Machines.{list_machines}
use fascinate.Database.Frame.{list_machines-Same, list_machines_all, list_snapshots_all}
use fascinate.Service.{Service}
use fascinate.Service.State.{Phase, phase, machine_counts_toward_quota}
use fascinate.Budget.Usage.{
  accumulate, Usage, PowerCounts, accumulate_machine_power_state, add_count, add_compute, add_disk,
  add_machine, add_machines, add_snapshot, add_snapshots, tally, no_usage,
}
use fascinate.Budget.Loads.{total, total-lt, only, disk_load, snapshot_disk_load, Sums, tally-Sums}

-- The count of a state, and whether a machine is in it.
abbrev pub count_of : Phase → PowerCounts → ℕ
count_of Phase.creating c = c.creating_machine_count
count_of Phase.starting c = c.starting_machine_count
count_of Phase.running c = c.running_machine_count
count_of Phase.stopping c = c.stopping_machine_count
count_of Phase.stopped c = c.stopped_machine_count
count_of Phase.deleting c = c.deleting_machine_count
count_of _ c = 0

abbrev pub in_phase : Phase → Phase → Bool
in_phase Phase.creating Phase.creating = true
in_phase Phase.starting Phase.starting = true
in_phase Phase.running Phase.running = true
in_phase Phase.stopping Phase.stopping = true
in_phase Phase.stopped Phase.stopped = true
in_phase Phase.deleting Phase.deleting = true
in_phase _ _ = false

abbrev pub power_load : Phase → MachineRecord → ℕ
power_load p r =
    if machine_counts_toward_quota r.state then (if in_phase p (phase r.state) then 1 else 0) else 0

accumulate_count :
    (c : PowerCounts) (p q : Phase)
    → count_of p c < word_mod
    → count_of p (accumulate c q) ≡ count_of p c +w (if in_phase p q then 1 else 0)
unfolding accumulate
accumulate_count c p q b = ground arith

total-nothing : {A : Type 0} (keep : A → Bool) (rows : List A) → total (only keep (λ r. 0)) rows ≡ 0
unfolding total
total-nothing keep [] = refl
total-nothing keep (r ∷ rs) = ground (arith, total-nothing keep rs)

module _ (s : Service) where
  open s use {floats}
  open floats use {Float}

  -- A total g to which each machine adds its part f, and each snapshot its part h.
  record Grows (g : Usage Float → ℕ) (f : MachineRecord → ℕ) (h : SnapshotRecord → ℕ) : Type 0 where
    by_machine :
        (r : MachineRecord) (u u' : Usage Float)
        → g u < word_mod
        → add_machine s r u ≡ ok u'
        → g u' ≡ g u +w f r
    by_snapshot :
        (r : SnapshotRecord) (u : Usage Float) → g u < word_mod → g (add_snapshot r u) ≡ g u +w h r
    at_start : g (no_usage s) ≡ 0

  module _ {g : Usage Float → ℕ} {f : MachineRecord → ℕ} {h : SnapshotRecord → ℕ}
      (grows : Grows g f h) where
    add_machines-total :
        (keep : MachineRecord → Bool) (rows : List MachineRecord) (u u' : Usage Float)
        → g u < word_mod
        → add_machines s keep rows u ≡ ok u'
        → g u' ≡ g u +w total (only keep f) rows
    unfolding add_machines total
    add_machines-total keep [] u u' b e = ground arith
    add_machines-total keep (r ∷ rs) u u' b e = elim (Bool-cases (keep r)) [
      | inl kept ↦ elim (Result-cases (add_machine s r u)) [
        | inl (v, ran) ↦
            let a = grows.by_machine r u v b ran in
            let rest = add_machines-total keep rs v u' (rw a (omega arith)) (ground arith) in
            rw (kept, rest, a) (omega arith)
        | inr (x, ran) ↦ ground arith
      ]
      | inr dropped ↦ ground (arith, add_machines-total keep rs u u' b)
    ]

    add_snapshots-total :
        (keep : SnapshotRecord → Bool) (rows : List SnapshotRecord) (u : Usage Float)
        → g u < word_mod
        → g (add_snapshots keep rows u) ≡ g u +w total (only keep h) rows
    unfolding add_snapshots total
    add_snapshots-total keep [] u b = ground arith
    add_snapshots-total keep (r ∷ rs) u b = elim (Bool-cases (keep r)) [
      | inl kept ↦
          let a = grows.by_snapshot r u b in
          let rest = add_snapshots-total keep rs (add_snapshot r u) (rw a (omega arith)) in
          rw (kept, rest, a) (omega arith)
      | inr dropped ↦ rw dropped (add_snapshots-total keep rs u b ∙ omega arith)
    ]

    tally-total :
        (keep : MachineRecord → Bool) (keep_snapshot : SnapshotRecord → Bool) (w w' : World)
        (u : Usage Float)
        → tally s keep keep_snapshot w ≡ (ok u, w')
        → g u ≡ total (only keep f) w.machines +w total (only keep_snapshot h) w.snapshots
    unfolding tally
    tally-total keep keep_snapshot w w' u e =
        elim (Result-cases (add_machines s keep w.machines (no_usage s))) [
          | inl (v, ran) ↦
              let a =
                add_machines-total keep w.machines (no_usage s) v (rw grows.at_start (omega arith))
                  ran in
              let b = add_snapshots-total keep_snapshot w.snapshots v (rw a (omega arith)) in
              let last : u ≡ add_snapshots keep_snapshot w.snapshots v = ground (
                arith,
                list_machines-Same [] w,
                list_machines_all w,
                list_snapshots_all (list_machines [] w).1,
              ) in
              rw (last, b, a, grows.at_start) (omega arith)
          | inr (x, ran) ↦ ground (arith, list_machines_all w)
        ]

  machine_disk-Grows : Grows (λ u. u.retained_machine_disk_bytes) disk_load (λ r. 0)
  unfolding add_machine add_count add_compute add_disk add_snapshot
  machine_disk-Grows = record {
    by_machine = λ r u u' b e. ground arith;
    by_snapshot = λ r u b. ground arith;
    at_start = refl;
  }

  snapshot_disk-Grows : Grows (λ u. u.retained_snapshot_disk_bytes) (λ r. 0) snapshot_disk_load
  unfolding add_machine add_count add_compute add_disk add_snapshot
  snapshot_disk-Grows = record {
    by_machine = λ r u u' b e. ground arith;
    by_snapshot = λ r u b. ground arith;
    at_start = refl;
  }

  power-Grows : (p : Phase) → Grows (λ u. count_of p u.power) (power_load p) (λ r. 0)
  unfolding add_machine add_count add_compute add_disk add_snapshot accumulate_machine_power_state
  power-Grows p = record {
    by_machine = λ r u u' b e. ground (arith, accumulate_count u.power p (phase r.state) b);
    by_snapshot = λ r u b. ground arith;
    at_start = ground arith;
  }

  -- All whole-number totals, by the tables that were read.
  pub record Totals (keep : MachineRecord → Bool) (keep_snapshot : SnapshotRecord → Bool)
      (w : World) (u : Usage Float) : Type 0 where
    pub sums : Sums s keep keep_snapshot w u
    pub machine_disk_sum : u.retained_machine_disk_bytes ≡ total (only keep disk_load) w.machines
    pub snapshot_disk_sum :
        u.retained_snapshot_disk_bytes ≡ total (only keep_snapshot snapshot_disk_load) w.snapshots
    pub creating_sum :
        u.power.creating_machine_count ≡ total (only keep (power_load Phase.creating)) w.machines
    pub starting_sum :
        u.power.starting_machine_count ≡ total (only keep (power_load Phase.starting)) w.machines
    pub running_sum :
        u.power.running_machine_count ≡ total (only keep (power_load Phase.running)) w.machines
    pub stopping_sum :
        u.power.stopping_machine_count ≡ total (only keep (power_load Phase.stopping)) w.machines
    pub stopped_sum :
        u.power.stopped_machine_count ≡ total (only keep (power_load Phase.stopped)) w.machines
    pub deleting_sum :
        u.power.deleting_machine_count ≡ total (only keep (power_load Phase.deleting)) w.machines

  -- The whole-number totals that calculateUserUsage and calculateHostUsage return, if they return any,
  -- are the sums, modulo 2 ^ 64, over the listed rows that are let through: of one for each machine
  -- that is not FAILED, of the memory of each that is CREATING, STARTING, RUNNING or STOPPING, of the
  -- retained disk of each machine and the reserved disk of each snapshot that is not FAILED, together
  -- and each by itself, of one for each such snapshot, and for each of CREATING, STARTING, RUNNING,
  -- STOPPING, STOPPED and DELETING of one for each machine in that state.
  pub tally-Totals :
      (keep : MachineRecord → Bool) (keep_snapshot : SnapshotRecord → Bool) (w w' : World)
      (u : Usage Float)
      → tally s keep keep_snapshot w ≡ (ok u, w')
      → Totals keep keep_snapshot w u
  tally-Totals keep keep_snapshot w w' u h = record {
    sums = tally-Sums s keep keep_snapshot w w' u h;
    machine_disk_sum = machines_only machine_disk-Grows;
    snapshot_disk_sum = snapshots_only;
    creating_sum = machines_only (power-Grows Phase.creating);
    starting_sum = machines_only (power-Grows Phase.starting);
    running_sum = machines_only (power-Grows Phase.running);
    stopping_sum = machines_only (power-Grows Phase.stopping);
    stopped_sum = machines_only (power-Grows Phase.stopped);
    deleting_sum = machines_only (power-Grows Phase.deleting);
  }
    where
      small : (n : ℕ) → n < word_mod → n +w 0 ≡ n
      small n b = omega arith

      small_left : (n : ℕ) → n < word_mod → 0 +w n ≡ n
      small_left n b = omega arith

      machines_only :
          {g : Usage Float → ℕ} {f : MachineRecord → ℕ}
          → Grows g f (λ r. 0)
          → g u ≡ total (only keep f) w.machines
      machines_only {g} {f} grows =
          tally-total grows keep keep_snapshot w w' u h
          ∙ (ap (λ n. total (only keep f) w.machines +w n) (total-nothing keep_snapshot w.snapshots)
              ∙ small (total (only keep f) w.machines) (total-lt (only keep f) w.machines))

      snapshots_only :
          u.retained_snapshot_disk_bytes ≡ total (only keep_snapshot snapshot_disk_load) w.snapshots
      snapshots_only =
          tally-total snapshot_disk-Grows keep keep_snapshot w w' u h
          ∙ (ap (λ n. n +w total (only keep_snapshot snapshot_disk_load) w.snapshots)
                (total-nothing keep w.machines)
              ∙ small_left (total (only keep_snapshot snapshot_disk_load) w.snapshots)
                  (total-lt (only keep_snapshot snapshot_disk_load) w.snapshots))
