-- ===== src/Budget/Admission.antt =====
-- What the checks that admit a machine for its owner (internal/controlplane/budgets.go) guarantee of
-- the usage after it.
use fascinate.Base.{ℕ, ◌<◌, ◌≡◌, refl, ◌∙◌, Bool, true, false, arith, if◌then◌else◌, inl, inr}
use fascinate.Base.Word.{◌+w◌, slt, is_positive, word_mod, +w_comm}
use fascinate.Base.Text.{trim_space, equal_fold, text_eq, to_upper}
use fascinate.Result.{Result-cases, ok}
use fascinate.Database.Records.{World, User, MachineRecord, SnapshotRecord}
use fascinate.Database.Machines.{insert_row}
use fascinate.Service.{Service}
use fascinate.Service.State.{
  machine_state_creating, phase, phase_of, machine_counts_toward_quota, machine_consumes_compute,
  machine_consumes_disk,
}
use fascinate.Service.Storage.{ResourceSpec, retained_machine_disk_bytes}
use fascinate.Budget.Spec.{
  UserBudget, BudgetDelta, user_budget_for_user, compute_budget_delta, machine_spec_for_record,
}
use fascinate.Budget.Usage.{Usage, owned_by, snapshot_owned_by, calculate_user_usage}
use fascinate.Budget.Check.{exceeds, ensure_user_can_fit_delta, ensure_user_can_create_machine}
use fascinate.Budget.Loads.{
  Sums, tally-Sums, total, total-insert_row, only, count_load, memory_load, disk_load,
  snapshot_disk_load,
}

exceeds_now :
    (limit used d used' : ℕ)
    → exceeds limit used d ≡ false
    → used' ≡ used +w d
    → exceeds limit used' 0 ≡ false
unfolding exceeds
exceeds_now limit used d used' h e = ground arith

module _ (s : Service) where
  open s use {floats}
  open floats use {Float}

  -- A usage with the delta added stays within the budget's limits.
  record Fits (b : UserBudget Float) (u : Usage Float) (d : BudgetDelta Float) : Type 0 where
    machines : exceeds b.max_machine_count u.machine_count d.machine_count ≡ false
    memory : exceeds b.max_memory_bytes u.memory_bytes d.memory_bytes ≡ false
    disk : exceeds b.max_disk_bytes u.disk_bytes d.disk_bytes ≡ false

  -- A usage is within the limits: Fits with nothing added.
  pub record Within (b : UserBudget Float) (u : Usage Float) : Type 0 where
    pub machines_within : exceeds b.max_machine_count u.machine_count 0 ≡ false
    pub memory_within : exceeds b.max_memory_bytes u.memory_bytes 0 ≡ false
    pub disk_within : exceeds b.max_disk_bytes u.disk_bytes 0 ≡ false

  -- What an admission went through.
  admitted :
      (user : User) (d : BudgetDelta Float) (w w' : World)
      → ensure_user_can_fit_delta s user d w ≡ (ok tt, w')
      → (b : UserBudget Float) × (u : Usage Float) × ((user_budget_for_user s user ≡ ok b)
          × ((calculate_user_usage s user.id w).0 ≡ ok u)
          × Fits b u d)
  unfolding ensure_user_can_fit_delta
  admitted user d w w' h = elim (Result-cases (user_budget_for_user s user)) [
    | inl (b, hb) ↦ elim (Result-cases (calculate_user_usage s user.id w).0) [
      | inl (u, hu) ↦ (b, u, (hb, hu, ground arith))
      | inr (x, hx) ↦ absurd (ground arith)
    ]
    | inr (x, hx) ↦ absurd (ground arith)
  ]

  -- The row that a creation inserts.
  pub record CreatedFor (user : User) (spec : ResourceSpec) (retained : ℕ) (m : MachineRecord)
      : Type 0 where
    pub owner : owned_by s user.id m ≡ true
    pub state_eq : m.state ≡ machine_state_creating
    pub usage_eq : m.disk_usage_bytes ≡ retained
    pub spec_eq : machine_spec_for_record s m ≡ ok spec

  creating_counts : machine_counts_toward_quota machine_state_creating ≡ true
  unfolding machine_counts_toward_quota trim_space equal_fold
  creating_counts = refl

  creating_computes : machine_consumes_compute machine_state_creating ≡ true
  unfolding machine_consumes_compute phase phase_of trim_space text_eq to_upper
  creating_computes = refl

  creating_disk : machine_consumes_disk machine_state_creating ≡ true
  unfolding machine_consumes_disk trim_space equal_fold
  creating_disk = refl

  module _ (user : User) (spec : ResourceSpec) (retained : ℕ) (m : MachineRecord)
      (c : CreatedFor user spec retained m) where
    count_of : only (owned_by s user.id) count_load m ≡ 1
    count_of = ground (arith, c.owner, c.state_eq, creating_counts)

    memory_of : only (owned_by s user.id) (memory_load s) m ≡ spec.memory_bytes
    memory_of = ground (arith, c.owner, c.state_eq, creating_computes, c.spec_eq)

    disk_of : only (owned_by s user.id) disk_load m ≡ (if is_positive retained then retained else 0)
    unfolding retained_machine_disk_bytes
    disk_of = ground (arith, c.owner, c.state_eq, creating_disk, c.usage_eq)

    -- With the row, the sums have grown by what was asked for.
    grown :
        (w v : World) (u u' : Usage Float) (b : UserBudget Float) (d : BudgetDelta Float)
        → v.machines ≡ insert_row m w.machines
        → v.snapshots ≡ w.snapshots
        → Sums s (owned_by s user.id) (snapshot_owned_by s user.id) w u
        → Sums s (owned_by s user.id) (snapshot_owned_by s user.id) v u'
        → d.machine_count ≡ 1
        → d.memory_bytes ≡ spec.memory_bytes
        → d.disk_bytes ≡ (if is_positive retained then retained else 0)
        → Fits b u d
        → Within b u'
    grown w v u u' b d hm hs su sv d1 d2 d3 f = record {
      machines_within = exceeds_now _ u.machine_count d.machine_count _ f.machines (
          ground (
            arith,
            sv.machines_sum,
            su.machines_sum,
            hm,
            d1,
            count_of,
            total-insert_row (only keep count_load) m w.machines,
            +w_comm 1 u.machine_count,
          ));
      memory_within = exceeds_now _ u.memory_bytes d.memory_bytes _ f.memory (
          ground (
            arith,
            sv.memory_sum,
            su.memory_sum,
            hm,
            d2,
            memory_of,
            total-insert_row (only keep (memory_load s)) m w.machines,
            +w_comm spec.memory_bytes u.memory_bytes,
          ));
      disk_within = exceeds_now _ u.disk_bytes d.disk_bytes _ f.disk (
          ground (
            arith,
            sv.disk_sum,
            su.disk_sum,
            hm,
            hs,
            d3,
            disk_of,
            total-insert_row (only keep disk_load) m w.machines,
            regroup (if is_positive retained then retained else 0)
                (total (only keep disk_load) w.machines)
                (total (only keep_snapshot snapshot_disk_load) w.snapshots),
          ));
    }
      where
        keep : MachineRecord → Bool
        keep = owned_by s user.id

        keep_snapshot : SnapshotRecord → Bool
        keep_snapshot = snapshot_owned_by s user.id

        regroup : (a b c : ℕ) → (a +w b) +w c ≡ (b +w c) +w a
        regroup a b c = omega arith

    usage_Sums :
        (w : World) (u : Usage Float)
        → (calculate_user_usage s user.id w).0 ≡ ok u
        → Sums s (owned_by s user.id) (snapshot_owned_by s user.id) w u
    unfolding calculate_user_usage
    usage_Sums w u h =
        tally-Sums s (owned_by s user.id) (snapshot_owned_by s user.id) w
          (calculate_user_usage s user.id w).1 u (ground arith)

    delta_is :
        (d : BudgetDelta Float)
        → compute_budget_delta s spec retained ≡ ok d
        → (d.memory_bytes ≡ spec.memory_bytes)
          × (d.disk_bytes ≡ (if slt retained 0 then 0 else retained))
    unfolding compute_budget_delta
    delta_is d h = (ground arith, ground arith)

    clipped :
        retained < word_mod
        → (if slt retained 0 then 0 else retained) ≡ (if is_positive retained then retained else 0)
    clipped h = ground arith

    -- If the check admits a machine for its owner, and the row that is then inserted is CREATING, belongs
    -- to the owner and has the specification and the disk usage that the check was asked about, then the
    -- owner's usage, computed with the row in the table, is within the owner's budget: the counted machines,
    -- the memory and the disk, each up to its limit where the limit is positive.
    pub ensure_user_can_create_machine-Within :
        (w w' v v' : World) (u : Usage Float)
        → retained < word_mod
        → ensure_user_can_create_machine s user spec retained w ≡ (ok tt, w')
        → v.machines ≡ insert_row m w.machines
        → v.snapshots ≡ w.snapshots
        → calculate_user_usage s user.id v ≡ (ok u, v')
        → (b : UserBudget Float) × ((user_budget_for_user s user ≡ ok b) × Within b u)
    unfolding ensure_user_can_create_machine
    ensure_user_can_create_machine-Within w w' v v' u lt h hm hs hu =
        elim (Result-cases (compute_budget_delta s spec retained)) [
          | inl (d, hd) ↦
              let (b, u0, (hb, hu0, fits)) =
                admitted user (record d { machine_count = 1 }) w w' (ground arith) in
              (
                b,
                (
                  hb,
                  grown w v u0 u b (record d { machine_count = 1 }) hm hs (usage_Sums w u0 hu0)
                      (usage_Sums v u (ground arith)) refl (delta_is d hd).0
                      ((delta_is d hd).1 ∙ clipped lt) fits,
                ),
              )
          | inr (x, hx) ↦ absurd (ground arith)
        ]
