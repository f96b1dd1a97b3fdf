-- ===== src/Budget/Effects.antt =====
-- The checks of internal/controlplane/budgets.go change nothing.
use fascinate.Base.{ℕ, ℕ, inl, inr, if◌then◌else◌, arith}
use fascinate.Base.Text.{Text, is_empty, trim_space}
use fascinate.Result.{Result-cases}
use fascinate.Database.Records.{World, User, HostRecord}
use fascinate.Database.Frame.{Same, Same-refl, get_host_by_id-Same}
use fascinate.Service.{Service}
use fascinate.Service.Storage.{ResourceSpec}
use fascinate.Budget.Spec.{BudgetDelta, compute_budget_delta}
use fascinate.Budget.Usage.{
  tally, on_host, snapshot_on_host, calculate_user_usage, calculate_host_usage,
  host_available_disk_bytes,
}
use fascinate.Budget.Check.{
  ensure_host_can_fit_machine, ensure_user_can_create_machine, ensure_user_can_fit_delta,
  ensure_user_can_start_machine, ensure_host_can_fit_delta, ensure_host_can_start_machine,
}
use fascinate.Budget.Loads.{tally-Same}

module _ (s : Service) where
  open s use {floats}
  open floats use {Float}

  pub calculate_user_usage-Same : (i : Text) (w : World) → Same w (calculate_user_usage s i w).1
  unfolding calculate_user_usage
  calculate_user_usage-Same i w = tally-Same s _ _ w

  available-Same : (h : Text) (w : World) → Same w (host_available_disk_bytes s h w).1
  unfolding host_available_disk_bytes
  available-Same h w = ground (arith, get_host_by_id-Same h w)

  calculate_host_usage-Same : (h : Text) (w : World) → Same w (calculate_host_usage s h w).1
  unfolding calculate_host_usage
  calculate_host_usage-Same h w =
      let key : Text = if is_empty (trim_space h) then s.local_host_id else trim_space h in
      let v : World = (tally s (on_host s key) (snapshot_on_host s key) w).1 in
      ground (arith, tally-Same s (on_host s key) (snapshot_on_host s key) w, available-Same key v)

  pub ensure_user_can_fit_delta-Same :
      (user : User) (delta : BudgetDelta Float) (w : World)
      → Same w (ensure_user_can_fit_delta s user delta w).1
  unfolding ensure_user_can_fit_delta
  ensure_user_can_fit_delta-Same user delta w = ground (arith, calculate_user_usage-Same user.id w)

  pub ensure_host_can_fit_delta-Same :
      (host : HostRecord) (delta : BudgetDelta Float) (w : World)
      → Same w (ensure_host_can_fit_delta s host delta w).1
  unfolding ensure_host_can_fit_delta
  ensure_host_can_fit_delta-Same host delta w = ground (arith, calculate_host_usage-Same host.id w)

  pub ensure_user_can_start_machine-Same :
      (user : User) (spec : ResourceSpec) (w : World)
      → Same w (ensure_user_can_start_machine s user spec w).1
  unfolding ensure_user_can_start_machine
  ensure_user_can_start_machine-Same user spec w =
      elim (Result-cases (compute_budget_delta s spec 0)) [
        | inl (delta, h) ↦ ground (arith, ensure_user_can_fit_delta-Same user delta w)
        | inr (x, h) ↦ ground (arith, Same-refl w)
      ]

  pub ensure_host_can_start_machine-Same :
      (host : HostRecord) (spec : ResourceSpec) (w : World)
      → Same w (ensure_host_can_start_machine s host spec w).1
  unfolding ensure_host_can_start_machine
  ensure_host_can_start_machine-Same host spec w =
      elim (Result-cases (compute_budget_delta s spec 0)) [
        | inl (delta, h) ↦ ground (arith, ensure_host_can_fit_delta-Same host delta w)
        | inr (x, h) ↦ ground (arith, Same-refl w)
      ]

  pub ensure_user_can_create_machine-Same :
      (user : User) (spec : ResourceSpec) (retained : ℕ) (w : World)
      → Same w (ensure_user_can_create_machine s user spec retained w).1
  unfolding ensure_user_can_create_machine
  ensure_user_can_create_machine-Same user spec retained w =
      elim (Result-cases (compute_budget_delta s spec retained)) [
        | inl (delta, h) ↦
            ground
              (arith, ensure_user_can_fit_delta-Same user (record delta { machine_count = 1 }) w)
        | inr (x, h) ↦ ground (arith, Same-refl w)
      ]

  pub ensure_host_can_fit_machine-Same :
      (host : HostRecord) (spec : ResourceSpec) (retained : ℕ) (w : World)
      → Same w (ensure_host_can_fit_machine s host spec retained w).1
  unfolding ensure_host_can_fit_machine
  ensure_host_can_fit_machine-Same host spec retained w =
      elim (Result-cases (compute_budget_delta s spec retained)) [
        | inl (delta, h) ↦ ground (arith, ensure_host_can_fit_delta-Same host delta w)
        | inr (x, h) ↦ ground (arith, Same-refl w)
      ]
