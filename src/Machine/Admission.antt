-- ===== src/Machine/Admission.antt =====
-- The row that CreateMachine and ForkMachine (internal/controlplane/service.go) insert, and the budget
-- of its owner (budgets.go).
use fascinate.Budget.Check.{ensure_host_can_fit_machine, ensure_user_can_create_machine}
use mathlib.Core.Path.{subst}
use fascinate.Base.{ℕ, ◌<◌, ◌≡◌, refl, ◌∙◌, ap, Option, arith}
use fascinate.Base.Word.{word_mod}
use fascinate.Base.Text.{Text, text_eq_refl, trim_space}
use fascinate.Result.{ok}
use fascinate.Database.Records.{HostRecord, World, User, MachineRecord}
use fascinate.Database.Monad.{M, statement, rescue, ◌>>◌}
use fascinate.Database.Frame.{statement-Same, Same, get_machine_by_name-Same, get_host_by_id-Same}
use fascinate.Database.Machines.{create_machine_row, insert_row, email_of}
use fascinate.Database.Inversion.{bind_ok, rescue_ok}
use fascinate.Service.{Service}
use fascinate.Service.Machines.{host_by_id}
use fascinate.Budget.Spec.{UserBudget, user_budget_for_user, machine_spec_for_record}
use fascinate.Budget.Usage.{Usage, calculate_user_usage}
use fascinate.Budget.Effects.{ensure_user_can_create_machine-Same, ensure_host_can_fit_machine-Same}
use fascinate.Budget.Admission.{CreatedFor, Within, ensure_user_can_create_machine-Within}
use fascinate.Machine.Request.{Plan, admit_machine, created_row}

-- The row that an insertion has added.
create_machine_row_inserts :
    (m : MachineRecord) (w v : World) (r : MachineRecord)
    → create_machine_row m w ≡ (ok r, v)
    → (email : Text) × ((v.machines ≡ insert_row (record m { owner_email = email }) w.machines)
        × (v.snapshots ≡ w.snapshots))
unfolding create_machine_row
create_machine_row_inserts m w v r h = go (email_of m.owner_user_id w.users) refl
  where
    w1 : World
    w1 = (statement w).1

    go :
        (o : Option Text)
        → email_of m.owner_user_id w.users ≡ o
        → (email : Text) × ((v.machines ≡ insert_row (record m { owner_email = email }) w.machines)
            × (v.snapshots ≡ w.snapshots))
    go Option.none e = absurd (ground (arith, statement-Same w))
    go (Option.some a) e = (
      a,
      (
        ground (arith, statement-Same w, get_machine_by_name-Same m.name w2),
        ground (arith, statement-Same w, get_machine_by_name-Same m.name w2),
      ),
    )
      where
        w2 : World
        w2 = record w1 { machines = insert_row (record m { owner_email = a }) w1.machines }

host_by_id-Same : (i : Text) (w : World) → Same w (host_by_id i w).1
unfolding host_by_id
host_by_id-Same i w = ground (arith, get_host_by_id-Same i w)

module _ (s : Service) where
  open s use {floats}
  open floats use {Float}

  machine_spec_for_record_email :
      (r : MachineRecord) (email : Text)
      → machine_spec_for_record s (record r { owner_email = email }) ≡ machine_spec_for_record s r
  unfolding machine_spec_for_record
  machine_spec_for_record_email r email = refl

  -- The row that CreateMachine or ForkMachine inserts, once its checks and the insertion have
  -- succeeded, leaves the owner's usage, as calculateUserUsage computes it then, within the budget in
  -- machines, memory and disk, if the specification that the row is read back with is the one that was
  -- checked.
  pub admit_machine-Within :
      (user : User) (rejected : M (Unit {0})) (i name : Text) (port : ℕ) (plan : Plan)
      (w v v' : World) (r : MachineRecord) (u : Usage Float)
      → plan.retained < word_mod
      → machine_spec_for_record s (created_row s user i name port plan) ≡ ok plan.spec
      → admit_machine s user rejected plan (created_row s user i name port plan) w ≡ (ok r, v)
      → calculate_user_usage s user.id v ≡ (ok u, v')
      → (b : UserBudget Float) × ((user_budget_for_user s user ≡ ok b) × Within s b u)
  unfolding admit_machine
  admit_machine-Within user rejected i name port plan w v v' r u small spec_back admitted used =
      let (host, (h1, rest1)) = bind_ok (host_by_id plan.host_id) checks w v r admitted in
      let (t2, (h2, rest2)) = bind_ok user_check (λ _. host_check host >> insertion) w1 v r rest1 in
      let (t3, (h3, rest3)) = bind_ok (host_check host) (λ _. insertion) w2 v r rest2 in
      let passed = rescue_ok user_ensured rejected w1 w2 tt h2 in
      let same2 : Same w1 w2 =
        subst (λ p. Same w1 p.1) passed
          (ensure_user_can_create_machine-Same s user plan.spec plan.retained w1) in
      let same3 : Same w2 (host_check host w2).1 =
        subst (λ p. Same w2 p.1)
          (rescue_ok (host_ensured host) rejected w2 (host_check host w2).1 tt h3)
          (ensure_host_can_fit_machine-Same s host plan.spec plan.retained w2) in
      let (email, (rows, snapshots)) =
        create_machine_row_inserts row (host_check host w2).1 v r rest3 in
      ensure_user_can_create_machine-Within s user plan.spec plan.retained
        (record row { owner_email = email }) (created email) w1 w2 v v' u small passed
        (rows
          ∙ ap (insert_row (record row { owner_email = email }))
              (same3.machines_eq ∙ same2.machines_eq))
        (snapshots ∙ (same3.snapshots_eq ∙ same2.snapshots_eq)) used
    where
      row : MachineRecord
      row = created_row s user i name port plan

      user_ensured : M (Unit {0})
      user_ensured = ensure_user_can_create_machine s user plan.spec plan.retained

      user_check : M (Unit {0})
      user_check = rescue user_ensured rejected

      host_ensured : HostRecord → M (Unit {0})
      host_ensured host = ensure_host_can_fit_machine s host plan.spec plan.retained

      host_check : HostRecord → M (Unit {0})
      host_check host = rescue (host_ensured host) rejected

      insertion : M MachineRecord
      insertion = create_machine_row row

      checks : HostRecord → M MachineRecord
      checks host = user_check >> (host_check host >> insertion)

      w1 : World
      w1 = (host_by_id plan.host_id w).1

      w2 : World
      w2 = (user_check w1).1

      created :
          (email : Text)
          → CreatedFor s user plan.spec plan.retained
              (record (created_row s user i name port plan) { owner_email = email })
      created email = record {
        owner = text_eq_refl (trim_space user.id);
        state_eq = refl;
        usage_eq = refl;
        spec_eq =
            machine_spec_for_record_email (created_row s user i name port plan) email ∙ spec_back;
      }
