-- ===== src/Machine/Orphans.antt =====
-- Which machines of the runtime ReconcileRuntimeState (internal/controlplane/service.go) deletes.
use fascinate.Base.{
  ◌≡◌, refl, ◌∙◌, ap, false, ◌||◌, List, [], ◌∷◌, ◌++◌, All, arith, Bool-cases, inl, inr,
}
use fascinate.Base.Text.{Text, text_eq, trim_space, is_empty}
use fascinate.Result.{Result, ok, err}
use fascinate.Database.Records.{World, MachineRecord, LiveMachine, Call}
use fascinate.Database.Monad.{ask}
use fascinate.Service.{Service, runtime_name_for_record}
use fascinate.Machine.Delete.{delete_from_runtime}
use fascinate.Machine.Reconcile.{is_known, delete_unknown}

-- No row stands for a machine of the runtime with the name.
abbrev pub NoRow : List MachineRecord → Text → Type 0
NoRow known name = All (λ r. text_eq (runtime_name_for_record r) name ≡ false) known

-- A deletion of a machine that no row stands for.
abbrev pub DeletesOrphan : List MachineRecord → Call → Type 0
DeletesOrphan known (Call.delete_machine name) = NoRow known name
DeletesOrphan known _ = ⊥

-- The runtime has been asked for such deletions only, and nothing else has changed.
pub record OrphansOnly (known : List MachineRecord) (w w' : World) : Type 0 where
  pub asked : List Call
  pub calls_eq : w'.calls ≡ asked ++ w.calls
  pub asked_ok : All (DeletesOrphan known) asked
  pub same : w' ≡ record w { calls = w'.calls }

is_known-NoRow :
    (name : Text) (known : List MachineRecord) → is_known name known ≡ false → NoRow known name
unfolding is_known
is_known-NoRow name [] h = tt
is_known-NoRow name (r ∷ rs) h = (ground arith, is_known-NoRow name rs (ground arith))

append_assoc_calls : (xs ys zs : List Call) → xs ++ (ys ++ zs) ≡ (xs ++ ys) ++ zs
append_assoc_calls [] ys zs = refl
append_assoc_calls (x ∷ xs) ys zs = ap (λ t. x ∷ t) (append_assoc_calls xs ys zs)

All-append : (P : Call → Type 0) (xs ys : List Call) → All P xs → All P ys → All P (xs ++ ys)
All-append P [] ys hx hy = hy
All-append P (x ∷ xs) ys hx hy = (hx.0, All-append P xs ys hx.1 hy)

OrphansOnly-refl : (known : List MachineRecord) (w : World) → OrphansOnly known w w
OrphansOnly-refl known w = record { asked = []; calls_eq = refl; asked_ok = tt; same = refl }

OrphansOnly-trans :
    (known : List MachineRecord) (u v w : World)
    → OrphansOnly known u v
    → OrphansOnly known v w
    → OrphansOnly known u w
OrphansOnly-trans known u v w a b = record {
  asked = b.asked ++ a.asked;
  calls_eq =
      b.calls_eq ∙ (ap (λ t. b.asked ++ t) a.calls_eq ∙ append_assoc_calls b.asked a.asked u.calls);
  asked_ok = All-append (DeletesOrphan known) b.asked a.asked b.asked_ok a.asked_ok;
  same = ground (arith, a.same, b.same);
}

module _ (s : Service) where
  delete_from_runtime-OrphansOnly :
      (known : List MachineRecord) (name : Text) (w : World)
      → NoRow known name
      → OrphansOnly known w (delete_from_runtime s name w).1
  unfolding delete_from_runtime ask
  delete_from_runtime-OrphansOnly known name w h = record {
    asked = Call.delete_machine name ∷ [];
    calls_eq = refl;
    asked_ok = (h, tt);
    same = refl;
  }

  -- The loop of ReconcileRuntimeState over the machines that the runtime has listed asks the runtime
  -- to delete only machines that none of the rows it has read stands for, and changes nothing else, on
  -- every path. What ReconcileRuntimeState does for the machines that have a row is not part of it.
  pub delete_unknown-OrphansOnly :
      (known : List MachineRecord) (machines : List LiveMachine) (w : World)
      → OrphansOnly known w (delete_unknown s known machines w).1
  unfolding delete_unknown
  delete_unknown-OrphansOnly known [] w = OrphansOnly-refl known w
  delete_unknown-OrphansOnly known (m ∷ ms) w =
      elim (Bool-cases (is_empty (trim_space m.name) || is_known (trim_space m.name) known)) [
        | inl skip ↦ rw skip (delete_unknown-OrphansOnly known ms w)
        | inr orphan ↦ rw orphan (
            step (delete_from_runtime s (trim_space m.name) w)
              (delete_from_runtime-OrphansOnly known (trim_space m.name) w
                (is_known-NoRow (trim_space m.name) known (ground arith)))
              (λ v. delete_unknown-OrphansOnly known ms v))
      ]
    where
      step :
          (p : Result (Unit {0}) × World)
          → OrphansOnly known w p.1
          → ((v : World) → OrphansOnly known v (delete_unknown s known ms v).1)
          → OrphansOnly known w
              (elim p.0 as (λ _. Result (Unit {0}) × World) [
                | ok _ ↦ delete_unknown s known ms p.1
                | err x ↦ (err x, p.1)
              ]).1
      step (ok u, v) a ih = OrphansOnly-trans known w v _ a (ih v)
      step (err x, v) a ih = a
