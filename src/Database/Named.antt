-- ===== src/Database/Named.antt =====
-- The row that has a name has a given identifier, as the queries by name rely on.
use fascinate.Base.{
  Bool-cases, inl, inr, ◌≡◌, refl, ◌∙◌, Option, none, some, List, [], ◌∷◌, arith, if◌then◌else◌,
}
use fascinate.Base.Text.{Text, text_eq, trim_space}
use fascinate.Result.{ok}
use fascinate.Database.Records.{World, MachineRecord}
use fascinate.Database.Monad.{statement}
use fascinate.Database.Machines.{find_name, get_machine_by_name}
use fascinate.Database.Rows.{OnlyRow, Touches, Ready}

-- The identifier of the row with a name.
unfoldable pub id_named : Text → List MachineRecord → Option Text
id_named n [] = none
id_named n (r ∷ rs) = if text_eq r.name n then some r.id else id_named n rs

OnlyRow-id_named :
    (i n : Text) (rows rows' : List MachineRecord)
    → OnlyRow i rows rows'
    → id_named n rows' ≡ id_named n rows
unfolding id_named
OnlyRow-id_named i n [] [] h = refl
OnlyRow-id_named i n [] (r' ∷ rs') h = absurd h
OnlyRow-id_named i n (r ∷ rs) [] h = absurd h
OnlyRow-id_named i n (r ∷ rs) (r' ∷ rs') h =
    rw (h.0.id_eq, h.0.name_eq, OnlyRow-id_named i n rs rs' h.1) refl

pub Touches-id_named :
    (i n j : Text) (w w' : World)
    → Touches i w w'
    → id_named n w.machines ≡ some j
    → id_named n w'.machines ≡ some j
Touches-id_named i n j w w' t h = OnlyRow-id_named i n w.machines w'.machines t.rows ∙ h

find-id_named :
    (n i : Text) (rows : List MachineRecord)
    → id_named n rows ≡ some i
    → (r : MachineRecord) × ((find_name n rows ≡ some r) × (r.id ≡ i))
unfolding id_named find_name
find-id_named n i [] h = absurd (ground arith)
find-id_named n i (r ∷ rs) h = elim (Bool-cases (text_eq r.name n)) [
  | inl e ↦ (r, (ground arith, ground arith))
  | inr e ↦ let (r', (f, same)) = find-id_named n i rs (ground arith) in (r', (ground arith, same))
]

-- Without faults, the query finds the row and changes nothing.
pub get_machine_by_name-id_named :
    (n i : Text) (w : World)
    → Ready i w
    → id_named (trim_space n) w.machines ≡ some i
    → (r : MachineRecord) × ((get_machine_by_name n w ≡ (ok r, w)) × (r.id ≡ i))
unfolding get_machine_by_name statement
get_machine_by_name-id_named n i w d h =
    let (r, (f, same)) = find-id_named (trim_space n) i w.machines h in
    (r, (ground (arith, d.no_faults, f), same))
