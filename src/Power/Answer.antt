-- ===== src/Power/Answer.antt =====
-- What StartMachine and StopMachine (internal/controlplane/machine_power.go) answer, and in which state
-- they leave the row, from the lookup of the machine to the answer.
use fascinate.Base.{
  Bool, ◌≡◌, refl, ap, sym, ◌∙◌, ◌⊎◌, inl, inr, true, false, some, List, [], ◌∷◌, arith, Bool-cases,
  Option, not, ◌&&◌,
}
use fascinate.Base.Text.{Text, text_eq, text_eq_refl, trim_space, is_empty, eq_of_text_eq}
use fascinate.Result.{Result, ok, err}
use fascinate.Database.Records.{World, MachineRecord, LiveMachine, Call}
use fascinate.Database.Machines.{find_name, has_id}
use fascinate.Database.Rows.{OnlyRow, Ready}
use fascinate.Database.Leaves.{state_of, update_machine_state-Leaves}
use fascinate.Database.Named.{id_named, get_machine_by_name-id_named}
use fascinate.Service.State.{should_adopt_runtime_state}
use fascinate.Service.Machines.{machine_from_record}
use fascinate.Power.Scope.{shown_again, get_machine_by_name_found}

-- No two rows share an identifier, which is the table's primary key.
unfoldable pub UniqueIds : List MachineRecord → Type 0
UniqueIds [] = Unit
UniqueIds (r ∷ rs) = (has_id r.id rs ≡ false) × UniqueIds rs

OnlyRow-has :
    (i j : Text) (rows rows' : List MachineRecord)
    → OnlyRow i rows rows'
    → has_id j rows' ≡ has_id j rows
unfolding has_id
OnlyRow-has i j [] [] h = refl
OnlyRow-has i j [] (r' ∷ rs') h = absurd h
OnlyRow-has i j (r ∷ rs) [] h = absurd h
OnlyRow-has i j (r ∷ rs) (r' ∷ rs') h = rw (h.0.id_eq, OnlyRow-has i j rs rs' h.1) refl

pub OnlyRow-UniqueIds :
    (i : Text) (rows rows' : List MachineRecord)
    → OnlyRow i rows rows'
    → UniqueIds rows
    → UniqueIds rows'
unfolding UniqueIds
OnlyRow-UniqueIds i [] [] h u = tt
OnlyRow-UniqueIds i [] (r' ∷ rs') h u = absurd h
OnlyRow-UniqueIds i (r ∷ rs) [] h u = tt
OnlyRow-UniqueIds i (r ∷ rs) (r' ∷ rs') h u =
    (rw (h.0.id_eq, OnlyRow-has i r.id rs rs' h.1) u.0, OnlyRow-UniqueIds i rs rs' h.1 u.1)

pub find_name-has_id :
    (n : Text) (rows : List MachineRecord) (r : MachineRecord)
    → find_name n rows ≡ some r
    → has_id r.id rows ≡ true
unfolding find_name has_id
find_name-has_id n [] r h = absurd (ground arith)
find_name-has_id n (q ∷ qs) r h = elim (Bool-cases (text_eq q.name n)) [
  | inl hit ↦
      let at : q ≡ r = ground arith in
      ground (arith, ap (λ m. text_eq q.id m.id) at, text_eq_refl q.id)
  | inr miss ↦ ground (arith, find_name-has_id n qs r)
]

-- The row that is found by its name is the one that has its identifier.
pub find_name-state_of :
    (n : Text) (rows : List MachineRecord) (r : MachineRecord)
    → UniqueIds rows
    → find_name n rows ≡ some r
    → state_of r.id rows ≡ some r.state
unfolding UniqueIds find_name state_of
find_name-state_of n [] r u h = absurd (ground arith)
find_name-state_of n (q ∷ qs) r u h = elim (Bool-cases (text_eq q.name n)) [
  | inl hit ↦ let at : q ≡ r = ground arith in rw (← at) (ground (arith, text_eq_refl q.id))
  | inr miss ↦ elim (Bool-cases (text_eq q.id r.id)) [
    | inl same ↦ absurd (
        ground (
          arith,
          u.0,
          ap (λ t. has_id t qs) (eq_of_text_eq q.id r.id same),
          find_name-has_id n qs r (ground arith),
        ))
    | inr other ↦ ground (arith, find_name-state_of n qs r u.1)
  ]
]

-- A state that the runtime reported in its answer to a call, and that machineFromRecord takes over
-- from it in the place of the state `was`.
pub record Adopted (reply : List Call → Result LiveMachine) (call : Call) (was shown : Text)
    : Type 0 where
  pub live : LiveMachine
  pub calls : List Call
  pub answered : reply (call ∷ calls) ≡ ok live
  pub adopted : should_adopt_runtime_state was live.state ≡ true
  pub shown_eq : shown ≡ live.state

-- What machineFromRecord shows of a row is the state in which it leaves it: the row's, or the one that
-- it takes over.
shown_state :
    (r : MachineRecord) (live : LiveMachine) (w : World)
    → Ready r.id w
    → state_of r.id w.machines ≡ some r.state
    → (shown : MachineRecord) × (((machine_from_record r live w).0 ≡ ok shown)
        × ((shown.id ≡ r.id)
            × ((state_of r.id (machine_from_record r live w).1.machines ≡ some shown.state)
                × ((shown.state ≡ r.state)
                    ⊎ ((should_adopt_runtime_state r.state live.state ≡ true)
                        × (shown.state ≡ live.state))))))
unfolding machine_from_record
shown_state r live w d h = elim (Bool-cases test) [
  | inl adopts ↦ (
    record r { state = live.state },
    (
      ground (arith, adopts),
      (
        refl,
        (
          rw adopts ((update_machine_state-Leaves r.id live.state).state_is w d),
          inr (ground (arith, adopts), refl),
        ),
      ),
    ),
  )
  | inr keeps ↦ (r, (ground (arith, keeps), (refl, (rw keeps h, inl refl))))
]
  where
    test : Bool
    test =
        not (is_empty live.name)
        && not (is_empty live.state)
        && not (text_eq live.state r.state)
        && should_adopt_runtime_state r.state live.state

-- The row i that has the name n, where no statement fails, in a state.
pub record At (n i st : Text) (w : World) : Type 0 where
  pub ready : Ready i w
  pub named : id_named (trim_space n) w.machines ≡ some i
  pub unique : UniqueIds w.machines
  pub state_eq : state_of i w.machines ≡ some st

shown_again_state :
    (n i st : Text) (live : LiveMachine) (w : World)
    → At n i st w
    → (shown : MachineRecord) × (((shown_again n live w).0 ≡ ok shown)
        × ((shown.id ≡ i)
            × ((state_of i (shown_again n live w).1.machines ≡ some shown.state)
                × ((shown.state ≡ st)
                    ⊎ ((should_adopt_runtime_state st live.state ≡ true)
                        × (shown.state ≡ live.state))))))
shown_again_state n i st live w a =
    let (q, (found, is_i)) = get_machine_by_name-id_named n i w a.ready a.named in
    let row = get_machine_by_name_found n w q (ap (λ p. p.0) found) in
    let here : state_of q.id w.machines ≡ some q.state =
      find_name-state_of (trim_space n) w.machines q a.unique row in
    let in_st : q.state ≡ st =
      ground (arith, here, a.state_eq, ap (λ t. state_of t w.machines) is_i) in
    let (shown, (done, (same, (state, why)))) =
      shown_state q live w
        (record {
          no_faults = a.ready.no_faults;
          known = ap (λ t. has_id t w.machines) is_i ∙ a.ready.known;
        })
        here in
    let runs : shown_again n live w ≡ machine_from_record q live w = ground (arith, found) in
    (
      shown,
      (
        ap (λ p. p.0) runs ∙ done,
        (
          same ∙ is_i,
          (
            ap (λ p. state_of i p.1.machines) runs
                ∙ (ap (λ t. state_of t (machine_from_record q live w).1.machines) (sym is_i)
                    ∙ state),
            rw (← in_st) why,
          ),
        ),
      ),
    )

-- What an operation answers, and the state that it leaves: `goal` if it succeeds, or a state that the
-- runtime reported in its answer to the call; the state before or `back` if it fails.
abbrev pub Answered :
    (List Call → Result LiveMachine)
    → Call
    → Text
    → Text
    → Text
    → Option Text
    → Result MachineRecord
    → Option Text
    → Type 0
Answered reply call i goal back before (ok shown) after =
    (shown.id ≡ i)
    × ((after ≡ some shown.state) × ((shown.state ≡ goal) ⊎ Adopted reply call goal shown.state))
Answered reply call i goal back before (err x) after = (after ≡ before) ⊎ (after ≡ some back)

module _ (reply : List Call → Result LiveMachine) (call : Call) (n i goal back : Text)
    (before : Option Text) where
  abbrev pub Settled : Result MachineRecord × World → Type 0
  Settled p = Answered reply call i goal back before p.0 (state_of i p.1.machines)

  -- The last steps, behind a call of the runtime that succeeded.
  pub shown_again-Settled :
      (live : LiveMachine) (calls : List Call) (w : World)
      → reply (call ∷ calls) ≡ ok live
      → At n i goal w
      → Settled (shown_again n live w)
  shown_again-Settled live calls w told a =
      let (shown, (done, (same, (state, why)))) = shown_again_state n i goal live w a in
      answer (shown_again n live w) shown done same state why
    where
      from :
          (shown : MachineRecord)
          → (shown.state ≡ goal)
            ⊎ ((should_adopt_runtime_state goal live.state ≡ true) × (shown.state ≡ live.state))
          → (shown.state ≡ goal) ⊎ Adopted reply call goal shown.state
      from shown (inl e) = inl e
      from shown (inr (takes, e)) =
          inr
            (record { live = live; calls = calls; answered = told; adopted = takes; shown_eq = e })

      answer :
          (p : Result MachineRecord × World) (shown : MachineRecord)
          → p.0 ≡ ok shown
          → shown.id ≡ i
          → state_of i p.1.machines ≡ some shown.state
          → (shown.state ≡ goal)
            ⊎ ((should_adopt_runtime_state goal live.state ≡ true) × (shown.state ≡ live.state))
          → Settled p
      answer (ok q, v) shown e same state why =
          let is_q : shown ≡ q = ground (arith, e) in rw (← is_q) (same, (state, from shown why))
      answer (err x, v) shown e same state why = absurd (ground (arith, e))
