-- ===== src/Power/Scope.antt =====
-- Which rows StartMachine and StopMachine (internal/controlplane/machine_power.go) can change, from
-- the lookup of the machine to the answer.
use fascinate.Base.{◌≡◌, refl, ap, sym, ◌∙◌, ◌⊎◌, inl, inr, some, List, [], ◌∷◌, arith, Bool-cases}
use fascinate.Base.Text.{Text, text_eq, trim_space, is_empty, eq_of_text_eq}
use fascinate.Base.Text.Trim.{lower_trim_idem, trim_space_idem}
use fascinate.Result.{Result, ok, err}
use fascinate.Database.Records.{World, MachineRecord, LiveMachine}
use fascinate.Database.Monad.{M, ◌>>=◌, ◌>>◌, lift, statement}
use fascinate.Database.Effect.{
  KeepsTo, IsEffect, seq-KeepsTo, bind-KeepsTo, lift-KeepsTo, ignore-KeepsTo, if-KeepsTo,
}
use fascinate.Database.Frame.{Same, get_machine_by_name-Same}
use fascinate.Database.Machines.{find_name, get_machine_by_name, normalize_email}
use fascinate.Database.Named.{id_named, Touches-id_named}
use fascinate.Database.Rows.{Touches, Touches-IsEffect, update_machine_state-Touches}
use fascinate.Service.{Service}
use fascinate.Service.State.{ensure_machine_running_for_stop}
use fascinate.Service.Machines.{owned_machine_record, normalize_machine_name, machine_from_record}
use fascinate.Power.Stop.{stop_machine, perform_stop}
use fascinate.Power.Isolation.{perform_stop-Touches}

-- The name under which the machine is looked up.
abbrev pub key_of : Text → Text
key_of name = trim_space (normalize_machine_name name)

find_name-id_named :
    (n : Text) (rows : List MachineRecord) (r : MachineRecord)
    → find_name n rows ≡ some r
    → (id_named n rows ≡ some r.id) × (r.name ≡ n)
unfolding find_name id_named
find_name-id_named n [] r h = absurd (ground arith)
find_name-id_named n (q ∷ qs) r h = elim (Bool-cases (text_eq q.name n)) [
  | inl hit ↦
      let at : q ≡ r = ground arith in
      (ground arith, ap (λ m. m.name) (sym at) ∙ eq_of_text_eq q.name n hit)
  | inr miss ↦ let (i, named) = find_name-id_named n qs r (ground arith) in (ground arith, named)
]

pub get_machine_by_name_found :
    (n : Text) (w : World) (r : MachineRecord)
    → (get_machine_by_name n w).0 ≡ ok r
    → find_name (trim_space n) w.machines ≡ some r
unfolding get_machine_by_name statement
get_machine_by_name_found n w r h = ground arith

pub owned_machine_record_found :
    (name email : Text) (w : World) (r : MachineRecord)
    → (owned_machine_record name email w).0 ≡ ok r
    → (find_name (key_of name) w.machines ≡ some r)
      × (normalize_email r.owner_email ≡ normalize_email email)
unfolding owned_machine_record get_machine_by_name statement
owned_machine_record_found name email w r h = (
  ground arith,
  eq_of_text_eq (normalize_email r.owner_email) (normalize_email email) (ground arith),
)

pub owned_machine_record-Same :
    (name email : Text) (w : World) → Same w (owned_machine_record name email w).1
unfolding owned_machine_record
owned_machine_record-Same name email w =
    ground (arith, get_machine_by_name-Same (normalize_machine_name name) w)

-- Where the row with the name n has the identifier i, it alone is touched.
abbrev pub AtName : Text → Text → World → World → Type 0
AtName n i w w' = id_named n w.machines ≡ some i → Touches i w w'

AtName-IsEffect : (n i : Text) → IsEffect (AtName n i)
AtName-IsEffect n i = record {
  same = λ w w' h at. (Touches-IsEffect i).same w w' h;
  chain = λ u v w a b at.
      (Touches-IsEffect i).chain u v w (a at) (b (Touches-id_named i n i u v (a at) at));
  log = λ w c es at. (Touches-IsEffect i).log w c es;
}

pub Touches-AtName :
    {A : Type 0} {m : M A} (n i : Text) → KeepsTo (Touches i) m → KeepsTo (AtName n i) m
Touches-AtName n i h = record { step = λ w at. h.step w }

machine_from_record-Touches :
    (r : MachineRecord) (live : LiveMachine) → KeepsTo (Touches r.id) (machine_from_record r live)
unfolding machine_from_record
machine_from_record-Touches r live =
    if-KeepsTo e _
      (seq-KeepsTo e (ignore-KeepsTo e (update_machine_state-Touches r.id live.state))
        (lift-KeepsTo e (ok _)))
      (lift-KeepsTo e (ok r))
  where
    e : IsEffect (Touches r.id)
    e = Touches-IsEffect r.id

-- The last steps: the row is read again by its name, and shown.
abbrev pub shown_again : Text → LiveMachine → M MachineRecord
shown_again n live = get_machine_by_name n >>= λ refreshed. machine_from_record refreshed live

pub shown_again-AtName :
    (n i : Text) (live : LiveMachine) → KeepsTo (AtName (trim_space n) i) (shown_again n live)
shown_again-AtName n i live = record {
  step = λ w at. go w at (get_machine_by_name n w) refl (get_machine_by_name-Same n w);
}
  where
    go :
        (w : World)
        → id_named (trim_space n) w.machines ≡ some i
        → (p : Result MachineRecord × World) → get_machine_by_name n w ≡ p
        → Same w p.1
        → Touches i w
            (elim p.0 as (λ _. Result MachineRecord × World) [
              | ok q ↦ machine_from_record q live p.1
              | err x ↦ (err x, p.1)
            ]).1
    go w at (err x, v) e same = (Touches-IsEffect i).same w v same
    go w at (ok q, v) e same =
        let found =
          find_name-id_named (trim_space n) w.machines q
            (get_machine_by_name_found n w q (ap (λ p. p.0) e)) in
        let is_i : q.id ≡ i = ground (arith, found, at) in
        (Touches-IsEffect i).chain w v _ ((Touches-IsEffect i).same w v same)
          (rw (← is_i) ((machine_from_record-Touches q live).step v))

-- No table has changed.
abbrev pub Unchanged : World → World → Type 0
Unchanged w w' = (w'.machines ≡ w.machines) × Touches [] w w'

-- No table has changed, or the machine r that has that name, and whose owner has that address, has been
-- touched as T says.
abbrev pub LookedUp : (Text → World → World → Type 0) → Text → Text → World → World → Type 0
LookedUp T key email w w' =
    Unchanged w w'
    ⊎ ((r : MachineRecord) × ((find_name key w.machines ≡ some r)
          × ((normalize_email r.owner_email ≡ normalize_email email) × T r.id w w')))

pub Same-Unchanged : (w w' : World) → Same w w' → Unchanged w w'
Same-Unchanged w w' h = (h.machines_eq, (Touches-IsEffect []).same w w' h)

normalize_twice : (e : Text) → normalize_email (normalize_email e) ≡ normalize_email e
unfolding normalize_email
normalize_twice e = lower_trim_idem e

-- A name that was found is the trimmed one.
pub found_at :
    (name : Text) (rows : List MachineRecord) (r : MachineRecord)
    → find_name (key_of name) rows ≡ some r
    → id_named (trim_space r.name) rows ≡ some r.id
found_at name rows r h =
    let (named, at) = find_name-id_named (key_of name) rows r h in
    ap (λ n. id_named n rows) (ap trim_space at ∙ trim_space_idem (normalize_machine_name name))
    ∙ named

-- An operation that looks the machine up, and then touches it.
pub after_lookup-LookedUp :
    {A : Type 0} (T : Text → World → World → Type 0) (name email : Text) (k : MachineRecord → M A)
    → ((i : Text) (u v w : World) → Same u v → T i v w → T i u w)
    → ((r : MachineRecord) (w : World)
        → id_named (trim_space r.name) w.machines ≡ some r.id
        → T r.id w (k r w).1)
    → (w : World)
    → LookedUp T
        (key_of name)
        email
        w
        ((owned_machine_record name (normalize_email email) >>= k) w).1
after_lookup-LookedUp {A} T name email k before hk w =
    go (owned_machine_record name (normalize_email email) w) refl
      (owned_machine_record-Same name (normalize_email email) w)
  where
    go :
        (p : Result MachineRecord × World)
        → owned_machine_record name (normalize_email email) w ≡ p
        → Same w p.1
        → LookedUp T
            (key_of name)
            email
            w
            (elim p.0 as (λ _. Result A × World) [ ok r ↦ k r p.1 | err x ↦ (err x, p.1) ]).1
    go (err x, v) e same = inl (Same-Unchanged w v same)
    go (ok r, v) e same =
        let (found, owner) =
          owned_machine_record_found name (normalize_email email) w r (ap (λ p. p.0) e) in
        let at : id_named (trim_space r.name) v.machines ≡ some r.id =
          ap (id_named (trim_space r.name)) same.machines_eq ∙ found_at name w.machines r found in
        inr (r, (found, (owner ∙ normalize_twice email, before r.id w v _ same (hk r v at))))

module _ (s : Service) where
  -- StopMachine behind the lookup.
  abbrev pub rest_of_stop : MachineRecord → M MachineRecord
  rest_of_stop found =
      lift (ensure_machine_running_for_stop found)
      >> (perform_stop s found >>= shown_again found.name)

  rest_of_stop-AtName :
      (r : MachineRecord) → KeepsTo (AtName (trim_space r.name) r.id) (rest_of_stop r)
  rest_of_stop-AtName r = seq-KeepsTo e (lift-KeepsTo e (ensure_machine_running_for_stop r)) (
      bind-KeepsTo e
        (Touches-AtName (trim_space r.name) r.id (record { step = perform_stop-Touches s r }))
        (shown_again-AtName r.name r.id))
    where
      e : IsEffect (AtName (trim_space r.name) r.id)
      e = AtName-IsEffect (trim_space r.name) r.id

  -- StopMachine, whatever fails on the way, changes no table but that of the machines, and there only
  -- the row that it finds by the name, if the row's owner has the given address, and of that row the
  -- state and the disk usage alone.
  pub stop_machine-LookedUp :
      (name email : Text) (w : World)
      → LookedUp Touches (key_of name) email w (stop_machine s name email w).1
  unfolding stop_machine
  stop_machine-LookedUp name email w = elim (Bool-cases (is_empty (normalize_email email))) [
    | inl nobody ↦ inl (rw nobody (Same-Unchanged w w (ground arith)))
    | inr given ↦ rw given (
        after_lookup-LookedUp Touches name email rest_of_stop
          (λ i u v w same t.
            (Touches-IsEffect i).chain u v w ((Touches-IsEffect i).same u v same) t)
          (λ r. (rest_of_stop-AtName r).step) w)
  ]
