-- ===== src/Database/Rows.antt =====
-- Writes to one row of the table of machines.
use fascinate.Base.{ℕ, ◌≡◌, refl, ◌∙◌, true, false, not, List, [], ◌∷◌, arith, Bool-cases, inl, inr}
use fascinate.Base.Text.{Text, text_eq}
use fascinate.Result.{not_found}
use fascinate.Database.Records.{World, MachineRecord, Call, EventRecord}
use fascinate.Database.Monad.{statement}
use fascinate.Database.Frame.{Same, statement-Same}
use fascinate.Database.Effect.{
  KeepsTo, IsEffect, seq-KeepsTo, bind-KeepsTo, Same-KeepsTo, gets-KeepsTo, fail_if-KeepsTo,
  modify-KeepsTo,
}
use fascinate.Database.Machines.{
  has_id, update_rows, update_machine, update_machine_state, update_machine_state_and_disk_usage,
  update_machine_disk_usage,
}

-- A row may have changed in its state and disk usage alone, and only if it has the identifier i.
pub record Kept (i : Text) (r r' : MachineRecord) : Type 0 where
  pub id_eq : r'.id ≡ r.id
  pub name_eq : r'.name ≡ r.name
  pub owner_user_id_eq : r'.owner_user_id ≡ r.owner_user_id
  pub owner_email_eq : r'.owner_email ≡ r.owner_email
  pub host_id_eq : r'.host_id ≡ r.host_id
  pub runtime_name_eq : r'.runtime_name ≡ r.runtime_name
  pub source_snapshot_id_eq : r'.source_snapshot_id ≡ r.source_snapshot_id
  pub cpu_eq : r'.cpu ≡ r.cpu
  pub memory_bytes_eq : r'.memory_bytes ≡ r.memory_bytes
  pub disk_bytes_eq : r'.disk_bytes ≡ r.disk_bytes
  pub primary_port_eq : r'.primary_port ≡ r.primary_port
  pub state_eq : text_eq r.id i ≡ false → r'.state ≡ r.state
  pub disk_usage_eq : text_eq r.id i ≡ false → r'.disk_usage_bytes ≡ r.disk_usage_bytes

abbrev pub OnlyRow : Text → List MachineRecord → List MachineRecord → Type 0
OnlyRow i [] [] = Unit
OnlyRow i [] (r' ∷ rs') = ⊥
OnlyRow i (r ∷ rs) [] = ⊥
OnlyRow i (r ∷ rs) (r' ∷ rs') = Kept i r r' × OnlyRow i rs rs'

Kept-refl : (i : Text) (r : MachineRecord) → Kept i r r
Kept-refl i r = ground arith

Kept-trans : (i : Text) (a b c : MachineRecord) → Kept i a b → Kept i b c → Kept i a c
Kept-trans i a b c h k = ground arith

pub OnlyRow-refl : (i : Text) (rows : List MachineRecord) → OnlyRow i rows rows
OnlyRow-refl i [] = tt
OnlyRow-refl i (r ∷ rs) = (Kept-refl i r, OnlyRow-refl i rs)

pub OnlyRow-trans :
    (i : Text) (a b c : List MachineRecord) → OnlyRow i a b → OnlyRow i b c → OnlyRow i a c
OnlyRow-trans i [] [] [] h k = tt
OnlyRow-trans i [] [] (z ∷ c) h k = k
OnlyRow-trans i [] (y ∷ b) c h k = absurd h
OnlyRow-trans i (x ∷ a) [] c h k = absurd h
OnlyRow-trans i (x ∷ a) (y ∷ b) [] h k = absurd k
OnlyRow-trans i (x ∷ a) (y ∷ b) (z ∷ c) h k =
    (Kept-trans i x y z h.0 k.0, OnlyRow-trans i a b c h.1 k.1)

-- No other table has changed, nor any other machine, and without faults to come none comes.
pub record Touches (i : Text) (w w' : World) : Type 0 where
  pub rows : OnlyRow i w.machines w'.machines
  pub users_eq : w'.users ≡ w.users
  pub snapshots_eq : w'.snapshots ≡ w.snapshots
  pub hosts_eq : w'.hosts ≡ w.hosts
  pub env_vars_eq : w'.env_vars ≡ w.env_vars
  pub email_codes_eq : w'.email_codes ≡ w.email_codes
  pub web_sessions_eq : w'.web_sessions ≡ w.web_sessions
  pub api_tokens_eq : w'.api_tokens ≡ w.api_tokens
  pub terminals_eq : w'.terminals ≡ w.terminals
  pub quiet : w.faults ≡ [] → w'.faults ≡ []

Touches-same : (i : Text) (w w' : World) → Same w w' → Touches i w w'
Touches-same i w w' s = record {
  rows = rw s.machines_eq (OnlyRow-refl i w.machines);
  users_eq = s.users_eq;
  snapshots_eq = s.snapshots_eq;
  hosts_eq = s.hosts_eq;
  env_vars_eq = s.env_vars_eq;
  email_codes_eq = s.email_codes_eq;
  web_sessions_eq = s.web_sessions_eq;
  api_tokens_eq = s.api_tokens_eq;
  terminals_eq = s.terminals_eq;
  quiet = s.quiet;
}

pub Touches-trans : (i : Text) (u v w : World) → Touches i u v → Touches i v w → Touches i u w
Touches-trans i u v w a b = record {
  rows = OnlyRow-trans i u.machines v.machines w.machines a.rows b.rows;
  users_eq = b.users_eq ∙ a.users_eq;
  snapshots_eq = b.snapshots_eq ∙ a.snapshots_eq;
  hosts_eq = b.hosts_eq ∙ a.hosts_eq;
  env_vars_eq = b.env_vars_eq ∙ a.env_vars_eq;
  email_codes_eq = b.email_codes_eq ∙ a.email_codes_eq;
  web_sessions_eq = b.web_sessions_eq ∙ a.web_sessions_eq;
  api_tokens_eq = b.api_tokens_eq ∙ a.api_tokens_eq;
  terminals_eq = b.terminals_eq ∙ a.terminals_eq;
  quiet = λ h. b.quiet (a.quiet h);
}

Touches-log :
    (i : Text) (w : World) (c : List Call) (es : List EventRecord)
    → Touches i w (record w { calls = c; events = es })
Touches-log i w c es = record {
  rows = OnlyRow-refl i w.machines;
  users_eq = refl;
  snapshots_eq = refl;
  hosts_eq = refl;
  env_vars_eq = refl;
  email_codes_eq = refl;
  web_sessions_eq = refl;
  api_tokens_eq = refl;
  terminals_eq = refl;
  quiet = λ h. h;
}

pub Touches-IsEffect : (i : Text) → IsEffect (Touches i)
Touches-IsEffect i = record { same = Touches-same i; chain = Touches-trans i; log = Touches-log i }

update_rows-OnlyRow :
    (i : Text) (f : MachineRecord → MachineRecord)
    → ((r : MachineRecord) → text_eq r.id i ≡ true → Kept i r (f r))
    → (rows : List MachineRecord) → OnlyRow i rows (update_rows i f rows)
unfolding update_rows
update_rows-OnlyRow i f h [] = tt
update_rows-OnlyRow i f h (r ∷ rs) = elim (Bool-cases (text_eq r.id i)) [
  | inl hit ↦ rw (hit, update_rows) (h r hit, update_rows-OnlyRow i f h rs)
  | inr miss ↦ rw (miss, update_rows) (Kept-refl i r, update_rows-OnlyRow i f h rs)
]

abbrev pub Writes : Text → (MachineRecord → MachineRecord) → Type 0
Writes i f = (r : MachineRecord) → text_eq r.id i ≡ true → Kept i r (f r)

pub update_machine-Touches :
    (i : Text) (f : MachineRecord → MachineRecord)
    → Writes i f
    → KeepsTo (Touches i) (update_machine i f)
unfolding update_machine
update_machine-Touches i f h = seq-KeepsTo e (Same-KeepsTo e statement statement-Same) (
    bind-KeepsTo e (gets-KeepsTo e (λ w. has_id i w.machines)) λ known.
      seq-KeepsTo e (fail_if-KeepsTo e (not known) not_found)
        (modify-KeepsTo e (λ w. record w { machines = update_rows i f w.machines }) wrote))
  where
    e : IsEffect (Touches i)
    e = Touches-IsEffect i

    wrote : (w : World) → Touches i w (record w { machines = update_rows i f w.machines })
    wrote w = record {
      rows = update_rows-OnlyRow i f h w.machines;
      users_eq = refl;
      snapshots_eq = refl;
      hosts_eq = refl;
      env_vars_eq = refl;
      email_codes_eq = refl;
      web_sessions_eq = refl;
      api_tokens_eq = refl;
      terminals_eq = refl;
      quiet = λ h. h;
    }

state_Writes : (i st : Text) → Writes i (λ r. record r { state = st })
state_Writes i st r h = ground arith

both_Writes : (i st : Text) (n : ℕ) → Writes i (λ r. record r { state = st; disk_usage_bytes = n })
both_Writes i st n r h = ground arith

usage_Writes : (i : Text) (n : ℕ) → Writes i (λ r. record r { disk_usage_bytes = n })
usage_Writes i n r h = ground arith

pub update_machine_state-Touches : (i st : Text) → KeepsTo (Touches i) (update_machine_state i st)
unfolding update_machine_state
update_machine_state-Touches i st = update_machine-Touches i _ (state_Writes i st)

pub update_machine_state_and_disk_usage-Touches :
    (i st : Text) (n : ℕ) → KeepsTo (Touches i) (update_machine_state_and_disk_usage i st n)
unfolding update_machine_state_and_disk_usage
update_machine_state_and_disk_usage-Touches i st n = update_machine-Touches i _ (both_Writes i st n)

pub update_machine_disk_usage-Touches :
    (i : Text) (n : ℕ) → KeepsTo (Touches i) (update_machine_disk_usage i n)
unfolding update_machine_disk_usage
update_machine_disk_usage-Touches i n = update_machine-Touches i _ (usage_Writes i n)

OnlyRow-has_id :
    (i : Text) (rows rows' : List MachineRecord)
    → OnlyRow i rows rows'
    → has_id i rows' ≡ has_id i rows
unfolding has_id
OnlyRow-has_id i [] [] h = refl
OnlyRow-has_id i [] (r' ∷ rs') h = absurd h
OnlyRow-has_id i (r ∷ rs) [] h = absurd h
OnlyRow-has_id i (r ∷ rs) (r' ∷ rs') h = rw (h.0.id_eq, OnlyRow-has_id i rs rs' h.1) refl

-- No statement will fail, and the table has the row.
pub record Ready (i : Text) (w : World) : Type 0 where
  pub no_faults : w.faults ≡ []
  pub known : has_id i w.machines ≡ true

pub Touches-Ready : (i : Text) (w w' : World) → Touches i w w' → Ready i w → Ready i w'
Touches-Ready i w w' t d = record {
  no_faults = t.quiet d.no_faults;
  known = OnlyRow-has_id i w.machines w'.machines t.rows ∙ d.known;
}
