-- ===== src/Power/StartScope.antt =====
-- Which rows StartMachine (internal/controlplane/machine_power.go) can change, from the lookup of the
-- machine to the answer. In between ensureUser may write the table of users.
use fascinate.Base.{Bool, ◌≡◌, refl, inl, inr, some, List, Bool-cases, not}
use fascinate.Base.Text.{Text, trim_space, is_empty}
use fascinate.Database.Records.{UserBudgetDefaults, World, MachineRecord, User}
use fascinate.Database.Monad.{statement, modify, M, ◌>>=◌, ◌>>◌, lift}
use fascinate.Database.Effect.{
  Same-KeepsTo, modify-KeepsTo, gets-KeepsTo, fail_if-KeepsTo, Same-KeepsTo, modify-KeepsTo,
  KeepsTo, IsEffect, seq-KeepsTo, bind-KeepsTo, lift-KeepsTo,
}
use fascinate.Database.Named.{id_named, Touches-id_named}
use fascinate.Database.Rows.{Touches, Touches-IsEffect}
use fascinate.Service.{Service}
use fascinate.Service.Users.{ensure_user, is_admin_email}
use fascinate.Result.{owner_required, not_found}
use fascinate.Database.Machines.{normalize_email}
use fascinate.Database.Frame.{Same-refl, statement-Same, get_user_by_email-Same}
use fascinate.Database.Users.{
  get_user_by_email, upsert_user, upsert_row, new_user, apply_user_budget_defaults, apply_defaults,
  has_id, update_rows,
}
use fascinate.Budget.Spec.{machine_spec_for_record, default_user_budget_defaults}
use fascinate.Power.Isolation.{perform_start-Touches}
use fascinate.Power.Start.{start_machine, perform_start}
use fascinate.Service.State.{ensure_machine_stopped_for_start}
use fascinate.Power.Scope.{
  LookedUp, key_of, after_lookup-LookedUp, Same-Unchanged, shown_again-AtName, Touches-AtName,
  AtName, shown_again,
}

-- The table of users aside, nothing but the row i has changed, in its state and its disk usage.
abbrev pub TouchesButUsers : Text → World → World → Type 0
TouchesButUsers i w w' = Touches i w (record w' { users = w.users })

but_users : (i : Text) (w w' : World) → Touches i w w' → TouchesButUsers i w w'
but_users i w w' t = record {
  rows = t.rows;
  users_eq = refl;
  snapshots_eq = t.snapshots_eq;
  hosts_eq = t.hosts_eq;
  env_vars_eq = t.env_vars_eq;
  email_codes_eq = t.email_codes_eq;
  web_sessions_eq = t.web_sessions_eq;
  api_tokens_eq = t.api_tokens_eq;
  terminals_eq = t.terminals_eq;
  quiet = t.quiet;
}

-- A change of the users does not matter to what follows.
with_users :
    (i : Text) (us : List User) (w w' : World)
    → Touches i w w'
    → Touches i (record w { users = us }) (record w' { users = us })
with_users i us w w' t = record {
  rows = t.rows;
  users_eq = refl;
  snapshots_eq = t.snapshots_eq;
  hosts_eq = t.hosts_eq;
  env_vars_eq = t.env_vars_eq;
  email_codes_eq = t.email_codes_eq;
  web_sessions_eq = t.web_sessions_eq;
  api_tokens_eq = t.api_tokens_eq;
  terminals_eq = t.terminals_eq;
  quiet = t.quiet;
}

AtNameButUsers : Text → Text → World → World → Type 0
AtNameButUsers n i w w' = id_named n w.machines ≡ some i → TouchesButUsers i w w'

AtNameButUsers-IsEffect : (n i : Text) → IsEffect (AtNameButUsers n i)
unfolding AtNameButUsers
AtNameButUsers-IsEffect n i = record {
  same = λ w w' h at. but_users i w w' ((Touches-IsEffect i).same w w' h);
  chain = λ u v w a b at.
      (Touches-IsEffect i).chain u (record v { users = u.users }) (record w { users = u.users })
        (a at)
        (with_users i u.users v (record w { users = v.users })
          (b (Touches-id_named i n i u (record v { users = u.users }) (a at) at)));
  log = λ w c es at. but_users i w _ ((Touches-IsEffect i).log w c es);
}

module _ (n i : Text) where
  e : IsEffect (AtNameButUsers n i)
  e = AtNameButUsers-IsEffect n i

  AtName-ButUsers : {A : Type 0} {m : M A} → KeepsTo (AtName n i) m → KeepsTo (AtNameButUsers n i) m
  unfolding AtNameButUsers
  AtName-ButUsers {m} h = record { step = λ w at. but_users i w (m w).1 (h.step w at) }

  users-ButUsers :
      (f : World → List User)
      → KeepsTo (AtNameButUsers n i) (modify (λ w. record w { users = f w }))
  unfolding AtNameButUsers
  users-ButUsers f =
      modify-KeepsTo e (λ w. record w { users = f w })
        λ w at. (Touches-IsEffect i).same w w (Same-refl w)

  statement-ButUsers : KeepsTo (AtNameButUsers n i) statement
  statement-ButUsers = Same-KeepsTo e statement statement-Same

  get_user-ButUsers : (a : Text) → KeepsTo (AtNameButUsers n i) (get_user_by_email a)
  get_user-ButUsers a = Same-KeepsTo e (get_user_by_email a) (get_user_by_email-Same a)

  upsert_user-ButUsers :
      (j a : Text) (admin : Bool) → KeepsTo (AtNameButUsers n i) (upsert_user j a admin)
  unfolding upsert_user
  upsert_user-ButUsers j a admin =
      seq-KeepsTo e (fail_if-KeepsTo e (is_empty (normalize_email a)) owner_required) (
        seq-KeepsTo e statement-ButUsers (
          seq-KeepsTo e
            (users-ButUsers (λ w. upsert_row (new_user j (normalize_email a) admin) w.users))
            (get_user-ButUsers (normalize_email a))))

  defaults-ButUsers :
      (j : Text) (d : UserBudgetDefaults)
      → KeepsTo (AtNameButUsers n i) (apply_user_budget_defaults j d)
  unfolding apply_user_budget_defaults
  defaults-ButUsers j d = seq-KeepsTo e statement-ButUsers (
      bind-KeepsTo e (gets-KeepsTo e (λ w. has_id (trim_space j) w.users)) λ known.
        seq-KeepsTo e (fail_if-KeepsTo e (not known) not_found)
          (users-ButUsers (λ w. update_rows (trim_space j) (apply_defaults d) w.users)))

  ensure_user-ButUsers :
      (s : Service) (j a : Text) → KeepsTo (AtNameButUsers n i) (ensure_user s j a)
  unfolding ensure_user
  ensure_user-ButUsers s j a =
      seq-KeepsTo e (fail_if-KeepsTo e (is_empty (normalize_email a)) owner_required) (
        bind-KeepsTo e
          (upsert_user-ButUsers j (normalize_email a)
            (is_admin_email s.admin_emails (normalize_email a)))
          λ user. bind-KeepsTo e (lift-KeepsTo e (default_user_budget_defaults s)) λ d.
            seq-KeepsTo e (defaults-ButUsers user.id d) (get_user-ButUsers (normalize_email a)))

module _ (s : Service) where
  -- StartMachine behind the lookup.
  abbrev pub rest_of_start : Text → Text → MachineRecord → M MachineRecord
  rest_of_start fresh email found =
      lift (ensure_machine_stopped_for_start found)
      >> (lift (machine_spec_for_record s found) >>= λ spec. ensure_user s fresh email >>= λ user.
          perform_start s user found spec >>= shown_again found.name)

  rest_of_start-ButUsers :
      (fresh email : Text) (r : MachineRecord)
      → KeepsTo (AtNameButUsers (trim_space r.name) r.id) (rest_of_start fresh email r)
  rest_of_start-ButUsers fresh email r =
      seq-KeepsTo at (lift-KeepsTo at (ensure_machine_stopped_for_start r)) (
        bind-KeepsTo at (lift-KeepsTo at (machine_spec_for_record s r)) λ spec.
          bind-KeepsTo at (ensure_user-ButUsers n r.id s fresh email) λ user.
            bind-KeepsTo at
              (AtName-ButUsers n r.id (
                Touches-AtName {m = perform_start s user r spec} n r.id
                  (record { step = perform_start-Touches s user r spec })))
              λ live. AtName-ButUsers n r.id (shown_again-AtName r.name r.id live))
    where
      n : Text
      n = trim_space r.name

      at : IsEffect (AtNameButUsers n r.id)
      at = AtNameButUsers-IsEffect n r.id

  -- StartMachine, whatever fails on the way, changes no table but that of the users, which ensureUser
  -- writes, and that of the machines, and there only the row that it finds by the name, if the row's
  -- owner has the given address, and of that row the state and the disk usage alone.
  pub start_machine-LookedUp :
      (fresh name email : Text) (w : World)
      → LookedUp TouchesButUsers (key_of name) email w (start_machine s fresh name email w).1
  unfolding start_machine AtNameButUsers
  start_machine-LookedUp fresh name email w = elim (Bool-cases (is_empty (normalize_email email))) [
    | inl nobody ↦ inl (rw nobody (Same-Unchanged w w (Same-refl w)))
    | inr given ↦ rw given (
        after_lookup-LookedUp TouchesButUsers name email
          (rest_of_start fresh (normalize_email email))
          (λ i u v w same t.
            (Touches-IsEffect i).chain u (record v { users = u.users })
              (record w { users = u.users }) (but_users i u v ((Touches-IsEffect i).same u v same))
              (with_users i u.users v (record w { users = v.users }) t))
          (λ r. (rest_of_start-ButUsers fresh (normalize_email email) r).step) w)
  ]
