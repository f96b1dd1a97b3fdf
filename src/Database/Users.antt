-- ===== src/Database/Users.antt =====
-- internal/database/users.go.
use fascinate.Base.{Bool, true, false, not, ◌||◌, Option, none, some, List, [], ◌∷◌, if◌then◌else◌}
use fascinate.Base.Word.{sle}
use fascinate.Base.Text.{Text, text_eq, trim_space, is_empty}
use fascinate.Result.{not_found, owner_required}
use fascinate.Database.Records.{User, UserBudgetDefaults}
use fascinate.Database.Monad.{M, or_fail, gets, modify, fail_if, statement, ◌>>=◌, ◌>>◌}
use fascinate.Database.Machines.{normalize_email}

unfoldable pub find_email : Text → List User → Option User
find_email e [] = none
find_email e (u ∷ us) = if text_eq u.email e then some u else find_email e us

unfoldable pub find_id : Text → List User → Option User
find_id i [] = none
find_id i (u ∷ us) = if text_eq u.id i then some u else find_id i us

unfoldable pub has_id : Text → List User → Bool
has_id i [] = false
has_id i (u ∷ us) = text_eq u.id i || has_id i us

unfoldable pub update_rows : Text → (User → User) → List User → List User
update_rows i f [] = []
update_rows i f (u ∷ us) = (if text_eq u.id i then f u else u) ∷ update_rows i f us

-- ON CONFLICT(email) DO UPDATE SET is_admin
unfoldable pub upsert_row : User → List User → List User
upsert_row u [] = u ∷ []
upsert_row u (v ∷ vs) =
    let rest = upsert_row u vs in
    if text_eq v.email u.email then record v { is_admin = u.is_admin } ∷ vs else v ∷ rest

-- GetUserByEmail
unfoldable pub get_user_by_email : Text → M User
get_user_by_email email = do
  statement
  or_fail (← gets (λ w. find_email (normalize_email email) w.users)) not_found

-- A new row has the column defaults of migration 0010.
abbrev pub new_user : Text → Text → Bool → User
new_user i email admin = record {
  id = i;
  email = email;
  is_admin = admin;
  max_cpu = [];
  max_memory_bytes = 0;
  max_disk_bytes = 0;
  max_machine_count = 0;
  max_snapshot_count = 0;
  tutorial_completed = false;
}

-- UpsertUser, at the identifier that a new row would get.
unfoldable pub upsert_user : Text → Text → Bool → M User
upsert_user fresh email admin = do
  let email' = normalize_email email
  fail_if (is_empty email') owner_required
  statement
  modify λ w. record w { users = upsert_row (new_user fresh email' admin) w.users }
  get_user_by_email email'

pub apply_defaults : UserBudgetDefaults → User → User
apply_defaults d u = record u {
  max_cpu = if is_empty (trim_space u.max_cpu) then trim_space d.max_cpu else u.max_cpu;
  max_memory_bytes = if sle u.max_memory_bytes 0 then d.max_memory_bytes else u.max_memory_bytes;
  max_disk_bytes = if sle u.max_disk_bytes 0 then d.max_disk_bytes else u.max_disk_bytes;
  max_machine_count =
      if sle u.max_machine_count 0 then d.max_machine_count else u.max_machine_count;
  max_snapshot_count =
      if sle u.max_snapshot_count 0 then d.max_snapshot_count else u.max_snapshot_count;
}

-- ApplyUserBudgetDefaults
unfoldable pub apply_user_budget_defaults : Text → UserBudgetDefaults → M (Unit {0})
unfolding apply_defaults
apply_user_budget_defaults i d = do
  statement
  known ← gets λ w. has_id (trim_space i) w.users
  fail_if (not known) not_found
  modify λ w. record w { users = update_rows (trim_space i) (apply_defaults d) w.users }

-- MarkUserTutorialCompleted
unfoldable pub mark_user_tutorial_completed : Text → M (Unit {0})
mark_user_tutorial_completed i = do
  statement
  known ← gets λ w. has_id (trim_space i) w.users
  fail_if (not known) not_found
  modify λ w. record w {
    users = update_rows (trim_space i) (λ u. record u { tutorial_completed = true }) w.users;
  }
