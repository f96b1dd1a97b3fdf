-- ===== src/Result.antt =====
-- Errors as values. `Error` has a constructor for each way in which the modelled code returns a
-- non-nil error; the message texts are left out, the values that they are made of are kept.
use fascinate.Base.{ℕ, ◌≡◌, refl, Bool, true, false, Option, none, some, ◌⊎◌, inl, inr}
use fascinate.Base.Text.{Text}

pub data Error : Type 0 where
  -- database.ErrNotFound, database.ErrConflict, and a statement that failed otherwise
  not_found conflict db_failure : Error
  -- the runtime's ErrMachineNotFound, ErrSnapshotNotFound, and any other error of a call
  machine_not_found snapshot_not_found runtime_failure : Error
  -- sizes and processor counts
  cpu_required cpu_not_numeric cpu_not_positive : Error
  size_required size_unsupported size_not_numeric size_not_positive unit_unsupported : Error
  ratio_not_numeric ratio_not_positive : Error
  -- requests
  owner_required host_required name_invalid same_name snapshot_name_required reconcile_failed :
      Error
  wrong_state : Text → Error
  host_unavailable : Text → Error
  cpu_limit memory_limit disk_limit : Error
  -- sign in
  delivery_off email_required email_and_code_required code_rejected : Error
  random_failure send_failure : Error
  -- budgets of a user
  machine_quota snapshot_quota : ℕ → Error
  user_memory user_disk : ℕ → ℕ → ℕ → Error
  -- capacity of a host
  host_inactive host_stale host_cpu host_memory host_disk host_headroom : Text → Error
  request_cpu request_memory request_disk : Text → Error
  no_host : Error
  -- shells and commands
  terminal_session_not_found terminal_session_expired terminal_token_invalid : Error
  token_required command_required cwd_required repo_root_required : Error
  files_required too_many_files wrong_count : Error
  gateway_unavailable machine_unavailable machine_not_running : Text → Error
  git_header_missing git_root_missing git_path_empty : Error
  git_count_invalid git_entry_invalid git_previous_missing : Text → Error
  -- environment variables
  env_key_required env_key_reserved env_key_pattern env_value_multiline : Error
  env_undefined env_cycle : Text → Error
  -- the fuel of the model's recursion has run out, which it is proved never to do
  env_out_of_fuel : Error

pub data Result {ℓ} (A : Type ℓ) : Type ℓ where
  ok : A → Result A
  err : Error → Result A

-- if test { return e }
abbrev pub refuse_if : Bool → Error → Result (Unit {0})
refuse_if true e = err e
refuse_if false e = ok tt

abbrev pub or_error {ℓ} : {A : Type ℓ} → Option A → Error → Result A
or_error none e = err e
or_error (some a) e = ok a

-- The error of a call whose error is replaced by another: `if err != nil { return e }`.
abbrev pub replace_error {ℓ} : {A : Type ℓ} → Result A → Error → Result A
replace_error (ok a) e = ok a
replace_error (err _) e = err e

infixl 5 ◌>>=◌ ◌>>◌
-- The rest of a chain, after a step that has to succeed.
abbrev pub ◌>>=◌ {ℓ κ} : {A : Type ℓ} → Result A → {B : Type κ} → (A → Result B) → Result B
err failure >>= rest = err failure
ok value >>= rest = rest value

abbrev pub ◌>>◌ {ℓ} : Result (Unit {0}) → {B : Type ℓ} → Result B → Result B
check >> rest = check >>= λ done. rest

abbrev pub is_ok {ℓ} : {A : Type ℓ} → Result A → Bool
is_ok (ok a) = true
is_ok (err e) = false

pub Result-cases {ℓ} :
    {A : Type ℓ} (r : Result A) → ((a : A) × (r ≡ ok a)) ⊎ ((e : Error) × (r ≡ err e))
Result-cases (ok a) = inl (a, refl)
Result-cases (err e) = inr (e, refl)
