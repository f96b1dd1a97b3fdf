-- ===== src/Env/Vars.antt =====
-- The operations of internal/controlplane/envvars.go: the built-in variables of a machine, what is
-- sent to its guest, and SetEnvVar and DeleteEnvVar. Both end by queueing a refresh of the running
-- machines, a task of its own that is not part of them here.
use fascinate.Base.{ℕ, ◌-◌, List, [], ◌∷◌, ◌++◌, if◌then◌else◌}
use fascinate.Base.Word.{slt, word_mod}
use fascinate.Base.Text.{Text, codes, trim_space, is_empty}
use fascinate.Result.{ok, err, owner_required}
use fascinate.Size.{decimal}
use fascinate.Database.Records.{MachineRecord, EnvVarRecord, Call}
use fascinate.Database.Monad.{M, pure, lift, attempt, fail_if, ask, ◌>>=◌, ◌>>◌}
use fascinate.Database.Machines.{normalize_email}
use fascinate.Database.Users.{get_user_by_email}
use fascinate.Database.Hosts.{get_host_by_id}
use fascinate.Database.EnvVars.{list_user_env_vars, upsert_user_env_var, delete_user_env_var}
use fascinate.Service.{
  Service, Config, executor_for_host_id, machine_host_id, runtime_name_for_record,
}
use fascinate.Service.Users.{ensure_user}
use fascinate.Env.Text.{validate_env_var_key, validate_env_var_value}
use fascinate.Env.Render.{Map, set, render_effective_env}

-- strconv.Itoa
unfoldable pub itoa : ℕ → Text
itoa n = if slt n 0 then b'-' ∷ decimal (word_mod - n) else decimal n

-- machineURL
unfoldable pub machine_url : Text → Text → Text
machine_url name base_domain =
    let domain = trim_space base_domain in
    if is_empty domain then [] else codes "https://" ++ (name ++ (b'.' ∷ domain))

unfoldable pub machine_builtins : Text → Text → Text → ℕ → Text → Text → Map
machine_builtins machine_id machine_name base_domain primary_port host_id host_region =
    (codes "FASCINATE_MACHINE_NAME", trim_space machine_name)
    ∷ (codes "FASCINATE_MACHINE_ID", trim_space machine_id)
    ∷ (codes "FASCINATE_PUBLIC_URL", machine_url machine_name base_domain)
    ∷ (codes "FASCINATE_PRIMARY_PORT", itoa primary_port)
    ∷ (codes "FASCINATE_BASE_DOMAIN", trim_space base_domain)
    ∷ (codes "FASCINATE_HOST_ID", trim_space host_id)
    ∷ (codes "FASCINATE_HOST_REGION", trim_space host_region)
    ∷ []

unfoldable pub validation_builtins : Config → Map
validation_builtins c =
    (codes "FASCINATE_MACHINE_NAME", [])
    ∷ (codes "FASCINATE_MACHINE_ID", [])
    ∷ (codes "FASCINATE_PUBLIC_URL", [])
    ∷ (codes "FASCINATE_PRIMARY_PORT", [])
    ∷ (codes "FASCINATE_BASE_DOMAIN", trim_space c.base_domain)
    ∷ (codes "FASCINATE_HOST_ID", trim_space c.host_id)
    ∷ (codes "FASCINATE_HOST_REGION", trim_space c.host_region)
    ∷ []

add_vars : List EnvVarRecord → Map → Map
add_vars [] m = m
add_vars (r ∷ rs) m = add_vars rs (set (trim_space r.key) r.raw_value m)

-- rawEnvVarMap
unfoldable pub raw_env_var_map : List EnvVarRecord → Map
unfolding add_vars
raw_env_var_map records = add_vars records []

module _ (s : Service) where
  unfoldable pub region_of_host : Text → M Text
  region_of_host host_id =
      if is_empty host_id
      then pure (trim_space s.cfg.host_region)
      else attempt (get_host_by_id host_id) λ r. elim r [
        | ok host ↦ pure (trim_space host.region)
        | err _ ↦ pure (trim_space s.cfg.host_region)
      ]

  -- Service.machineBuiltins
  unfoldable pub builtins_of : MachineRecord → M Map
  builtins_of r = do
    let host_id = machine_host_id r s.local_host_id
    region ← region_of_host host_id
    pure (machine_builtins r.id r.name s.cfg.base_domain r.primary_port host_id region)

  -- renderMachineEnvMap
  unfoldable pub render_machine_env_map : MachineRecord → M Map
  render_machine_env_map r = do
    records ← list_user_env_vars r.owner_user_id
    builtins ← builtins_of r
    lift (render_effective_env builtins (raw_env_var_map records))

  -- syncManagedEnv
  unfoldable pub sync_managed_env : MachineRecord → M (Unit {0})
  sync_managed_env r = do
    executor ← lift (executor_for_host_id s (machine_host_id r s.local_host_id))
    entries ← render_machine_env_map r
    ask s.runtime.unit_reply (Call.sync_managed_env (runtime_name_for_record r))

  -- SetEnvVar, at the identifier that a new user would get.
  unfoldable pub set_env_var : Text → Text → Text → Text → M EnvVarRecord
  set_env_var fresh owner_email key value = do
    let email = normalize_email owner_email
    fail_if (is_empty email) owner_required
    user ← ensure_user s fresh email
    key' ← lift (validate_env_var_key key)
    value' ← lift (validate_env_var_value value)
    records ← list_user_env_vars user.id
    lift (
        render_effective_env (validation_builtins s.cfg)
          (set key' value' (raw_env_var_map records)))
    upsert_user_env_var user.id key' value'

  -- DeleteEnvVar
  unfoldable pub delete_env_var : Text → Text → M (Unit {0})
  delete_env_var owner_email key = do
    let email = normalize_email owner_email
    fail_if (is_empty email) owner_required
    user ← get_user_by_email email
    key' ← lift (validate_env_var_key key)
    delete_user_env_var user.id key'
