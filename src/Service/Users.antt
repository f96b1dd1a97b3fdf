-- ===== src/Service/Users.antt =====
-- ensureUser and isAdminEmail of internal/controlplane/service.go.
use fascinate.Base.{Bool, false, ◌||◌, List, [], ◌∷◌}
use fascinate.Base.Text.{Text, text_eq, is_empty}
use fascinate.Result.{owner_required}
use fascinate.Database.Records.{User}
use fascinate.Database.Monad.{M, lift, fail_if, ◌>>=◌, ◌>>◌}
use fascinate.Database.Machines.{normalize_email}
use fascinate.Database.Users.{upsert_user, apply_user_budget_defaults, get_user_by_email}
use fascinate.Service.{Service}
use fascinate.Budget.Spec.{default_user_budget_defaults}

-- isAdminEmail
unfoldable pub is_admin_email : List Text → Text → Bool
is_admin_email [] email = false
is_admin_email (c ∷ cs) email =
    text_eq (normalize_email c) (normalize_email email) || is_admin_email cs email

-- ensureUser, at the identifier that a new user would get.
unfoldable pub ensure_user : Service → Text → Text → M User
ensure_user s fresh email = do
  let email' = normalize_email email
  fail_if (is_empty email') owner_required
  user ← upsert_user fresh email' (is_admin_email s.admin_emails email')
  defaults ← lift (default_user_budget_defaults s)
  apply_user_budget_defaults user.id defaults
  get_user_by_email email'
