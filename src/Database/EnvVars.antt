-- ===== src/Database/EnvVars.antt =====
-- internal/database/env_vars.go. The table is kept in the order of ListUserEnvVars, by key.
use fascinate.Base.{Bool, false, not, ◌||◌, ◌&&◌, Option, none, some, List, [], ◌∷◌, if◌then◌else◌}
use fascinate.Base.Text.{Text, text_eq, text_lt, trim_space}
use fascinate.Result.{not_found}
use fascinate.Database.Records.{EnvVarRecord}
use fascinate.Database.Monad.{M, or_fail, gets, modify, fail_if, statement, ◌>>=◌, ◌>>◌}

unfoldable pub of_user : Text → List EnvVarRecord → List EnvVarRecord
of_user u [] = []
of_user u (r ∷ rs) = let rest = of_user u rs in if text_eq r.user_id u then r ∷ rest else rest

abbrev pub is_var : Text → Text → EnvVarRecord → Bool
is_var u k r = text_eq r.user_id u && text_eq r.key k

unfoldable pub find_var : Text → Text → List EnvVarRecord → Option EnvVarRecord
find_var u k [] = none
find_var u k (r ∷ rs) = if is_var u k r then some r else find_var u k rs

unfoldable pub update_var : EnvVarRecord → List EnvVarRecord → List EnvVarRecord
update_var n [] = []
update_var n (r ∷ rs) =
    (if is_var n.user_id n.key r then record r { raw_value = n.raw_value } else r) ∷ update_var n rs

unfoldable pub insert_var : EnvVarRecord → List EnvVarRecord → List EnvVarRecord
insert_var n [] = n ∷ []
insert_var n (r ∷ rs) =
    let rest = insert_var n rs in if text_lt n.key r.key then n ∷ r ∷ rs else r ∷ rest

has_var : Text → Text → List EnvVarRecord → Bool
has_var u k [] = false
has_var u k (r ∷ rs) = is_var u k r || has_var u k rs

unfoldable pub delete_var : Text → Text → List EnvVarRecord → List EnvVarRecord
delete_var u k [] = []
delete_var u k (r ∷ rs) = let rest = delete_var u k rs in if is_var u k r then rest else r ∷ rest

-- ON CONFLICT(user_id, key) DO UPDATE SET raw_value
unfoldable pub upsert_var : EnvVarRecord → List EnvVarRecord → List EnvVarRecord
unfolding has_var
upsert_var n rs = if has_var n.user_id n.key rs then update_var n rs else insert_var n rs

-- ListUserEnvVars
unfoldable pub list_user_env_vars : Text → M (List EnvVarRecord)
list_user_env_vars user_id = do statement; gets λ w. of_user (trim_space user_id) w.env_vars

-- GetUserEnvVar
unfoldable pub get_user_env_var : Text → Text → M EnvVarRecord
get_user_env_var u k = do
  statement
  or_fail (← gets (λ w. find_var (trim_space u) (trim_space k) w.env_vars)) not_found

-- UpsertUserEnvVar
unfoldable pub upsert_user_env_var : Text → Text → Text → M EnvVarRecord
upsert_user_env_var u k v = do
  statement
  modify λ w. record w {
    env_vars =
        upsert_var (record { user_id = trim_space u; key = trim_space k; raw_value = v })
          w.env_vars;
  }
  get_user_env_var u k

-- DeleteUserEnvVar
unfoldable pub delete_user_env_var : Text → Text → M (Unit {0})
unfolding has_var
delete_user_env_var u k = do
  statement
  known ← gets λ w. has_var (trim_space u) (trim_space k) w.env_vars
  fail_if (not known) not_found
  modify λ w. record w { env_vars = delete_var (trim_space u) (trim_space k) w.env_vars }
