-- ===== src/Database/Tokens.antt =====
-- internal/database/web_sessions.go and api_tokens.go, whose statements are the same on two tables.
use fascinate.Base.{
  ℕ, Bool, true, false, not, ◌||◌, ◌&&◌, Option, none, some, List, [], ◌∷◌, leb, if◌then◌else◌,
}
use fascinate.Base.Text.{Text, codes, text_eq, trim_space, is_empty}
use fascinate.Result.{not_found, conflict, db_failure}
use fascinate.Database.Records.{World, TokenRecord, User}
use fascinate.Database.Monad.{M, or_fail, gets, modify, fail_if, statement, ◌>>=◌, ◌>>◌}
use fascinate.Database.Users
use fascinate.Database.EmailCodes.{seconds}

-- Which of the two tables.
pub data Table : Type 0 where
  web_sessions api_tokens : Table

abbrev pub rows_of : Table → World → List TokenRecord
rows_of Table.web_sessions w = w.web_sessions
rows_of Table.api_tokens w = w.api_tokens

abbrev pub with_rows : Table → List TokenRecord → World → World
with_rows Table.web_sessions rows w = record w { web_sessions = rows }
with_rows Table.api_tokens rows w = record w { api_tokens = rows }

-- CreateWebSessionParams and CreateAPITokenParams; the name is an API token's, and the time is in
-- seconds.
pub record CreateTokenParams : Type 0 where
  pub id : Text
  pub user_id : Text
  pub name : Text
  pub token_hash : Text
  pub expires_at : ℕ
  pub user_agent : Text
  pub ip_address : Text

abbrev pub default_token_name : Text
default_token_name = codes "fascinate-cli"

unfoldable pub find_id : Text → List TokenRecord → Option TokenRecord
find_id i [] = none
find_id i (r ∷ rs) = if text_eq r.id i then some r else find_id i rs

-- PRIMARY KEY (id) and UNIQUE (token_hash).
unfoldable pub clash : Text → Text → TokenRecord → Bool
clash i h r = text_eq r.id i || text_eq r.token_hash h

unfoldable pub clashes : Text → Text → List TokenRecord → Bool
clashes i h [] = false
clashes i h (r ∷ rs) = clash i h r || clashes i h rs

-- revoked_at IS NULL AND expires_at >= CURRENT_TIMESTAMP
unfoldable pub is_active : ℕ → TokenRecord → Bool
is_active now r = not r.revoked && leb now r.expires_at

unfoldable pub find_active : ℕ → Text → List TokenRecord → Option TokenRecord
find_active now h [] = none
find_active now h (r ∷ rs) =
    if text_eq r.token_hash h && is_active now r then some r else find_active now h rs

-- UPDATE … WHERE: whether a row is affected, and the rows after it.
unfoldable pub any_row : (TokenRecord → Bool) → List TokenRecord → Bool
any_row p [] = false
any_row p (r ∷ rs) = p r || any_row p rs

unfoldable pub update_where :
    (TokenRecord → Bool) → (TokenRecord → TokenRecord) → List TokenRecord → List TokenRecord
update_where p f [] = []
update_where p f (r ∷ rs) = (if p r then f r else r) ∷ update_where p f rs

-- NULL for a text of spaces only.
abbrev pub nullable : Text → Option Text
nullable t = if is_empty (trim_space t) then none else some (trim_space t)

-- The row that is inserted for a user.
abbrev pub token_row : Text → CreateTokenParams → Text → ℕ → User → TokenRecord
token_row i params name now user = record {
  id = i;
  user_id = user.id;
  user_email = user.email;
  name = name;
  token_hash = trim_space params.token_hash;
  expires_at = params.expires_at;
  last_used_at = seconds now;
  user_agent = nullable params.user_agent;
  ip_address = nullable params.ip_address;
  revoked = false;
}

abbrev pub row_id : Text → CreateTokenParams → Text
row_id fresh params = if is_empty (trim_space params.id) then fresh else trim_space params.id

module _ (table : Table) where
  unfoldable pub get_by_id : Text → M TokenRecord
  get_by_id i = do
    statement
    or_fail (← gets (λ w. find_id (trim_space i) (rows_of table w))) not_found

  unfoldable pub get_active_by_hash : Text → M TokenRecord
  get_active_by_hash h = do
    statement
    or_fail (← gets (λ w. find_active (seconds w.now) (trim_space h) (rows_of table w))) not_found

  unfoldable pub update_table :
      (World → TokenRecord → Bool) → (World → TokenRecord → TokenRecord) → M (Unit {0})
  update_table p f = do
    statement
    known ← gets λ w. any_row (p w) (rows_of table w)
    fail_if (not known) not_found
    modify λ w. with_rows table (update_where (p w) (f w) (rows_of table w)) w

  unfoldable pub touch : Text → M (Unit {0})
  unfolding update_table
  touch i =
      update_table (λ w r. text_eq r.id (trim_space i) && is_active (seconds w.now) r)
        λ w r. record r { last_used_at = seconds w.now }

  unfoldable pub revoke : Text → M (Unit {0})
  unfolding update_table
  revoke i =
      update_table (λ w r. text_eq r.id (trim_space i) && not r.revoked)
        λ w r. record r { revoked = true }

  -- The insertion, at the identifier that a row with none would get. The user has to be there.
  unfoldable pub create_row : Text → CreateTokenParams → Text → M TokenRecord
  create_row fresh params name = do
    let i = row_id fresh params
    statement
    taken ← gets λ w. clashes i (trim_space params.token_hash) (rows_of table w)
    fail_if taken conflict
    found ← gets λ w. Users.find_id (trim_space params.user_id) w.users
    user ← or_fail found db_failure
    modify λ w. with_rows table (token_row i params name w.now user ∷ rows_of table w) w
    get_by_id i

-- CreateWebSession
unfoldable pub create_web_session : Text → CreateTokenParams → M TokenRecord
create_web_session fresh params = create_row Table.web_sessions fresh params []

-- CreateAPIToken
unfoldable pub create_api_token : Text → CreateTokenParams → M TokenRecord
create_api_token fresh params =
    create_row Table.api_tokens fresh params
      (if is_empty (trim_space params.name) then default_token_name else trim_space params.name)

-- GetWebSessionByID and GetAPITokenByID
abbrev pub get_web_session_by_id : Text → M TokenRecord
get_web_session_by_id = get_by_id Table.web_sessions

abbrev pub get_api_token_by_id : Text → M TokenRecord
get_api_token_by_id = get_by_id Table.api_tokens

-- GetActiveWebSessionByTokenHash and GetActiveAPITokenByTokenHash
abbrev pub get_active_web_session_by_token_hash : Text → M TokenRecord
get_active_web_session_by_token_hash = get_active_by_hash Table.web_sessions

abbrev pub get_active_api_token_by_token_hash : Text → M TokenRecord
get_active_api_token_by_token_hash = get_active_by_hash Table.api_tokens

-- TouchWebSession and TouchAPIToken
abbrev pub touch_web_session : Text → M (Unit {0})
touch_web_session = touch Table.web_sessions

abbrev pub touch_api_token : Text → M (Unit {0})
touch_api_token = touch Table.api_tokens

-- RevokeWebSession and RevokeAPIToken
abbrev pub revoke_web_session : Text → M (Unit {0})
revoke_web_session = revoke Table.web_sessions

abbrev pub revoke_api_token : Text → M (Unit {0})
revoke_api_token = revoke Table.api_tokens
