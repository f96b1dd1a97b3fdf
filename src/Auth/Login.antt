-- ===== src/Auth/Login.antt =====
-- The operations of internal/browserauth/service.go and api_tokens.go.
use fascinate.Base.{ℕ, ◌+◌, not, ◌||◌, List, [], if◌then◌else◌}
use fascinate.Base.Text.{Text, codes, trim_space, is_empty}
use fascinate.Result.{
  Result, Error, ok, err, not_found, delivery_off, email_required, email_and_code_required,
  code_rejected, replace_error,
}
use fascinate.Database.Records.{User, TokenRecord}
use fascinate.Database.Monad.{
  M, pure, fail, lift, gets, attempt, fail_if, allow_missing, ◌>>=◌, ◌>>◌,
}
use fascinate.Database.Machines.{normalize_email}
use fascinate.Database.Users.{upsert_user, get_user_by_email}
use fascinate.Database.EmailCodes.{create_email_code, consume_email_code, seconds}
use fascinate.Database.Tokens.{
  Table, create_web_session, create_api_token, get_active_by_hash, touch, revoke,
  default_token_name,
}
use fascinate.Service.Users.{is_admin_email}
use fascinate.Auth.{AuthService, random_digits, hash_code, hash_token}

abbrev pub email_purpose_browser_login : Text
email_purpose_browser_login = codes "browser-login"

-- What the operations draw: identifiers of new rows and random bytes.
pub record Draws : Type 0 where
  pub user_id : Text
  pub row_id : Text
  pub bytes : Result (List ℕ)

-- Session and APITokenSession
pub record Session : Type 0 where
  pub user : User
  pub record_ : TokenRecord
  pub raw_token : Text
  pub expires_at : ℕ

-- A step whose error is replaced.
abbrev pub or_error_of : {A : Type 0} → M A → Error → M A
or_error_of m e = attempt m λ r. lift (replace_error r e)

-- if err == database.ErrNotFound { return nil }; return err
abbrev pub unless_missing : Error → M (Unit {0})
unless_missing Error.not_found = pure tt
unless_missing e = fail e

module _ (s : AuthService) where
  -- RequestCode
  unfoldable pub request_code : Draws → Text → M (Unit {0})
  request_code d email = do
    fail_if (not s.sender_enabled) delivery_off
    let email' = normalize_email email
    fail_if (is_empty email') email_required
    bytes ← lift d.bytes
    let code = random_digits bytes
    now ← gets λ w. w.now
    created ← create_email_code d.row_id (record {
      email = email';
      purpose = email_purpose_browser_login;
      code_hash = hash_code s code;
      expires_at = now + s.signup_code_ttl;
    })
    lift (s.send_signup_code email' code)

  -- The part that VerifyCode and VerifyCodeForAPIToken share: the code is used up, and the user is
  -- made or found.
  unfoldable pub verify_email_code : Draws → Text → Text → M User
  verify_email_code d email code = do
    let email' = normalize_email email
    let code' = trim_space code
    fail_if (is_empty email' || is_empty code') email_and_code_required
    or_error_of (consume_email_code email' email_purpose_browser_login (hash_code s code'))
        code_rejected
    upsert_user d.user_id email' (is_admin_email s.admin_emails email')

  -- VerifyCode
  unfoldable pub verify_code : Draws → Text → Text → Text → Text → M Session
  verify_code d email code user_agent ip_address = do
    user ← verify_email_code d email code
    bytes ← lift d.bytes
    let raw_token = s.encode_hex bytes
    now ← gets λ w. w.now
    let expires_at = now + s.web_session_ttl
    row ← create_web_session d.row_id (record {
      id = [];
      user_id = user.id;
      name = [];
      token_hash = hash_token s raw_token;
      expires_at = seconds expires_at;
      user_agent = user_agent;
      ip_address = ip_address;
    })
    pure (record { user = user; record_ = row; raw_token = raw_token; expires_at = expires_at })

  -- VerifyCodeForAPIToken
  unfoldable pub verify_code_for_api_token : Draws → Text → Text → Text → Text → Text → M Session
  verify_code_for_api_token d email code token_name user_agent ip_address = do
    let name = trim_space token_name
    user ← verify_email_code d email code
    bytes ← lift d.bytes
    let raw_token = s.encode_hex bytes
    now ← gets λ w. w.now
    let expires_at = now + s.api_token_ttl
    row ← create_api_token d.row_id (record {
      id = [];
      user_id = user.id;
      name = if is_empty name then default_token_name else name;
      token_hash = hash_token s raw_token;
      expires_at = seconds expires_at;
      user_agent = user_agent;
      ip_address = ip_address;
    })
    pure (record { user = user; record_ = row; raw_token = raw_token; expires_at = expires_at })

  -- What Authenticate and AuthenticateAPIToken do on their tables.
  unfoldable pub authenticate_by : Table → Text → M (User × TokenRecord)
  authenticate_by table raw_token = do
    let raw = trim_space raw_token
    fail_if (is_empty raw) not_found
    row ← get_active_by_hash table (hash_token s raw)
    allow_missing (touch table row.id)
    user ← get_user_by_email row.user_email
    pure (user, row)

  -- Authenticate and AuthenticateAPIToken
  abbrev pub authenticate : Text → M (User × TokenRecord)
  authenticate = authenticate_by Table.web_sessions

  abbrev pub authenticate_api_token : Text → M (User × TokenRecord)
  authenticate_api_token = authenticate_by Table.api_tokens

  -- What Logout and LogoutAPIToken do on their tables.
  unfoldable pub logout_by : Table → Text → M (Unit {0})
  logout_by table raw_token = do
    let raw = trim_space raw_token
    if is_empty raw
        then pure tt
        else attempt (get_active_by_hash table (hash_token s raw))
            λ q. elim q [ ok row ↦ revoke table row.id | err e ↦ unless_missing e ]

  -- Logout and LogoutAPIToken
  abbrev pub logout : Text → M (Unit {0})
  logout = logout_by Table.web_sessions

  abbrev pub logout_api_token : Text → M (Unit {0})
  logout_api_token = logout_by Table.api_tokens
