-- ===== src/Auth/Codes.antt =====
-- A code that signs somebody in is used up (internal/browserauth/service.go, api_tokens.go and
-- internal/database/email_codes.go).
use fascinate.Base.{
  ℕ, ◌+◌, ◌≤◌, ◌≡◌, refl, ◌∙◌, ap, Bool, true, false, List, [], ◌∷◌, arith, inl, inr,
}
use fascinate.Base.Text.{Text, trim_space}
use fascinate.Result.{Result-cases, ok, is_ok}
use fascinate.Database.Records.{World, User, EmailCodeRecord}
use fascinate.Database.Monad.{statement}
use fascinate.Database.Machines.{normalize_email}
use fascinate.Database.Users.{upsert_user, get_user_by_email}
use fascinate.Database.EmailCodes.{
  consumable, any_consumable, consume_rows, consume_email_code, seconds,
}
use fascinate.Database.Tokens.{Table, CreateTokenParams, create_row, get_by_id, create_web_session}
use fascinate.Service.Users.{is_admin_email}
use fascinate.Auth.{hash_token, AuthService, hash_code}
use fascinate.Auth.Login.{
  Draws, Session, email_purpose_browser_login, verify_email_code, verify_code,
  verify_code_for_api_token,
}

pub seconds_mono : (a b : ℕ) → a ≤ b → seconds a ≤ seconds b
seconds_mono a b h = omega arith

not_yet_later :
    (now later : ℕ) (e p h : Text) (r : EmailCodeRecord)
    → now ≤ later
    → consumable now e p h r ≡ false
    → consumable later e p h r ≡ false
unfolding consumable
not_yet_later now later e p h r le kept = ground arith

not_when_consumed :
    (later : ℕ) (e p h : Text) (r : EmailCodeRecord)
    → consumable later e p h (record r { consumed = true }) ≡ false
unfolding consumable
not_when_consumed later e p h r = ground arith

consumed_once :
    (now later : ℕ) (e p h : Text) (rows : List EmailCodeRecord)
    → now ≤ later
    → any_consumable later e p h (consume_rows now e p h rows) ≡ false
unfolding any_consumable consume_rows
consumed_once now later e p h [] le = refl
consumed_once now later e p h (r ∷ rs) le = ground (
  arith,
  not_yet_later now later e p h r le,
  not_when_consumed later e p h r,
  consumed_once now later e p h rs le,
)

upsert_user_codes :
    (i e : Text) (admin : Bool) (w : World)
    → (upsert_user i e admin w).1.email_codes ≡ w.email_codes
unfolding upsert_user get_user_by_email statement
upsert_user_codes i e admin w = ground arith

create_row_codes :
    (table : Table) (i : Text) (params : CreateTokenParams) (name : Text) (w : World)
    → (create_row table i params name w).1.email_codes ≡ w.email_codes
unfolding create_row get_by_id statement
create_row_codes Table.web_sessions i params name w = ground arith
create_row_codes Table.api_tokens i params name w = ground arith

-- No code of the address with the digest can be used at the time or later.
abbrev Spent : Text → Text → ℕ → List EmailCodeRecord → Type 0
Spent e h now rows =
    (later : ℕ)
    → now ≤ later
    → any_consumable (seconds later) e (trim_space email_purpose_browser_login) h rows ≡ false

consume-Spent :
    (e h : Text) (w v : World) (later : ℕ)
    → consume_email_code e email_purpose_browser_login h w ≡ (ok tt, v)
    → w.now ≤ later
    → any_consumable
        (seconds later)
        (normalize_email e)
        (trim_space email_purpose_browser_login)
        (trim_space h)
        v.email_codes
      ≡ false
unfolding consume_email_code statement
consume-Spent e h w v later ran le = ground (
  arith,
  consumed_once (seconds w.now) (seconds later) (normalize_email e)
      (trim_space email_purpose_browser_login) (trim_space h) w.email_codes
      (seconds_mono w.now later le),
)

refused_when_spent :
    (e h : Text) (w : World)
    → any_consumable
        (seconds w.now)
        (normalize_email e)
        (trim_space email_purpose_browser_login)
        (trim_space h)
        w.email_codes
      ≡ false
    → is_ok (consume_email_code e email_purpose_browser_login h w).0 ≡ false
unfolding consume_email_code statement
refused_when_spent e h w none_left = ground arith

module _ (s : AuthService) (email code : Text) where
  -- The code is spent.
  abbrev CodeSpent : ℕ → List EmailCodeRecord → Type 0
  CodeSpent =
      Spent (normalize_email (normalize_email email)) (trim_space (hash_code s (trim_space code)))

  verify_email_code-CodeSpent :
      (d : Draws) (w v : World) (q : User)
      → verify_email_code s d email code w ≡ (ok q, v)
      → CodeSpent w.now v.email_codes
  unfolding verify_email_code
  verify_email_code-CodeSpent d w v q ran later le = ground (
    arith,
    consume-Spent (normalize_email email) (hash_code s (trim_space code)) w w1 later,
    upsert_user_codes d.user_id (normalize_email email)
        (is_admin_email s.admin_emails (normalize_email email)) w1,
  )
    where
      w1 : World
      w1 =
          (consume_email_code (normalize_email email) email_purpose_browser_login
            (hash_code s (trim_space code)) w).1

  refused_code :
      (d : Draws) (w u : World)
      → CodeSpent w.now u.email_codes
      → w.now ≤ u.now
      → is_ok (verify_email_code s d email code u).0 ≡ false
  unfolding verify_email_code
  refused_code d w u spent le = ground (
    arith,
    refused_when_spent (normalize_email email) (hash_code s (trim_space code)) u (spent u.now le),
  )

  -- Once VerifyCode has accepted a code of an address, neither VerifyCode nor VerifyCodeForAPIToken
  -- accepts that code of that address again, at that time or later, while the table of codes has not
  -- been changed by others.
  pub verify_code_once :
      (d d' : Draws) (agent ip agent' ip' name : Text) (w v u : World) (q : Session)
      → verify_code s d email code agent ip w ≡ (ok q, v)
      → u.email_codes ≡ v.email_codes
      → w.now ≤ u.now
      → (is_ok (verify_code s d' email code agent' ip' u).0 ≡ false)
        × (is_ok (verify_code_for_api_token s d' email code name agent' ip' u).0 ≡ false)
  unfolding verify_code verify_code_for_api_token create_web_session
  verify_code_once d d' agent ip agent' ip' name w v u q ran same le =
      elim (Result-cases (verify_email_code s d email code w).0) [
        | inr (x, failed) ↦ absurd (ground arith)
        | inl (user, found) ↦ (ground (arith, again user found), ground (arith, again user found))
      ]
    where
      w1 : World
      w1 = (verify_email_code s d email code w).1

      params : User → List ℕ → CreateTokenParams
      params user bytes = record {
        id = [];
        user_id = user.id;
        name = [];
        token_hash = hash_token s (s.encode_hex bytes);
        expires_at = seconds (w1.now + s.web_session_ttl);
        user_agent = agent;
        ip_address = ip;
      }

      kept :
          (user : User)
          → (verify_email_code s d email code w).0 ≡ ok user
          → v.email_codes ≡ w1.email_codes
      kept user found = elim (Result-cases d.bytes) [
        | inr (x, none_drawn) ↦ absurd (ground arith)
        | inl (bytes, drawn) ↦
            ground (arith, create_row_codes Table.web_sessions d.row_id (params user bytes) [] w1)
      ]

      again :
          (user : User)
          → (verify_email_code s d email code w).0 ≡ ok user
          → is_ok (verify_email_code s d' email code u).0 ≡ false
      again user found =
          refused_code d' w u
            (λ later h.
              ap (any_consumable (seconds later) _ _ _) (same ∙ kept user found)
              ∙ verify_email_code-CodeSpent d w w1 user (ground arith) later h)
            le
