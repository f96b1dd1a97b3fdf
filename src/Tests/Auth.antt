-- ===== src/Tests/Auth.antt =====
-- The results on signing in at concrete inputs: a service with a digest that changes nothing.
use fascinate.Auth.Invariant.{serve_all-WellKeyed, serve_all, WellKeyed, Request}
use fascinate.Auth.Sessions.{logout_ends, authenticate-verify_code, authenticate_by_sound}
use fascinate.Auth.Table.{IsRow, Keyed}
use fascinate.Database.Users
use fascinate.Database.Machines.{normalize_email}
use fascinate.Database.Tokens.{
  is_active, is_active, update_where, any_row, find_active, revoke, touch, Table,
  get_active_by_hash, clashes, find_id, get_by_id, create_row, create_web_session,
}
use fascinate.Service.Users.{is_admin_email}
use fascinate.Database.Users.{find_email, get_user_by_email, upsert_row, upsert_user}
use fascinate.Auth.Codes.{verify_code_once}
use fascinate.Database.Monad.{statement}
use fascinate.Database.EmailCodes.{consume_rows, consumable, any_consumable, consume_email_code}
use fascinate.Auth.Login.{
  logout_by, logout, authenticate_by, authenticate, verify_code_for_api_token, verify_email_code,
  verify_code, Session, Draws,
}
use fascinate.Auth.{hash_token, hash_code, AuthService}
use fascinate.Base.{
  some, ℕ, ◌+◌, ◌≤◌, ◌/◌, ◌%◌, ◌≡◌, refl, arith, true, false, none, List, [], ◌∷◌, ltb,
  if◌then◌else◌,
}
use fascinate.Base.Text.{to_lower, Text, codes, trim_space, text_eq}
use fascinate.Result.{ok, is_ok}
use fascinate.Database.Records.{World, TokenRecord}
use fascinate.Tests.{owner, world}

nibble : ℕ → ℕ
nibble n = if ltb n 10 then 48 + n else 87 + n

hex : List ℕ → Text
unfolding nibble
hex [] = []
hex (b ∷ bs) = nibble (b / 16) ∷ nibble (b % 16) ∷ hex bs

abbrev auth : AuthService
auth = record {
  signup_code_ttl = 900000000000;
  web_session_ttl = 3600000000000;
  api_token_ttl = 7200000000000;
  admin_emails = [];
  sha256 = λ t. t;
  encode_hex = hex;
  sender_enabled = true;
  send_signup_code = λ address code. ok tt;
}

abbrev draws : Draws
draws = record { user_id = codes "u9"; row_id = codes "t1"; bytes = ok (10 ∷ 255 ∷ []) }

abbrev email : Text
email = codes "a@b.c"

abbrev code : Text
code = codes "1"

abbrev w_code : World
w_code = record (world []) {
  email_codes =
      record {
        id = codes "c1";
        email = email;
        purpose = codes "browser-login";
        code_hash = codes "31";
        expires_at = 900;
        consumed = false;
      }
      ∷ [];
}

abbrev session_row : TokenRecord
session_row = record {
  id = codes "t1";
  user_id = codes "u1";
  user_email = email;
  name = [];
  token_hash = codes "30616666";
  expires_at = 3600;
  last_used_at = 0;
  user_agent = none;
  ip_address = none;
  revoked = false;
}

abbrev session : Session
session = record {
  user = owner;
  record_ = session_row;
  raw_token = codes "0aff";
  expires_at = 3600000000000;
}

abbrev w_in : World
w_in = (verify_code auth draws email code [] [] w_code).1

signed_in : verify_code auth draws email code [] [] w_code ≡ (ok session, w_in)
unfolding verify_code verify_email_code consume_email_code statement any_consumable consumable
    consume_rows upsert_user upsert_row get_user_by_email find_email is_admin_email
    create_web_session create_row clashes get_by_id find_id hash_code hash_token trim_space text_eq
    to_lower normalize_email hex Users.find_id
signed_in = refl

verify_code_once_example :
    (is_ok (verify_code auth draws email code [] [] w_in).0 ≡ false)
    × (is_ok (verify_code_for_api_token auth draws email code [] [] [] w_in).0 ≡ false)
unfolding verify_code verify_email_code consume_email_code statement
verify_code_once_example =
    verify_code_once auth email code draws draws [] [] [] [] [] w_code w_in w_in session signed_in
      refl (omega arith)

-- A moment later.
abbrev w_later : World
w_later = record w_in { now = 60000000000 }

authenticate-verify_code_example :
    (authenticate auth (codes "0aff") w_later).0 ≡ ok (owner, session_row)
unfolding trim_space Users.find_id text_eq verify_code verify_email_code consume_email_code
    statement any_consumable consumable consume_rows upsert_user upsert_row get_user_by_email
    find_email is_admin_email create_web_session create_row clashes get_by_id find_id hash_code
    hash_token to_lower normalize_email hex
authenticate-verify_code_example =
    authenticate-verify_code auth draws email code [] [] w_code w_in w_later session signed_in refl
      refl refl refl refl refl refl (omega arith)

abbrev w_session : World
w_session = record (world []) { web_sessions = session_row ∷ [] }

w_session-Keyed : Keyed (session_row ∷ [])
unfolding Keyed clashes trim_space
w_session-Keyed = (refl, (refl, tt))

let_in : (authenticate auth (codes "0aff") w_session).0 ≡ ok (owner, session_row)
unfolding authenticate_by get_active_by_hash touch get_user_by_email statement find_active is_active
    any_row update_where hash_token trim_space text_eq to_lower normalize_email hex find_email
let_in = refl

authenticate_by_sound_example :
    IsRow session_row (session_row ∷ [])
    × ((session_row.token_hash ≡ trim_space (hash_token auth (trim_space (codes "0aff"))))
        × ((false ≡ false)
            × ((0 ≤ 3600) × (find_email (normalize_email email) w_session.users ≡ some owner))))
authenticate_by_sound_example =
    authenticate_by_sound auth Table.web_sessions (codes "0aff") w_session owner session_row let_in

abbrev w_out : World
w_out = (logout auth (codes "0aff") w_session).1

logged_out : logout auth (codes "0aff") w_session ≡ (ok tt, w_out)
unfolding logout_by get_active_by_hash revoke statement find_active is_active any_row update_where
    hash_token trim_space text_eq hex
logged_out = refl

logout_ends_example : is_ok (authenticate auth (codes "0aff") w_out).0 ≡ false
unfolding logout_by get_active_by_hash revoke statement
logout_ends_example =
    logout_ends auth Table.web_sessions (codes "0aff") w_session w_out w_out w_session-Keyed
      logged_out refl (omega arith)

abbrev requests : List Request
requests =
    Request.sign_in draws email code [] [] ∷ Request.log_out Table.web_sessions (codes "0aff") ∷ []

w_code-WellKeyed : WellKeyed w_code
unfolding Keyed
w_code-WellKeyed = record { web_keyed = tt; api_keyed = tt }

serve_all-WellKeyed_example : WellKeyed (serve_all auth requests w_code)
unfolding trim_space
serve_all-WellKeyed_example =
    serve_all-WellKeyed auth requests w_code (refl, (tt, tt)) w_code-WellKeyed
