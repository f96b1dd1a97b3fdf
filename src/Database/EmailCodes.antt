-- ===== src/Database/EmailCodes.antt =====
-- internal/database/email_codes.go. The identifier of a user, which no caller gives, is left out.
use fascinate.Base.{
  ℕ, ◌/◌, Bool, true, false, not, ◌||◌, ◌&&◌, Option, none, some, List, [], ◌∷◌, leb, if◌then◌else◌,
}
use fascinate.Base.Text.{Text, text_eq, trim_space}
use fascinate.Result.{not_found, db_failure}
use fascinate.Database.Records.{EmailCodeRecord}
use fascinate.Database.Monad.{M, or_fail, gets, modify, fail_if, statement, ◌>>=◌, ◌>>◌}
use fascinate.Database.Machines.{normalize_email}

-- A time in nanoseconds as CURRENT_TIMESTAMP and formatSQLiteTimestamp give it: in whole seconds.
abbrev pub seconds : ℕ → ℕ
seconds t = t / 1000000000

-- CreateEmailCodeParams; the time is in nanoseconds.
pub record CreateEmailCodeParams : Type 0 where
  pub email : Text
  pub purpose : Text
  pub code_hash : Text
  pub expires_at : ℕ

unfoldable pub find_id : Text → List EmailCodeRecord → Option EmailCodeRecord
find_id i [] = none
find_id i (r ∷ rs) = if text_eq r.id i then some r else find_id i rs

unfoldable pub has_id : Text → List EmailCodeRecord → Bool
has_id i [] = false
has_id i (r ∷ rs) = text_eq r.id i || has_id i rs

-- The WHERE clause of ConsumeEmailCode.
unfoldable pub consumable : ℕ → Text → Text → Text → EmailCodeRecord → Bool
consumable now email purpose code_hash r =
    text_eq r.email email
    && text_eq r.purpose purpose
    && text_eq r.code_hash code_hash
    && not r.consumed
    && leb now r.expires_at

unfoldable pub any_consumable : ℕ → Text → Text → Text → List EmailCodeRecord → Bool
any_consumable now email purpose code_hash [] = false
any_consumable now email purpose code_hash (r ∷ rs) =
    consumable now email purpose code_hash r || any_consumable now email purpose code_hash rs

unfoldable pub consume_rows : ℕ → Text → Text → Text → List EmailCodeRecord → List EmailCodeRecord
consume_rows now email purpose code_hash [] = []
consume_rows now email purpose code_hash (r ∷ rs) =
    (if consumable now email purpose code_hash r then record r { consumed = true } else r)
    ∷ consume_rows now email purpose code_hash rs

-- GetEmailCodeByID
unfoldable pub get_email_code_by_id : Text → M EmailCodeRecord
get_email_code_by_id i = do statement; or_fail (← gets (λ w. find_id i w.email_codes)) not_found

-- CreateEmailCode, at the identifier of the row. A row that has it already makes the insertion fail.
unfoldable pub create_email_code : Text → CreateEmailCodeParams → M EmailCodeRecord
create_email_code fresh params = do
  let row : EmailCodeRecord = record {
    id = fresh;
    email = normalize_email params.email;
    purpose = trim_space params.purpose;
    code_hash = trim_space params.code_hash;
    expires_at = seconds params.expires_at;
    consumed = false;
  }
  statement
  taken ← gets λ w. has_id fresh w.email_codes
  fail_if taken db_failure
  modify λ w. record w { email_codes = row ∷ w.email_codes }
  get_email_code_by_id fresh

-- ConsumeEmailCode
unfoldable pub consume_email_code : Text → Text → Text → M (Unit {0})
consume_email_code email purpose code_hash = do
  let email' = normalize_email email
  let purpose' = trim_space purpose
  let hash' = trim_space code_hash
  statement
  known ← gets λ w. any_consumable (seconds w.now) email' purpose' hash' w.email_codes
  fail_if (not known) not_found
  modify λ w. record w {
    email_codes = consume_rows (seconds w.now) email' purpose' hash' w.email_codes;
  }
