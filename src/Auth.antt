-- ===== src/Auth.antt =====
-- internal/browserauth: signing in by a code sent to an address, web sessions and API tokens.
pub mod Login
pub mod Codes
pub mod Table
pub mod Sessions
pub mod Invariant
use fascinate.Base.{ℕ, ◌+◌, ◌%◌, Bool, List, [], ◌∷◌, map}
use fascinate.Base.Text.{Text, trim_space}
use fascinate.Result.{Result}

-- browserauth.Service and the fields of its configuration. The times to live are in nanoseconds, and
-- not negative. The digest, the hexadecimal text of bytes and the sender of letters are packages
-- outside the repository.
pub record AuthService : Type 0 where
  pub signup_code_ttl : ℕ
  pub web_session_ttl : ℕ
  pub api_token_ttl : ℕ
  pub admin_emails : List Text
  pub sha256 : Text → List ℕ
  pub encode_hex : List ℕ → Text
  pub sender_enabled : Bool
  pub send_signup_code : Text → Text → Result (Unit {0})

-- randomDigits, of the bytes that were drawn
unfoldable pub random_digits : List ℕ → Text
random_digits bytes = map (λ value. b'0' + value % 10) bytes

module _ (s : AuthService) where
  -- hashCode and hashToken
  unfoldable pub hash_code : Text → Text
  hash_code code = s.encode_hex (s.sha256 (trim_space code))

  unfoldable pub hash_token : Text → Text
  hash_token token = s.encode_hex (s.sha256 (trim_space token))
