-- ===== src/Auth/Invariant.antt =====
-- The invariant of the tables of tokens, over every operation of internal/browserauth.
use mathlib.Core.Path.{subst}
use fascinate.Base.{
  Option, ◌+◌, ◌&&◌, ◌&&◌, not, false, false, sym, ◌≡◌, refl, Bool, List, [], ◌∷◌, All, arith,
  if◌then◌else◌, Bool-cases, inl, inr,
}
use fascinate.Base.Text.{text_eq, text_eq, Text, trim_space, is_empty}
use fascinate.Base.Text.Trim.{trim_space_idem}
use fascinate.Result.{conflict, db_failure, not_found, Result, Error, ok, err}
use fascinate.Database.Records.{World, User, TokenRecord}
use fascinate.Database.Monad.{or_fail, modify, fail_if, ◌>>=◌, ◌>>◌, gets, M, statement}
use fascinate.Database.Effect.{
  KeepsTo, IsEffect, attempt-KeepsTo, bind-KeepsTo, seq-KeepsTo, Same-KeepsTo, lift-KeepsTo,
  gets-KeepsTo, fail_if-KeepsTo, modify-KeepsTo, allow_missing-KeepsTo, if-KeepsTo,
}
use fascinate.Database.Frame.{Same, statement-Same, get_user_by_email-Same}
use fascinate.Database.Users
use fascinate.Database.Users.{upsert_user, get_user_by_email}
use fascinate.Database.EmailCodes.{
  seconds, create_email_code, get_email_code_by_id, consume_email_code,
}
use fascinate.Database.Tokens.{
  is_active, default_token_name, any_row, update_where, update_table, with_rows, Table,
  CreateTokenParams, rows_of, create_row, create_web_session, create_api_token, touch, revoke,
  get_by_id, get_active_by_hash, row_id, clashes, token_row,
}
use fascinate.Auth.{hash_token, ℕ, ℕ, AuthService}
use fascinate.Auth.Login.{
  Session, Draws, request_code, verify_email_code, verify_code, verify_code_for_api_token,
  authenticate_by, logout_by, unless_missing,
}
use fascinate.Auth.Table.{
  Keyed, KeepsKeys, update_where-Keyed, insert-Keyed, revoked_row, revoked_row-KeepsKeys,
}

-- Both tables are keyed.
pub record WellKeyed (w : World) : Type 0 where
  pub web_keyed : Keyed w.web_sessions
  pub api_keyed : Keyed w.api_tokens

-- An operation keeps them so.
abbrev Preserves : World → World → Type 0
Preserves w w' = WellKeyed w → WellKeyed w'

preserved :
    (w w' : World)
    → w'.web_sessions ≡ w.web_sessions
    → w'.api_tokens ≡ w.api_tokens
    → Preserves w w'
preserved w w' p q k = record {
  web_keyed = subst Keyed (sym p) k.web_keyed;
  api_keyed = subst Keyed (sym q) k.api_keyed;
}

e : IsEffect Preserves
e = record {
  same = λ w w' s. preserved w w' s.web_sessions_eq s.api_tokens_eq;
  chain = λ u v w f g k. g (f k);
  log = λ w c es. preserved w _ refl refl;
}

update_rows-Preserves :
    (table : Table) (p : TokenRecord → Bool) (f : TokenRecord → TokenRecord)
    → KeepsKeys f
    → (w : World) → Preserves w (with_rows table (update_where p f (rows_of table w)) w)
update_rows-Preserves Table.web_sessions p f k w h = record {
  web_keyed = update_where-Keyed p f k w.web_sessions h.web_keyed;
  api_keyed = h.api_keyed;
}
update_rows-Preserves Table.api_tokens p f k w h = record {
  web_keyed = h.web_keyed;
  api_keyed = update_where-Keyed p f k w.api_tokens h.api_keyed;
}

update_table-Preserves :
    (table : Table) (p : World → TokenRecord → Bool) (f : World → TokenRecord → TokenRecord)
    → ((w : World) → KeepsKeys (f w))
    → KeepsTo Preserves (update_table table p f)
unfolding update_table
update_table-Preserves table p f k = seq-KeepsTo e (Same-KeepsTo e statement statement-Same) (
    bind-KeepsTo e (gets-KeepsTo e (λ w. any_row (p w) (rows_of table w))) λ known.
      seq-KeepsTo e (fail_if-KeepsTo e (not known) not_found) (
        modify-KeepsTo e (λ w. with_rows table (update_where (p w) (f w) (rows_of table w)) w)
          (λ w. update_rows-Preserves table (p w) (f w) (k w) w)))

touch-Preserves : (table : Table) (i : Text) → KeepsTo Preserves (touch table i)
unfolding touch
touch-Preserves table i =
    update_table-Preserves table (λ w r. text_eq r.id (trim_space i) && is_active (seconds w.now) r)
      (λ w r. record r { last_used_at = seconds w.now })
      λ w. record { id_kept = λ r. refl; hash_kept = λ r. refl }

revoke-Preserves : (table : Table) (i : Text) → KeepsTo Preserves (revoke table i)
unfolding revoke
revoke-Preserves table i =
    update_table-Preserves table (λ w r. text_eq r.id (trim_space i) && not r.revoked)
      (λ w. revoked_row) λ w. revoked_row-KeepsKeys

insert-Preserves :
    (table : Table) (r : TokenRecord) (w : World)
    → trim_space r.id ≡ r.id
    → clashes r.id r.token_hash (rows_of table w) ≡ false
    → Preserves w (with_rows table (r ∷ rows_of table w) w)
insert-Preserves Table.web_sessions r w t c h = record {
  web_keyed = insert-Keyed r w.web_sessions t c h.web_keyed;
  api_keyed = h.api_keyed;
}
insert-Preserves Table.api_tokens r w t c h = record {
  web_keyed = h.web_keyed;
  api_keyed = insert-Keyed r w.api_tokens t c h.api_keyed;
}

-- A change that a test allows.
checked-Preserves :
    {A : Type 0} (f : World → Bool) (x : Error) (m : M A)
    → ((w : World) → f w ≡ false → Preserves w (m w).1)
    → KeepsTo Preserves (gets f >>= λ taken. fail_if taken x >> m)
checked-Preserves f x m h = record {
  step = λ w. elim (Bool-cases (f w)) [ inl no_ ↦ rw no_ (λ k. k) | inr yes_ ↦ rw yes_ (h w yes_) ];
}

row_id_trimmed :
    (fresh : Text) (params : CreateTokenParams)
    → trim_space fresh ≡ fresh
    → trim_space (row_id fresh params) ≡ row_id fresh params
row_id_trimmed fresh params t = ground (arith, t, trim_space_idem params.id)

get_by_id-Same : (table : Table) (i : Text) (w : World) → Same w (get_by_id table i w).1
unfolding get_by_id
get_by_id-Same table i w = ground (arith, statement-Same w)

create_row-Preserves :
    (table : Table) (fresh : Text) (params : CreateTokenParams) (name : Text)
    → trim_space fresh ≡ fresh
    → KeepsTo Preserves (create_row table fresh params name)
unfolding create_row
create_row-Preserves table fresh params name t =
    seq-KeepsTo e (Same-KeepsTo e statement statement-Same) (
      checked-Preserves
        (λ w. clashes (row_id fresh params) (trim_space params.token_hash) (rows_of table w))
        conflict
        (gets (λ w. Users.find_id (trim_space params.user_id) w.users) >>= λ found.
          or_fail found db_failure >>= insertion)
        λ w free. found w free (Users.find_id (trim_space params.user_id) w.users))
  where
    insertion : User → M TokenRecord
    insertion user = do
      modify λ w.
          with_rows table (token_row (row_id fresh params) params name w.now user ∷ rows_of table w)
            w
      get_by_id table (row_id fresh params)

    found :
        (w : World)
        → clashes (row_id fresh params) (trim_space params.token_hash) (rows_of table w) ≡ false
        → (o : Option User) → Preserves w ((or_fail o db_failure >>= insertion) w).1
    found w free Option.none k = k
    found w free (Option.some user) k =
        (Same-KeepsTo e (get_by_id table (row_id fresh params))
            (get_by_id-Same table (row_id fresh params))).step
          (with_rows table (row ∷ rows_of table w) w)
          (insert-Preserves table row w (row_id_trimmed fresh params t) free k)
      where
        row : TokenRecord
        row = token_row (row_id fresh params) params name w.now user

get_active-Preserves : (table : Table) (h : Text) → KeepsTo Preserves (get_active_by_hash table h)
unfolding get_active_by_hash statement
get_active-Preserves table h = record { step = λ w. preserved w _ (ground arith) (ground arith) }

module _ (s : AuthService) where
  request_code-Preserves : (d : Draws) (a : Text) → KeepsTo Preserves (request_code s d a)
  unfolding request_code create_email_code get_email_code_by_id statement
  request_code-Preserves d a = record { step = λ w. preserved w _ (ground arith) (ground arith) }

  verify_email_code-Preserves :
      (d : Draws) (a code : Text) → KeepsTo Preserves (verify_email_code s d a code)
  unfolding verify_email_code consume_email_code upsert_user get_user_by_email statement
  verify_email_code-Preserves d a code = record {
    step = λ w. preserved w _ (ground arith) (ground arith);
  }

  -- The row that a sign-in inserts.
  abbrev sign_in_params : User → List ℕ → ℕ → Text → Text → Text → CreateTokenParams
  sign_in_params user bytes expires name agent ip = record {
    id = [];
    user_id = user.id;
    name = name;
    token_hash = hash_token s (s.encode_hex bytes);
    expires_at = seconds expires;
    user_agent = agent;
    ip_address = ip;
  }

  abbrev session_of : User → TokenRecord → List ℕ → ℕ → Session
  session_of user row bytes expires = record {
    user = user;
    record_ = row;
    raw_token = s.encode_hex bytes;
    expires_at = expires;
  }

  verify_code-Preserves :
      (d : Draws) (a code agent ip : Text)
      → trim_space d.row_id ≡ d.row_id
      → KeepsTo Preserves (verify_code s d a code agent ip)
  unfolding verify_code create_web_session
  verify_code-Preserves d a code agent ip t =
      bind-KeepsTo e (verify_email_code-Preserves d a code) λ user.
        bind-KeepsTo e (lift-KeepsTo e d.bytes) λ bytes.
          bind-KeepsTo e (gets-KeepsTo e (λ w. w.now)) λ now.
            bind-KeepsTo e
              (create_row-Preserves Table.web_sessions d.row_id
                (sign_in_params user bytes (now + s.web_session_ttl) [] agent ip) [] t)
              λ row. lift-KeepsTo e (ok (session_of user row bytes (now + s.web_session_ttl)))

  verify_code_for_api_token-Preserves :
      (d : Draws) (a code name agent ip : Text)
      → trim_space d.row_id ≡ d.row_id
      → KeepsTo Preserves (verify_code_for_api_token s d a code name agent ip)
  unfolding verify_code_for_api_token create_api_token
  verify_code_for_api_token-Preserves d a code name agent ip t =
      bind-KeepsTo e (verify_email_code-Preserves d a code) λ user.
        bind-KeepsTo e (lift-KeepsTo e d.bytes) λ bytes.
          bind-KeepsTo e (gets-KeepsTo e (λ w. w.now)) λ now.
            bind-KeepsTo e
              (create_row-Preserves Table.api_tokens d.row_id
                (sign_in_params user bytes (now + s.api_token_ttl) given agent ip)
                (if is_empty (trim_space given) then default_token_name else trim_space given) t)
              λ row. lift-KeepsTo e (ok (session_of user row bytes (now + s.api_token_ttl)))
    where
      given : Text
      given = if is_empty (trim_space name) then default_token_name else trim_space name

  authenticate_by-Preserves :
      (table : Table) (raw : Text) → KeepsTo Preserves (authenticate_by s table raw)
  unfolding authenticate_by
  authenticate_by-Preserves table raw =
      seq-KeepsTo e (fail_if-KeepsTo e (is_empty (trim_space raw)) not_found) (
        bind-KeepsTo e (get_active-Preserves table (hash_token s (trim_space raw))) λ row.
          seq-KeepsTo e (allow_missing-KeepsTo e (touch-Preserves table row.id)) (
            bind-KeepsTo e
              (Same-KeepsTo e (get_user_by_email row.user_email)
                (get_user_by_email-Same row.user_email))
              λ user. lift-KeepsTo e (ok (user, row))))

  unless_missing-Preserves : (x : Error) → KeepsTo Preserves (unless_missing x)
  unless_missing-Preserves Error.not_found = lift-KeepsTo e (ok tt)
  unless_missing-Preserves x = lift-KeepsTo e (err x)

  logout_by-Preserves : (table : Table) (raw : Text) → KeepsTo Preserves (logout_by s table raw)
  unfolding logout_by
  logout_by-Preserves table raw =
      if-KeepsTo e (is_empty (trim_space raw)) (lift-KeepsTo e (ok tt))
        (attempt-KeepsTo e (get_active-Preserves table (hash_token s (trim_space raw))) after)
    where
      after :
          (q : Result TokenRecord)
          → KeepsTo Preserves (elim q as (λ _. M (Unit {0})) [
            | ok row ↦ revoke table row.id
            | err x ↦ unless_missing x
          ])
      after (ok row) = revoke-Preserves table row.id
      after (err x) = unless_missing-Preserves x

-- A request to the service.
pub data Request : Type 0 where
  ask_code : Draws → Text → Request
  sign_in : Draws → Text → Text → Text → Text → Request
  sign_in_cli : Draws → Text → Text → Text → Text → Text → Request
  use_token log_out : Table → Text → Request

-- The identifiers that it draws have no spaces around them.
abbrev pub DrawsTrimmed : Request → Type 0
DrawsTrimmed (Request.sign_in d a code agent ip) = trim_space d.row_id ≡ d.row_id
DrawsTrimmed (Request.sign_in_cli d a code name agent ip) = trim_space d.row_id ≡ d.row_id
DrawsTrimmed _ = Unit {0}

-- The world after a request, and after a sequence of them.
unfoldable pub serve : AuthService → Request → World → World
serve s (Request.ask_code d a) w = (request_code s d a w).1
serve s (Request.sign_in d a code agent ip) w = (verify_code s d a code agent ip w).1
serve s (Request.sign_in_cli d a code name agent ip) w =
    (verify_code_for_api_token s d a code name agent ip w).1
serve s (Request.use_token table raw) w = (authenticate_by s table raw w).1
serve s (Request.log_out table raw) w = (logout_by s table raw w).1

unfoldable pub serve_all : AuthService → List Request → World → World
serve_all s [] w = w
serve_all s (r ∷ rs) w = serve_all s rs (serve s r w)

serve-Preserves :
    (s : AuthService) (r : Request) (w : World) → DrawsTrimmed r → Preserves w (serve s r w)
unfolding serve
serve-Preserves s (Request.ask_code d a) w t = (request_code-Preserves s d a).step w
serve-Preserves s (Request.sign_in d a code agent ip) w t =
    (verify_code-Preserves s d a code agent ip t).step w
serve-Preserves s (Request.sign_in_cli d a code name agent ip) w t =
    (verify_code_for_api_token-Preserves s d a code name agent ip t).step w
serve-Preserves s (Request.use_token table raw) w t = (authenticate_by-Preserves s table raw).step w
serve-Preserves s (Request.log_out table raw) w t = (logout_by-Preserves s table raw).step w

-- In both tables of tokens, identifiers and digests stay unique and identifiers stay free of
-- surrounding spaces, over any sequence of requests to the service, failed ones included, if the
-- drawn identifiers have no spaces around them.
pub serve_all-WellKeyed :
    (s : AuthService) (rs : List Request) (w : World)
    → All DrawsTrimmed rs
    → WellKeyed w
    → WellKeyed (serve_all s rs w)
unfolding serve_all
serve_all-WellKeyed s [] w t k = k
serve_all-WellKeyed s (r ∷ rs) w t k =
    serve_all-WellKeyed s rs (serve s r w) t.1 (serve-Preserves s r w t.0 k)
