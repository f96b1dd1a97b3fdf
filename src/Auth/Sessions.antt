-- ===== src/Auth/Sessions.antt =====
-- Who is let in: Authenticate, Logout and VerifyCode of internal/browserauth, on the web sessions and
-- on the API tokens.
use fascinate.Base.{
  ℕ, ◌+◌, ◌≤◌, ◌≡◌, refl, ◌∙◌, ap, sym, Bool, false, none, some, List, [], ◌∷◌, arith, Bool-cases,
  inl, inr,
}
use fascinate.Base.Text.{Text, trim_space, text_eq, is_empty, eq_of_text_eq, text_eq_refl}
use fascinate.Base.Text.Trim.{lower_trim_idem}
use fascinate.Result.{Error, Result-cases, ok, err, is_ok, not_found}
use fascinate.Database.Records.{World, User, TokenRecord}
use fascinate.Database.Monad.{statement, allow_missing}
use fascinate.Database.Machines.{normalize_email}
use fascinate.Database.Users.{find_email, get_user_by_email, upsert_user}
use fascinate.Database.EmailCodes.{seconds, consume_email_code}
use fascinate.Database.Tokens.{
  token_row, Table, CreateTokenParams, rows_of, find_id, find_active, update_where, create_row,
  create_web_session, touch, revoke, get_by_id, get_active_by_hash,
}
use fascinate.Database.Users
use fascinate.Service.Users.{is_admin_email}
use fascinate.Auth.Codes.{seconds_mono}
use fascinate.Auth.{hash_code, AuthService, hash_token}
use fascinate.Auth.Login.{
  email_purpose_browser_login, unless_missing, Draws, Session, authenticate_by, logout_by,
  verify_email_code, verify_code, authenticate,
}
use fascinate.Auth.Table.{
  find_active-IsRow, IsRow, find_active_head, find_active_trimmed, Keyed, find_active_sound,
  find_active_later, find_active-revoked, revoke_at, revoked_row,
}

find_email_sound : (e : Text) (us : List User) (u : User) → find_email e us ≡ some u → u.email ≡ e
unfolding find_email
find_email_sound e [] u h = absurd (ground arith)
find_email_sound e (v ∷ vs) u h = elim (Bool-cases (text_eq v.email e)) [
  | inl same ↦ eq_of_text_eq _ e (ground arith)
  | inr other ↦ find_email_sound e vs u (ground arith)
]

get_user_by_email_sound :
    (e : Text) (w : World) (u : User)
    → (get_user_by_email e w).0 ≡ ok u
    → (u.email ≡ normalize_email e) × (find_email (normalize_email e) w.users ≡ some u)
unfolding get_user_by_email statement
get_user_by_email_sound e w u h =
    let found : find_email (normalize_email e) w.users ≡ some u = ground arith in
    (find_email_sound (normalize_email e) w.users u found, found)

normalize_email_idem : (e : Text) → normalize_email (normalize_email e) ≡ normalize_email e
unfolding normalize_email
normalize_email_idem e = lower_trim_idem e

-- The user that is made or found is found again by the address in its row.
upsert_user_sound :
    (i e : Text) (admin : Bool) (w v : World) (u : User)
    → upsert_user i e admin w ≡ (ok u, v)
    → find_email (normalize_email u.email) v.users ≡ some u
unfolding upsert_user get_user_by_email statement
upsert_user_sound i e admin w v u h =
    let found : find_email (normalize_email (normalize_email e)) v.users ≡ some u = ground arith in
    let same : u.email ≡ normalize_email (normalize_email e) =
      find_email_sound (normalize_email (normalize_email e)) v.users u found in
    ap (λ t. find_email t v.users)
      (ap normalize_email same ∙ normalize_email_idem (normalize_email e))
    ∙ found

upsert_user_now : (i e : Text) (admin : Bool) (w : World) → (upsert_user i e admin w).1.now ≡ w.now
unfolding upsert_user get_user_by_email statement
upsert_user_now i e admin w = ground arith

consume_now : (e p h : Text) (w : World) → (consume_email_code e p h w).1.now ≡ w.now
unfolding consume_email_code statement
consume_now e p h w = ground arith

-- The row of a web session that was created.
create_web_session_row :
    (i : Text) (params : CreateTokenParams) (w v : World) (user : User) (r : TokenRecord)
    → create_web_session i params w ≡ (ok r, v)
    → params.id ≡ []
    → trim_space i ≡ i
    → Users.find_id (trim_space params.user_id) v.users ≡ some user
    → (r ≡ token_row i params [] w.now user)
      × ((v.web_sessions ≡ r ∷ w.web_sessions) × (v.users ≡ w.users))
unfolding create_web_session create_row get_by_id statement find_id trim_space
create_web_session_row i params w v user r h none_given t key = ground (arith, text_eq_refl i)

get_active_by_hash_sound :
    (table : Table) (h : Text) (w : World) (r : TokenRecord)
    → (get_active_by_hash table h w).0 ≡ ok r
    → find_active (seconds w.now) (trim_space h) (rows_of table w) ≡ some r
unfolding get_active_by_hash statement
get_active_by_hash_sound Table.web_sessions h w r e = ground arith
get_active_by_hash_sound Table.api_tokens h w r e = ground arith

get_active_by_hash_missing :
    (table : Table) (h : Text) (w : World)
    → (get_active_by_hash table h w).0 ≡ err not_found
    → find_active (seconds w.now) (trim_space h) (rows_of table w) ≡ none
unfolding get_active_by_hash statement
get_active_by_hash_missing Table.web_sessions h w e = ground arith
get_active_by_hash_missing Table.api_tokens h w e = ground arith

get_active_by_hash_refused :
    (table : Table) (h : Text) (w : World)
    → find_active (seconds w.now) (trim_space h) (rows_of table w) ≡ none
    → is_ok (get_active_by_hash table h w).0 ≡ false
unfolding get_active_by_hash statement
get_active_by_hash_refused Table.web_sessions h w e = ground arith
get_active_by_hash_refused Table.api_tokens h w e = ground arith

get_active_by_hash_rows :
    (table : Table) (h : Text) (w : World)
    → rows_of table (get_active_by_hash table h w).1 ≡ rows_of table w
unfolding get_active_by_hash statement
get_active_by_hash_rows Table.web_sessions h w = ground arith
get_active_by_hash_rows Table.api_tokens h w = ground arith

get_active_by_hash_users :
    (table : Table) (h : Text) (w : World) → (get_active_by_hash table h w).1.users ≡ w.users
unfolding get_active_by_hash statement
get_active_by_hash_users Table.web_sessions h w = ground arith
get_active_by_hash_users Table.api_tokens h w = ground arith

touch_users :
    (table : Table) (i : Text) (w : World) → (allow_missing (touch table i) w).1.users ≡ w.users
unfolding touch statement
touch_users Table.web_sessions i w = ground arith
touch_users Table.api_tokens i w = ground arith

revoke_rows :
    (table : Table) (i : Text) (w v : World)
    → revoke table i w ≡ (ok tt, v)
    → rows_of table v ≡ update_where (revoke_at (trim_space i)) revoked_row (rows_of table w)
unfolding revoke statement
revoke_rows Table.web_sessions i w v e = ground arith
revoke_rows Table.api_tokens i w v e = ground arith

unless_missing_ok :
    (x : Error) (w v : World) → unless_missing x w ≡ (ok tt, v) → (x ≡ not_found) × (w ≡ v)
unless_missing_ok Error.not_found w v h = (refl, ground (arith, h))
unless_missing_ok x w v h = absurd (ground (arith, h))

module _ (s : AuthService) where
  -- Whom Authenticate (or AuthenticateAPIToken) lets in has shown the token of a row of the table of
  -- web sessions (or of API tokens) that is neither revoked nor expired, and is the user that the
  -- table of users holds under the normalised address of that row.
  pub authenticate_by_sound :
      (table : Table) (raw : Text) (w : World) (u : User) (r : TokenRecord)
      → (authenticate_by s table raw w).0 ≡ ok (u, r)
      → (IsRow r (rows_of table w))
        × ((r.token_hash ≡ trim_space (hash_token s (trim_space raw)))
            × ((r.revoked ≡ false)
                × ((seconds w.now ≤ r.expires_at)
                    × (find_email (normalize_email r.user_email) w.users ≡ some u))))
  unfolding authenticate_by
  authenticate_by_sound table raw w u r h =
      elim (Result-cases (get_active_by_hash table (hash_token s (trim_space raw)) w).0) [
        | inr (x, refused) ↦ absurd (ground arith)
        | inl (q, found) ↦ found_one q found
      ]
    where
      w1 : World
      w1 = (get_active_by_hash table (hash_token s (trim_space raw)) w).1

      users_kept : (q : TokenRecord) → (allow_missing (touch table q.id) w1).1.users ≡ w.users
      users_kept q =
          touch_users table q.id w1
          ∙ get_active_by_hash_users table (hash_token s (trim_space raw)) w

      found_one :
          (q : TokenRecord)
          → (get_active_by_hash table (hash_token s (trim_space raw)) w).0 ≡ ok q
          → (IsRow r (rows_of table w))
            × ((r.token_hash ≡ trim_space (hash_token s (trim_space raw)))
                × ((r.revoked ≡ false)
                    × ((seconds w.now ≤ r.expires_at)
                        × (find_email (normalize_email r.user_email) w.users ≡ some u))))
      found_one q found =
          let same : q ≡ r = ground arith in
          let (h1, (h2, h3)) =
            find_active_sound (seconds w.now) (trim_space (hash_token s (trim_space raw)))
              (rows_of table w) q
              (get_active_by_hash_sound table (hash_token s (trim_space raw)) w q found) in
          let user =
            get_user_by_email_sound q.user_email (allow_missing (touch table q.id) w1).1 u
              (ground arith) in
          rw (← same) (
            find_active-IsRow (seconds w.now) (trim_space (hash_token s (trim_space raw)))
                (rows_of table w) q
                (get_active_by_hash_sound table (hash_token s (trim_space raw)) w q found),
            (
              h1,
              (
                h2,
                (h3, ap (find_email (normalize_email q.user_email)) (sym (users_kept q)) ∙ user.1),
              ),
            ),
          )

  authenticate_by_refused :
      (table : Table) (raw : Text) (u : World)
      → find_active (seconds u.now) (trim_space (hash_token s (trim_space raw))) (rows_of table u)
        ≡ none
      → is_ok (authenticate_by s table raw u).0 ≡ false
  unfolding authenticate_by
  authenticate_by_refused table raw u absent =
      ground (arith, get_active_by_hash_refused table (hash_token s (trim_space raw)) u absent)

  -- After a logout that succeeds on a keyed table, the same token is not let in again, at that
  -- time or later.
  pub logout_ends :
      (table : Table) (raw : Text) (w v u : World)
      → Keyed (rows_of table w)
      → logout_by s table raw w ≡ (ok tt, v)
      → rows_of table u ≡ rows_of table v
      → w.now ≤ u.now
      → is_ok (authenticate_by s table raw u).0 ≡ false
  unfolding logout_by authenticate_by
  logout_ends table raw w v u k out same le = elim (Bool-cases (is_empty (trim_space raw))) [
    | inl none_given ↦ ground arith
    | inr given ↦
        authenticate_by_refused table raw u
          (elim (Result-cases (get_active_by_hash table (hash_token s (trim_space raw)) w).0) [
            | inl (r, found) ↦ ended given r found
            | inr (x, refused) ↦ absent given x refused
          ])
  ]
    where
      h : Text
      h = hash_token s (trim_space raw)

      w1 : World
      w1 = (get_active_by_hash table h w).1

      Absent : Type 0
      Absent = find_active (seconds u.now) (trim_space h) (rows_of table u) ≡ none

      ended :
          is_empty (trim_space raw) ≡ false
          → (r : TokenRecord) → (get_active_by_hash table h w).0 ≡ ok r
          → Absent
      ended given r found =
          ap (find_active (seconds u.now) (trim_space h)) rows
          ∙ find_active-revoked (seconds w.now) (seconds u.now) (trim_space h) (rows_of table w) r k
              row
        where
          row : find_active (seconds w.now) (trim_space h) (rows_of table w) ≡ some r
          row = get_active_by_hash_sound table h w r found

          rows : rows_of table u ≡ update_where (revoke_at r.id) revoked_row (rows_of table w)
          rows =
              same
              ∙ (revoke_rows table r.id w1 v (ground arith)
                  ∙ (ap (update_where (revoke_at (trim_space r.id)) revoked_row)
                        (get_active_by_hash_rows table h w)
                      ∙ ap (λ i. update_where (revoke_at i) revoked_row (rows_of table w))
                          (find_active_trimmed (seconds w.now) (trim_space h) (rows_of table w) r k
                            row)))

      absent :
          is_empty (trim_space raw) ≡ false
          → (x : Error) → (get_active_by_hash table h w).0 ≡ err x
          → Absent
      absent given x refused =
          let (missing, kept) = unless_missing_ok x w1 v (ground arith) in
          ap (find_active (seconds u.now) (trim_space h))
            (same ∙ (ap (rows_of table) (sym kept) ∙ get_active_by_hash_rows table h w))
          ∙ find_active_later (seconds w.now) (seconds u.now) (trim_space h) (rows_of table w)
              (seconds_mono w.now u.now le)
              (get_active_by_hash_missing table h w (refused ∙ ap err missing))

  verify_email_code_user :
      (d : Draws) (email code : Text) (w v : World) (user : User)
      → verify_email_code s d email code w ≡ (ok user, v)
      → (find_email (normalize_email user.email) v.users ≡ some user) × (v.now ≡ w.now)
  unfolding verify_email_code
  verify_email_code_user d email code w v user h = ground (
    arith,
    upsert_user_sound d.user_id e (is_admin_email s.admin_emails e) w1 v user,
    upsert_user_now d.user_id e (is_admin_email s.admin_emails e) w1,
    consume_now e email_purpose_browser_login (hash_code s (trim_space code)) w,
  )
    where
      e : Text
      e = normalize_email email

      w1 : World
      w1 = (consume_email_code e email_purpose_browser_login (hash_code s (trim_space code)) w).1

  -- Who holds the token of an active row is let in.
  authenticate_run :
      (raw : Text) (u : World) (r : TokenRecord) (user : User)
      → u.faults ≡ []
      → is_empty (trim_space raw) ≡ false
      → find_active (seconds u.now) (trim_space (hash_token s (trim_space raw))) u.web_sessions
        ≡ some r
      → find_email (normalize_email r.user_email) u.users ≡ some user
      → (authenticate s raw u).0 ≡ ok (user, r)
  unfolding authenticate_by get_active_by_hash touch get_user_by_email statement
  authenticate_run raw u r user quiet given row by_email = ground arith

  -- The token that VerifyCode hands out is let in, with the user and the row that it was handed
  -- out with, until it expires, while neither the users nor the sessions have changed and the
  -- database does not fail; the drawn identifier and the token have no spaces around them, the
  -- token is not empty, and the identifier of the user finds that user.
  pub authenticate-verify_code :
      (d : Draws) (email code agent ip : Text) (w v u : World) (q : Session)
      → verify_code s d email code agent ip w ≡ (ok q, v)
      → trim_space d.row_id ≡ d.row_id
      → trim_space q.raw_token ≡ q.raw_token
      → is_empty q.raw_token ≡ false
      → Users.find_id (trim_space q.user.id) v.users ≡ some q.user
      → u.users ≡ v.users
      → u.web_sessions ≡ v.web_sessions
      → u.faults ≡ []
      → seconds u.now ≤ seconds (w.now + s.web_session_ttl)
      → (authenticate s q.raw_token u).0 ≡ ok (q.user, q.record_)
  unfolding verify_code authenticate_by
  authenticate-verify_code d email code agent ip w v u q ran i t n key us ws quiet le =
      elim (Result-cases (verify_email_code s d email code w).0) [
        | inr (x, refused) ↦ absurd (ground arith)
        | inl (user, made) ↦ elim (Result-cases d.bytes) [
          | inr (x, none_drawn) ↦ absurd (ground arith)
          | inl (bytes, drawn) ↦ let_in user made bytes drawn
        ]
      ]
    where
      w1 : World
      w1 = (verify_email_code s d email code w).1

      params : List ℕ → CreateTokenParams
      params bytes = record {
        id = [];
        user_id = q.user.id;
        name = [];
        token_hash = hash_token s (s.encode_hex bytes);
        expires_at = seconds (w1.now + s.web_session_ttl);
        user_agent = agent;
        ip_address = ip;
      }

      let_in :
          (user : User)
          → (verify_email_code s d email code w).0 ≡ ok user
          → (bytes : List ℕ) → d.bytes ≡ ok bytes
          → (authenticate s q.raw_token u).0 ≡ ok (q.user, q.record_)
      let_in user made bytes drawn =
          let same : user ≡ q.user = ground arith in
          let (by_email, now_same) =
            verify_email_code_user d email code w w1 q.user (ground arith) in
          let (row, (rows, users)) =
            create_web_session_row d.row_id (params bytes) w1 v q.user q.record_ (ground arith) refl
              i key in
          authenticate_run q.raw_token u q.record_ q.user quiet (ground arith)
            (ap (find_active (seconds u.now) (trim_space (hash_token s (trim_space q.raw_token))))
                (ws ∙ rows)
              ∙ find_active_head (seconds u.now) _ q.record_ w1.web_sessions
                  (ap (λ r. r.token_hash) row
                    ∙ ap (λ raw. trim_space (hash_token s raw)) (raw_is ∙ sym t))
                  (ap (λ r. r.revoked) row) (in_time (ap (λ r. r.expires_at) row) now_same))
            (ap (λ e. find_email (normalize_email e) u.users) (ap (λ r. r.user_email) row)
              ∙ (ap (find_email (normalize_email q.user.email)) (us ∙ users) ∙ by_email))
        where
          raw_is : s.encode_hex bytes ≡ q.raw_token
          raw_is = ground arith

          in_time :
              q.record_.expires_at ≡ seconds (w1.now + s.web_session_ttl)
              → w1.now ≡ w.now
              → seconds u.now ≤ q.record_.expires_at
          in_time e same_now = rw (e, same_now) le
