-- ===== src/Terminal/Sessions.antt =====
-- Opening a shell by a token: CreateAttachment, startAttachment and StreamSession of
-- internal/browserterm/manager.go.
use fascinate.Base.{ℕ, zero, suc, ◌+◌, not, Option, none, some, List, [], ◌∷◌, ◌++◌, if◌then◌else◌}
use fascinate.Base.Word.{sle}
use fascinate.Base.Text.{Text, codes, text_eq, trim_space, is_empty}
use fascinate.Result.{
  Result, ok, err, terminal_session_not_found, terminal_session_expired, terminal_token_invalid,
  token_required,
}
use fascinate.Database.Records.{ShellRecord, Attachment, EventKind}
use fascinate.Database.Monad.{M, pure, fail, lift, gets, attempt, fail_if, ◌>>=◌, ◌>>◌}
use fascinate.Database.Shells.{get_shell_by_id}
use fascinate.Terminal.{GuestMachine, TerminalService, token_digest}
use fascinate.Terminal.Attachments.{
  find_attachment, remove_attachment, put_attachment, is_expired, on_terminals,
  prune_expired_attachments, register_shell_connection, unregister_shell_connection,
}
use fascinate.Terminal.Shells.{
  load_shell, create_shell, next_expiry, shell_missing, SessionInit, resolve_shell_machine,
  touch_shell, mark_connected, mark_detached, mark_attach_failed, shell_event, record_host_id,
  first_non_empty,
}

-- startAttachment, under the lock, once the shell is read
unfoldable pub open_attachment : Text → ShellRecord → Option Attachment → M Attachment
open_attachment h r none = fail terminal_session_not_found
open_attachment h r (some a) = do
  now ← gets λ w. w.now
  if not (text_eq a.shell_id r.id)
      then (do
        on_terminals λ t. record t { total_attach_failures = t.total_attach_failures + 1 }
        fail terminal_token_invalid)
      else if is_expired now a
      then (do
        on_terminals λ t. record t {
          attachments = remove_attachment h t.attachments;
          total_attach_failures = t.total_attach_failures + 1;
        }
        fail terminal_session_expired)
      else (do
        on_terminals λ t. record t { attachments = remove_attachment h t.attachments }
        pure (record a { attached_at = some now }))

-- The query by which startAttachment reads the shell.
unfoldable pub read_shell : Text → M ShellRecord
read_shell i =
    attempt (get_shell_by_id i)
      λ q. elim q [ err e ↦ fail (shell_missing e) | ok found ↦ pure found ]

module _ (s : TerminalService) where
  -- The attachment of a token to a shell, at a given time
  unfoldable pub new_attachment : Text → ShellRecord → ℕ → ℕ → ℕ → Attachment
  new_attachment token r cols rows now = record {
    shell_id = r.id;
    token_hash = token_digest s token;
    host_id = first_non_empty (record_host_id r ∷ s.local_host_id ∷ []);
    cols = if sle cols 0 then 120 else cols;
    rows = if sle rows 0 then 40 else rows;
    expires_at = next_expiry s now;
    attached_at = none;
  }

  -- CreateAttachment, once the shell is loaded and its machine is there
  unfoldable pub attach : Text → ShellRecord → GuestMachine → ℕ → ℕ → M SessionInit
  attach token r machine cols rows = do
    now ← gets λ w. w.now
    on_terminals λ t. record t {
      attachments = put_attachment (new_attachment token r cols rows now) t.attachments;
    }
    touch_shell r.id
    shell_event r EventKind.shell_attached
    pure (record {
      id = r.id;
      host_id = first_non_empty (record_host_id r ∷ machine.host_id ∷ s.local_host_id ∷ []);
      machine_name = machine.name;
      attach_url = codes "/v1/terminal/sessions/" ++ r.id ++ codes "/stream?token=" ++ token;
      expires_at = next_expiry s now;
    })

  -- CreateAttachment from the machine on
  unfoldable pub attach_loaded : Result (List ℕ) → ℕ → ℕ → ShellRecord → M SessionInit
  attach_loaded bytes cols rows r = do
    machine ← resolve_shell_machine s r
    drawn ← lift bytes
    attach (s.encode_hex drawn) r machine cols rows

  -- CreateAttachment, with the bytes of its token; ReattachSession is the same operation
  unfoldable pub create_attachment : Result (List ℕ) → Text → Text → ℕ → ℕ → M SessionInit
  create_attachment bytes user_email shell_id cols rows = do
    prune_expired_attachments
    r ← load_shell shell_id user_email
    attach_loaded bytes cols rows r

  -- CreateSession
  unfoldable pub create_session :
      Result (List ℕ) → Result (List ℕ) → Text → Text → ℕ → ℕ → M SessionInit
  create_session id_bytes token_bytes user_email machine_name cols rows = do
    shell ← create_shell s id_bytes user_email machine_name []
    create_attachment token_bytes user_email shell.id cols rows

  -- startAttachment under the lock
  unfoldable pub start_loaded : Text → ShellRecord → M (ShellRecord × Attachment)
  start_loaded token r = do
    found ← gets λ w. find_attachment (token_digest s token) w.terminals.attachments
    a ← open_attachment (token_digest s token) r found
    pure (r, a)

  -- startAttachment
  unfoldable pub start_attachment : Text → Text → M (ShellRecord × Attachment)
  start_attachment shell_id token = do
    prune_expired_attachments
    r ← read_shell (trim_space shell_id)
    start_loaded token r

  unfoldable pub touch_times : ℕ → Text → M (Unit {0})
  touch_times zero i = pure tt
  touch_times (suc n) i = do touch_shell i; touch_times n i

  -- StreamSession once the connection is registered: `opened` answers startGuestShell, `messages` is
  -- the number of messages that are read, and `ended` is the text of an end that is not expected.
  unfoldable pub stream_shell : ShellRecord → Result (Unit {0}) → ℕ → Option Text → M (Unit {0})
  stream_shell r opened messages ended = attempt (resolve_shell_machine s r) λ q. elim q [
    | err e ↦ mark_attach_failed r.id (some (s.error_text e))
    | ok machine ↦ elim opened [
      | err e ↦ mark_attach_failed r.id (some (s.error_text e))
      | ok started ↦ (do
        mark_connected r.id
        touch_times messages r.id
        elim ended [
          | some message ↦ mark_attach_failed r.id (some message)
          | none ↦ mark_detached r.id
        ])
    ]
  ]

  -- StreamSession, on the connection that was accepted
  unfoldable pub stream_session :
      Text → Text → Result ℕ → Result (Unit {0}) → ℕ → Option Text → M (Unit {0})
  stream_session shell_id token accepted opened messages ended = do
    fail_if (is_empty (trim_space token)) token_required
    found ← start_attachment shell_id (trim_space token)
    conn ← lift accepted
    register_shell_connection found.0.id conn
    stream_shell found.0 opened messages ended
    unregister_shell_connection found.0.id conn
