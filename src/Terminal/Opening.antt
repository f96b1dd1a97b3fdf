-- ===== src/Terminal/Opening.antt =====
-- A shell that CreateAttachment of internal/browserterm/manager.go has made a token for can be opened
-- by that token until it expires.
use fascinate.Base.{
  ◌&&◌, ℕ, ◌≤◌, ◌≡◌, refl, sym, ap, ◌∙◌, true, not, ◌⊎◌, ◌&&◌, Option, some, List, [], ◌∷◌, arith,
  Bool-cases, inl, inr, if◌then◌else◌,
}
use fascinate.Base.Text.{Text, text_eq, trim_space, text_eq_refl}
use fascinate.Base.Text.Trim.{trim_space_idem}
use fascinate.Result.{ok, is_ok}
use fascinate.Database.Records.{World, EventKind, ShellRecord, Attachment}
use fascinate.Database.Monad.{statement, record_event}
use fascinate.Database.Frame.{Same}
use fascinate.Database.Inversion.{bind_ok}
use fascinate.Database.Shells.{
  find_shell, update_shells, update_shell, update_shell_state, touch_shell_attached,
  get_shell_by_id, is_open,
}
use fascinate.Terminal.{TerminalService, FindsMachines, GuestMachine, token_digest}
use fascinate.Terminal.Attachments.{
  find_attachment, keep_unexpired, put_attachment, prune_expired_attachments,
}
use fascinate.Terminal.Shells.{
  SessionInit, load_shell, resolve_shell_machine, ensure_reachable, next_expiry, touch_shell,
  shell_missing,
}
use fascinate.Terminal.Sessions.{
  start_attachment, start_loaded, read_shell, open_attachment, attach, attach_loaded,
  new_attachment, create_attachment,
}
use fascinate.Terminal.Tokens.{find_shell_sound}

find-keep_unexpired :
    (h : Text) (now : ℕ) (rows : List Attachment) (a : Attachment)
    → find_attachment h rows ≡ some a
    → now ≤ a.expires_at
    → find_attachment h (keep_unexpired now rows) ≡ some a
unfolding find_attachment keep_unexpired
find-keep_unexpired h now [] a e le = absurd (ground arith)
find-keep_unexpired h now (b ∷ rest) a e le = elim (Bool-cases (text_eq b.token_hash h)) [
  | inl same ↦ ground arith
  | inr other ↦ ground (arith, find-keep_unexpired h now rest a)
]

find-put_attachment :
    (a : Attachment) (rows : List Attachment)
    → find_attachment a.token_hash (put_attachment a rows) ≡ some a
unfolding find_attachment put_attachment
find-put_attachment a rows = ground (arith, text_eq_refl a.token_hash)

start_attachment_opens :
    (s : TerminalService) (i token : Text) (u : World) (r : ShellRecord) (b : Attachment)
    → u.faults ≡ []
    → find_shell (trim_space (trim_space i)) u.terminals.shells ≡ some r
    → find_attachment (token_digest s token) u.terminals.attachments ≡ some b
    → b.shell_id ≡ r.id
    → u.now ≤ b.expires_at
    → is_ok (start_attachment s i token u).0 ≡ true
unfolding start_attachment start_loaded read_shell open_attachment prune_expired_attachments
    get_shell_by_id statement
start_attachment_opens s i token u r b quiet row found same le = ground (
  arith,
  find-keep_unexpired (token_digest s token) u.now u.terminals.attachments b found le,
  text_eq_refl r.id,
)

-- Updates that keep the identifiers and the deletions keep a shell there.
record KeepsKey (f : ShellRecord → ShellRecord) : Type 0 where
  id_eq : (q : ShellRecord) → (f q).id ≡ q.id
  deleted_eq : (q : ShellRecord) → (f q).deleted ≡ q.deleted

updated-KeepsKey :
    (j : Text) (f : ShellRecord → ShellRecord)
    → KeepsKey f
    → KeepsKey (λ q. if is_open j q then f q else q)
updated-KeepsKey j f k = record {
  id_eq = λ q. elim (Bool-cases (is_open j q)) [
    | inl here ↦ rw here (k.id_eq q)
    | inr other ↦ rw other refl
  ];
  deleted_eq = λ q. elim (Bool-cases (is_open j q)) [
    | inl here ↦ rw here (k.deleted_eq q)
    | inr other ↦ rw other refl
  ];
}

IsThere : Text → List ShellRecord → Type 0
IsThere i rows = (r : ShellRecord) × (find_shell i rows ≡ some r)

find-update_shells :
    (i j : Text) (f : ShellRecord → ShellRecord) (rows : List ShellRecord)
    → KeepsKey f
    → IsThere i rows
    → IsThere i (update_shells j f rows)
unfolding find_shell update_shells IsThere is_open
find-update_shells i j f [] k (r, e) = absurd (ground arith)
find-update_shells i j f (q ∷ rest) k (r, e) =
    let u = updated-KeepsKey j f k in
    elim (Bool-cases (text_eq q.id i && not q.deleted)) [
      | inl here ↦ (if is_open j q then f q else q, ground (arith, u.id_eq q, u.deleted_eq q))
      | inr other ↦
          let (r', e') = find-update_shells i j f rest k (r, ground arith) in
          (r', ground (arith, e', u.id_eq q, u.deleted_eq q))
    ]

-- An update of shells changes nothing else that is kept in memory.
update_shell_shells :
    (j : Text) (f : ShellRecord → ShellRecord) (w : World)
    → ((update_shell j f w).1.terminals.attachments ≡ w.terminals.attachments)
      × (((update_shell j f w).1.terminals.shells ≡ w.terminals.shells)
          ⊎ ((update_shell j f w).1.terminals.shells
              ≡ update_shells (trim_space j) f w.terminals.shells))
unfolding update_shell statement
update_shell_shells j f w = (ground arith, ground arith)

update_shell-IsThere :
    (i j : Text) (f : ShellRecord → ShellRecord) (w : World)
    → KeepsKey f
    → IsThere i w.terminals.shells
    → IsThere i (update_shell j f w).1.terminals.shells
unfolding IsThere
update_shell-IsThere i j f w k there = elim (update_shell_shells j f w).1 [
  | inl same ↦ rw same there
  | inr changed ↦ rw changed (find-update_shells i (trim_space j) f w.terminals.shells k there)
]

touch_shell_keeps :
    (i j : Text) (w : World)
    → IsThere i w.terminals.shells
    → IsThere i (touch_shell j w).1.terminals.shells
      × ((touch_shell j w).1.terminals.attachments ≡ w.terminals.attachments)
unfolding touch_shell touch_shell_attached update_shell_state
touch_shell_keeps i j w there =
    let touched =
      update_shell-IsThere i j _ w (record { id_eq = λ q. refl; deleted_eq = λ q. refl }) there in
    (
      update_shell-IsThere i j _ _ (record { id_eq = λ q. refl; deleted_eq = λ q. refl }) touched,
      (update_shell_shells j _ _).0 ∙ (update_shell_shells j _ w).0,
    )

pub record_event_terminals :
    (a m : Option Text) (k : EventKind) (w : World)
    → (record_event a m k w).1.terminals ≡ w.terminals
unfolding record_event statement
record_event_terminals a m k w = ground arith

pub record_event_ok :
    (a m : Option Text) (k : EventKind) (w : World) → (record_event a m k w).0 ≡ ok tt
unfolding record_event
record_event_ok a m k w = refl

pub load_shell_sound :
    (i email : Text) (w v : World) (r : ShellRecord)
    → load_shell i email w ≡ (ok r, v)
    → (find_shell (trim_space (trim_space i)) w.terminals.shells ≡ some r) × Same w v
unfolding load_shell get_shell_by_id shell_missing statement
load_shell_sound i email w v r h = (ground arith, ground arith)

module _ (s : TerminalService) (laws : FindsMachines s) where
  resolve_shell_machine_keeps :
      (r : ShellRecord) (w : World)
      → ((resolve_shell_machine s r w).1.terminals ≡ w.terminals)
        × ((resolve_shell_machine s r w).1.now ≡ w.now)
  unfolding resolve_shell_machine ensure_reachable
  resolve_shell_machine_keeps r w = ground (
    arith,
    laws.keeps_terminals r.machine_name r.user_email w,
    laws.keeps_now r.machine_name r.user_email w,
  )

  -- What attach leaves: the shell is still there, and the token's attachment stands for it.
  attach_leaves :
      (token : Text) (r : ShellRecord) (machine : GuestMachine) (cols rows : ℕ) (w v : World)
      (init : SessionInit)
      → attach s token r machine cols rows w ≡ (ok init, v)
      → IsThere r.id w.terminals.shells
      → IsThere r.id v.terminals.shells
        × ((find_attachment (token_digest s token) v.terminals.attachments
              ≡ some (new_attachment s token r cols rows w.now))
            × ((init.id ≡ r.id) × (init.expires_at ≡ next_expiry s w.now)))
  unfolding attach touch_shell record_event token_digest new_attachment
  attach_leaves token r machine cols rows w v init h there =
      let (there', same) = touch_shell_keeps r.id r.id w1 there in
      let logged : v.terminals ≡ (touch_shell r.id w1).1.terminals =
        ap (λ p. p.1.terminals) (sym h)
        ∙ record_event_terminals _ _ EventKind.shell_attached (touch_shell r.id w1).1 in
      (
        rw logged there',
        (
          ap (λ t. find_attachment (token_digest s token) t.attachments) logged
              ∙ ap (find_attachment (token_digest s token)) same
              ∙ find-put_attachment (new_attachment s token r cols rows w.now)
                  w.terminals.attachments,
          (ground (arith, h), ground (arith, h)),
        ),
      )
    where
      w1 : World
      w1 = record w {
        terminals = record w.terminals {
          attachments =
              put_attachment (new_attachment s token r cols rows w.now) w.terminals.attachments;
        };
      }

  attach_loaded_leaves :
      (drawn : List ℕ) (cols rows : ℕ) (r : ShellRecord) (w v : World) (init : SessionInit)
      → attach_loaded s (ok drawn) cols rows r w ≡ (ok init, v)
      → IsThere r.id w.terminals.shells
      → IsThere r.id v.terminals.shells
        × ((find_attachment (token_digest s (s.encode_hex drawn)) v.terminals.attachments
              ≡ some (new_attachment s (s.encode_hex drawn) r cols rows w.now))
            × ((init.id ≡ r.id) × (init.expires_at ≡ next_expiry s w.now)))
  unfolding attach_loaded
  attach_loaded_leaves drawn cols rows r w v init h there =
      let (machine, (e1, k1)) =
        bind_ok (resolve_shell_machine s r)
          (λ machine. attach s (s.encode_hex drawn) r machine cols rows) w v init h in
      let (same, now_eq) = resolve_shell_machine_keeps r w in
      rw (← now_eq) (
        attach_leaves (s.encode_hex drawn) r machine cols rows (resolve_shell_machine s r w).1 v
          init k1 (rw same there))

  -- Once CreateAttachment has made a token for a shell, startAttachment opens that shell by it, for as
  -- long as the shells and attachments stay, until the expiry that was given; no statement fails.
  pub create-start_attachment :
      (drawn : List ℕ) (email i : Text) (cols rows : ℕ) (w v u : World) (init : SessionInit)
      → create_attachment s (ok drawn) email i cols rows w ≡ (ok init, v)
      → u.terminals ≡ v.terminals
      → u.faults ≡ []
      → u.now ≤ init.expires_at
      → is_ok (start_attachment s init.id (s.encode_hex drawn) u).0 ≡ true
  unfolding create_attachment prune_expired_attachments IsThere new_attachment
  create-start_attachment drawn email i cols rows w v u init h same quiet le =
      let (r, (e1, k1)) =
        bind_ok (load_shell i email) (attach_loaded s (ok drawn) cols rows) w0 v init h in
      let (row, kept) = load_shell_sound i email w0 (load_shell i email w0).1 r e1 in
      let (id_eq, there) = find_shell_sound (trim_space (trim_space i)) w.terminals.shells r row in
      let key : r.id ≡ trim_space (trim_space i) = id_eq in
      let ((r', there'), (found, (init_id, expiry))) =
        attach_loaded_leaves drawn cols rows r (load_shell i email w0).1 v init k1
          (r, rw (key, kept.terminals_eq) row) in
      let same_id : r'.id ≡ r.id = (find_shell_sound r.id v.terminals.shells r' there').0 in
      let trimmed : trim_space (trim_space init.id) ≡ r.id =
        ap (λ t. trim_space (trim_space t)) (init_id ∙ key)
        ∙ ap trim_space (trim_space_idem (trim_space i))
        ∙ trim_space_idem (trim_space i)
        ∙ sym key in
      start_attachment_opens s init.id (s.encode_hex drawn) u r'
        (new_attachment s (s.encode_hex drawn) r cols rows (load_shell i email w0).1.now) quiet
        (ap (λ t. find_shell t u.terminals.shells) trimmed
          ∙ ap (λ t. find_shell r.id t.shells) same
          ∙ there')
        (ap (λ t. find_attachment (token_digest s (s.encode_hex drawn)) t.attachments) same ∙ found)
        (sym same_id) (rw (← expiry) le)
    where
      w0 : World
      w0 = (prune_expired_attachments w).1
