-- ===== src/Terminal/Closing.antt =====
-- What DeleteShell and CloseMachineSessions of internal/browserterm/manager.go end, and what they leave.
use fascinate.Base.{
  ℕ, ◌≡◌, refl, sym, ap, ◌∙◌, ◌⊎◌, true, false, none, some, List, [], ◌∷◌, ◌++◌, arith, Bool-cases,
  inl, inr,
}
use fascinate.Base.Text.{Text, text_eq, trim_space, equal_fold, eq_of_text_eq}
use fascinate.Base.Text.Trim.{trim_space_idem}
use fascinate.Result.{ok, is_ok, Result-cases}
use fascinate.Database.Records.{World, EventKind, ShellRecord, Attachment}
use fascinate.Database.Monad.{statement, allow_missing}
use fascinate.Database.Frame.{Same}
use fascinate.Database.Inversion.{bind_ok}
use fascinate.Database.Shells.{
  find_shell, has_open, update_shells, update_shell, mark_shell_deleted, get_shell_by_id, is_open,
}
use fascinate.Terminal.{TerminalService, FindsMachines}
use fascinate.Terminal.Attachments.{
  find_attachment, without_shell, connections_of, other_connections, drop_shell_attachments,
  close_shell_connections,
}
use fascinate.Terminal.Shells.{load_shell}
use fascinate.Terminal.Sessions.{start_attachment}
use fascinate.Terminal.Close.{destroy_remote_shell, end_shell, delete_loaded_shell, delete_shell}
use fascinate.Terminal.Tokens.{find_shell_sound, start_attachment-Opened}
use fascinate.Terminal.Opening.{record_event_terminals, load_shell_sound}

abbrev pub gone : ShellRecord → ShellRecord
gone r = record r { deleted = true }

find-has_open :
    (i : Text) (rows : List ShellRecord) → has_open i rows ≡ false → find_shell i rows ≡ none
unfolding find_shell has_open
find-has_open i [] e = refl
find-has_open i (q ∷ rest) e = ground (arith, find-has_open i rest)

find-update_gone :
    (i : Text) (rows : List ShellRecord) → find_shell i (update_shells i gone rows) ≡ none
unfolding find_shell update_shells is_open
find-update_gone i [] = refl
find-update_gone i (q ∷ rest) = ground (arith, find-update_gone i rest)

pub find-update_other :
    (i j : Text) (rows : List ShellRecord)
    → text_eq i j ≡ false
    → find_shell j (update_shells i gone rows) ≡ find_shell j rows
unfolding find_shell update_shells is_open
find-update_other i j [] other = refl
find-update_other i j (q ∷ rest) other = elim (Bool-cases (text_eq q.id i)) [
  | inl at ↦ ground (arith, eq_of_text_eq q.id i at, find-update_other i j rest other)
  | inr away ↦ ground (arith, find-update_other i j rest other)
]

find-without_shell :
    (i h : Text) (rows : List Attachment) (a : Attachment)
    → find_attachment h (without_shell i rows) ≡ some a
    → text_eq a.shell_id i ≡ false
unfolding find_attachment without_shell
find-without_shell i h [] a e = absurd (ground arith)
find-without_shell i h (b ∷ rest) a e = elim (Bool-cases (text_eq b.shell_id i)) [
  | inl of ↦ find-without_shell i h rest a (ground arith)
  | inr other ↦ elim (Bool-cases (text_eq b.token_hash h)) [
    | inl same ↦ let e' : b ≡ a = ground arith in rw (← e') other
    | inr more ↦ find-without_shell i h rest a (ground arith)
  ]
]

connections_of-other :
    (i : Text) (rows : List (Text × ℕ)) → connections_of i (other_connections i rows) ≡ []
unfolding connections_of other_connections
connections_of-other i [] = refl
connections_of-other i ((j, c) ∷ rest) = ground (arith, connections_of-other i rest)

-- Marking a shell changes no more than its row.
pub mark_shell_deleted_shells :
    (i : Text) (w : World)
    → ((mark_shell_deleted i w).1.terminals.shells ≡ w.terminals.shells)
      ⊎ ((mark_shell_deleted i w).1.terminals.shells
          ≡ update_shells (trim_space i) gone w.terminals.shells)
unfolding mark_shell_deleted update_shell statement
mark_shell_deleted_shells i w = ground arith

mark_shell_deleted_gone :
    (i : Text) (w v : World)
    → allow_missing (mark_shell_deleted i) w ≡ (ok tt, v)
    → find_shell (trim_space i) v.terminals.shells ≡ none
unfolding mark_shell_deleted update_shell statement
mark_shell_deleted_gone i w v h = elim (Bool-cases (has_open (trim_space i) w.terminals.shells)) [
  | inl known ↦ ground (arith, find-update_gone (trim_space i) w.terminals.shells)
  | inr unknown ↦ ground (arith, find-has_open (trim_space i) w.terminals.shells unknown)
]

mark_shell_deleted_memory :
    (i : Text) (w : World)
    → ((mark_shell_deleted i w).1.terminals.attachments ≡ w.terminals.attachments)
      × ((mark_shell_deleted i w).1.terminals.connections ≡ w.terminals.connections)
unfolding mark_shell_deleted update_shell statement
mark_shell_deleted_memory i w = (ground arith, ground arith)

pub load_shell_owner :
    (i email : Text) (w v : World) (r : ShellRecord)
    → load_shell i email w ≡ (ok r, v)
    → equal_fold (trim_space r.user_email) (trim_space email) ≡ true
unfolding load_shell get_shell_by_id statement
load_shell_owner i email w v r h = ground arith

pub load_shell-Same : (i email : Text) (w : World) → Same w (load_shell i email w).1
unfolding load_shell get_shell_by_id statement
load_shell-Same i email w = ground arith

-- What is left of a shell that is closed: no open row, no attachment, no connection.
pub record Closed (i : Text) (w : World) : Type 0 where
  pub row_gone : find_shell i w.terminals.shells ≡ none
  pub no_attachment :
      (h : Text) (a : Attachment)
      → find_attachment h w.terminals.attachments ≡ some a
      → text_eq a.shell_id i ≡ false
  pub no_connection : connections_of i w.terminals.connections ≡ []

module _ (s : TerminalService) (laws : FindsMachines s) where
  destroy_remote_shell_keeps :
      (r : ShellRecord) (w : World) → (destroy_remote_shell s r w).1.terminals ≡ w.terminals
  unfolding destroy_remote_shell
  destroy_remote_shell_keeps r w =
      ground (arith, laws.keeps_terminals r.machine_name r.user_email w)

  destroy_remote_shell_ok : (r : ShellRecord) (w : World) → (destroy_remote_shell s r w).0 ≡ ok tt
  unfolding destroy_remote_shell
  destroy_remote_shell_ok r w = ground arith

  pub end_shell_terminals :
      (r : ShellRecord) (w : World)
      → (end_shell s r w).1.terminals ≡ record w.terminals {
        attachments = without_shell r.id w.terminals.attachments;
        connections = other_connections r.id w.terminals.connections;
        closed = connections_of r.id w.terminals.connections ++ w.terminals.closed;
      }
  unfolding end_shell drop_shell_attachments close_shell_connections
  end_shell_terminals r w = ground (
    arith,
    destroy_remote_shell_ok r w2,
    destroy_remote_shell_keeps r w2,
    record_event_terminals (some r.user_id) (some r.machine_id) EventKind.shell_deleted
        (destroy_remote_shell s r w2).1,
  )
    where
      w2 : World
      w2 = record w {
        terminals = record w.terminals {
          attachments = without_shell r.id w.terminals.attachments;
          connections = other_connections r.id w.terminals.connections;
          closed = connections_of r.id w.terminals.connections ++ w.terminals.closed;
        };
      }

  end_shell-Closed :
      (r : ShellRecord) (w : World)
      → find_shell r.id w.terminals.shells ≡ none
      → Closed r.id (end_shell s r w).1
  end_shell-Closed r w absent = record {
    row_gone = ap (λ t. find_shell r.id t.shells) (end_shell_terminals r w) ∙ absent;
    no_attachment = λ h a found.
        find-without_shell r.id h w.terminals.attachments a
          (sym (ap (λ t. find_attachment h t.attachments) (end_shell_terminals r w)) ∙ found);
    no_connection =
        ap (λ t. connections_of r.id t.connections) (end_shell_terminals r w)
        ∙ connections_of-other r.id w.terminals.connections;
  }

  delete_shell_loaded :
      (email i : Text) (w v : World) (r : ShellRecord)
      → (load_shell i email w).0 ≡ ok r
      → delete_shell s email i w ≡ (ok tt, v)
      → delete_loaded_shell s r (load_shell i email w).1 ≡ (ok tt, v)
  unfolding delete_shell
  delete_shell_loaded email i w v r own h = ground arith

  delete_shell-Closed :
      (email i : Text) (w v : World) (r : ShellRecord)
      → (load_shell i email w).0 ≡ ok r
      → delete_shell s email i w ≡ (ok tt, v)
      → Closed r.id v
  unfolding delete_loaded_shell
  delete_shell-Closed email i w v r own h =
      let w1 = (load_shell i email w).1 in
      let (done, (e1, k1)) =
        bind_ok (allow_missing (mark_shell_deleted r.id)) (λ _. end_shell s r) w1 v tt
          (delete_shell_loaded email i w v r own h) in
      let w2 = (allow_missing (mark_shell_deleted r.id) w1).1 in
      let (row, kept) = load_shell_sound i email w w1 r (ground (arith, own)) in
      let id_eq : r.id ≡ trim_space (trim_space i) =
        (find_shell_sound _ w.terminals.shells r row).0 in
      let trimmed : trim_space r.id ≡ r.id =
        ap trim_space id_eq ∙ trim_space_idem (trim_space i) ∙ sym id_eq in
      let absent : find_shell r.id w2.terminals.shells ≡ none =
        ap (λ j. find_shell j w2.terminals.shells) (sym trimmed)
        ∙ mark_shell_deleted_gone r.id w1 w2 e1 in
      rw (← (ap (λ p. p.1) k1)) (end_shell-Closed r w2 absent)

  closed_refused :
      (i token : Text) (u : World)
      → find_shell (trim_space (trim_space i)) u.terminals.shells ≡ none
      → is_ok (start_attachment s i token u).0 ≡ false
  closed_refused i token u absent = elim (Result-cases (start_attachment s i token u).0) [
    | inr (x, refused) ↦ ap is_ok refused
    | inl ((r, a), opened) ↦
        let (b, o) =
          start_attachment-Opened s i token u (start_attachment s i token u).1 r a
            (ground (arith, opened)) in
        absurd (ground (arith, o.shell_eq, absent))
  ]

  -- When DeleteShell succeeds for the owner of a shell, the shell is closed: its row is not open, no
  -- attachment stands for it and no connection of it is open. As long as the shells and attachments are
  -- those that it left, startAttachment refuses to open the shell by any token.
  pub delete_shell_ends :
      (email i token : Text) (w v u : World) (r : ShellRecord)
      → (load_shell i email w).0 ≡ ok r
      → delete_shell s email i w ≡ (ok tt, v)
      → u.terminals ≡ v.terminals
      → Closed r.id v × (is_ok (start_attachment s i token u).0 ≡ false)
  delete_shell_ends email i token w v u r own h same =
      let closed = delete_shell-Closed email i w v r own h in
      let (row, kept) =
        load_shell_sound i email w (load_shell i email w).1 r (ground (arith, own)) in
      let id_eq : r.id ≡ trim_space (trim_space i) =
        (find_shell_sound _ w.terminals.shells r row).0 in
      (
        closed,
        closed_refused i token u (
            ap (λ t. find_shell (trim_space (trim_space i)) t.shells) same
            ∙ ap (λ j. find_shell j v.terminals.shells) (sym id_eq)
            ∙ closed.row_gone),
      )
