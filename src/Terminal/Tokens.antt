-- ===== src/Terminal/Tokens.antt =====
-- What a token of a shell opens: startAttachment of internal/browserterm/manager.go.
use fascinate.Base.{
  ◌⊎◌, ℕ, ◌≤◌, ◌≡◌, refl, sym, ap, ◌∙◌, false, Option, none, some, List, [], ◌∷◌, arith, Bool-cases,
  inl, inr,
}
use fascinate.Base.Text.{Text, text_eq, trim_space, eq_of_text_eq}
use fascinate.Base.Text.Trim.{trim_space_idem}
use fascinate.Result.{ok, is_ok, Result-cases}
use fascinate.Database.Records.{World, ShellRecord, Attachment}
use fascinate.Database.Monad.{statement}
use fascinate.Database.Inversion.{bind_ok}
use fascinate.Database.Frame.{Same}
use fascinate.Database.Shells.{find_shell, get_shell_by_id, is_open}
use fascinate.Terminal.{TerminalService, token_digest}
use fascinate.Terminal.Attachments.{
  find_attachment, remove_attachment, keep_unexpired, prune_expired_attachments, is_expired,
}
use fascinate.Terminal.Shells.{shell_missing}
use fascinate.Terminal.Sessions.{start_attachment, start_loaded, read_shell, open_attachment}

pub find-remove_attachment :
    (h : Text) (rows : List Attachment) → find_attachment h (remove_attachment h rows) ≡ none
unfolding find_attachment remove_attachment
find-remove_attachment h [] = refl
find-remove_attachment h (a ∷ rest) = ground (arith, find-remove_attachment h rest)

keep_unexpired_absent :
    (h : Text) (now : ℕ) (rows : List Attachment)
    → find_attachment h rows ≡ none
    → find_attachment h (keep_unexpired now rows) ≡ none
unfolding find_attachment keep_unexpired
keep_unexpired_absent h now [] e = refl
keep_unexpired_absent h now (a ∷ rest) e = ground (arith, keep_unexpired_absent h now rest)

keep_unexpired_sound :
    (h : Text) (now : ℕ) (rows : List Attachment) (a : Attachment)
    → find_attachment h (keep_unexpired now rows) ≡ some a
    → (a.token_hash ≡ h) × (now ≤ a.expires_at)
unfolding find_attachment keep_unexpired
keep_unexpired_sound h now [] a e = absurd (ground arith)
keep_unexpired_sound h now (b ∷ rest) a e = elim (Bool-cases (is_expired now b)) [
  | inl old ↦ keep_unexpired_sound h now rest a (ground arith)
  | inr fresh ↦ elim (Bool-cases (text_eq b.token_hash h)) [
    | inl same ↦
        let e' : b ≡ a = ground arith in rw (← e') (eq_of_text_eq b.token_hash h same, ground arith)
    | inr other ↦ keep_unexpired_sound h now rest a (ground arith)
  ]
]

-- The attachment is one of the list.
unfoldable pub IsAttachment : Attachment → List Attachment → Type 0
IsAttachment a [] = ⊥
IsAttachment a (b ∷ rest) = (b ≡ a) ⊎ IsAttachment a rest

keep_unexpired-IsAttachment :
    (h : Text) (now : ℕ) (rows : List Attachment) (a : Attachment)
    → find_attachment h (keep_unexpired now rows) ≡ some a
    → IsAttachment a rows
unfolding find_attachment keep_unexpired IsAttachment
keep_unexpired-IsAttachment h now [] a e = absurd (ground arith)
keep_unexpired-IsAttachment h now (b ∷ rest) a e = elim (Bool-cases (is_expired now b)) [
  | inl old ↦ inr (keep_unexpired-IsAttachment h now rest a (ground arith))
  | inr fresh ↦ elim (Bool-cases (text_eq b.token_hash h)) [
    | inl same ↦ inl (ground arith)
    | inr other ↦ inr (keep_unexpired-IsAttachment h now rest a (ground arith))
  ]
]

pub find_shell_sound :
    (i : Text) (rows : List ShellRecord) (r : ShellRecord)
    → find_shell i rows ≡ some r
    → (r.id ≡ i) × (r.deleted ≡ false)
unfolding find_shell is_open
find_shell_sound i [] r e = absurd (ground arith)
find_shell_sound i (q ∷ rest) r e = elim (Bool-cases (text_eq q.id i)) [
  | inl same ↦ elim (Bool-cases q.deleted) [
    | inl gone ↦ find_shell_sound i rest r (ground arith)
    | inr there ↦ let e' : q ≡ r = ground arith in rw (← e') (eq_of_text_eq q.id i same, there)
  ]
  | inr other ↦ find_shell_sound i rest r (ground arith)
]

pub get_shell_by_id_sound :
    (i : Text) (w v : World) (r : ShellRecord)
    → get_shell_by_id i w ≡ (ok r, v)
    → (find_shell (trim_space i) w.terminals.shells ≡ some r) × (Same w v)
unfolding get_shell_by_id statement
get_shell_by_id_sound i w v r h = (ground arith, ground arith)

pub open_attachment_sound :
    (h : Text) (r : ShellRecord) (found : Option Attachment) (w v : World) (a : Attachment)
    → open_attachment h r found w ≡ (ok a, v)
    → (b : Attachment) × ((found ≡ some b)
        × ((b.shell_id ≡ r.id)
            × ((a ≡ record b { attached_at = some w.now })
                × (v.terminals.attachments ≡ remove_attachment h w.terminals.attachments))))
unfolding open_attachment
open_attachment_sound h r none w v a e = absurd (ground arith)
open_attachment_sound h r (some b) w v a e = elim (Bool-cases (text_eq b.shell_id r.id)) [
  | inl same ↦ elim (Bool-cases (is_expired w.now b)) [
    | inl old ↦ absurd (ground arith)
    | inr fresh ↦ (b, (refl, (eq_of_text_eq b.shell_id r.id same, (ground arith, ground arith))))
  ]
  | inr other ↦ absurd (ground arith)
]

-- The shell that a token opens, and the attachment b that it used up.
pub record Opened (s : TerminalService) (i token : Text) (w v : World) (r : ShellRecord)
    (a b : Attachment) : Type 0 where
  pub shell_eq : find_shell (trim_space (trim_space i)) w.terminals.shells ≡ some r
  pub found :
      find_attachment (token_digest s token) (keep_unexpired w.now w.terminals.attachments) ≡ some b
  pub of_shell : b.shell_id ≡ r.id
  pub opened_eq : a ≡ record b { attached_at = some w.now }
  pub used_eq :
      v.terminals.attachments
      ≡ remove_attachment (token_digest s token) (keep_unexpired w.now w.terminals.attachments)

read_shell_sound :
    (i : Text) (w v : World) (r : ShellRecord)
    → read_shell i w ≡ (ok r, v)
    → (find_shell (trim_space i) w.terminals.shells ≡ some r) × Same w v
unfolding read_shell shell_missing get_shell_by_id statement
read_shell_sound i w v r h = (ground arith, ground arith)

module _ (s : TerminalService) where
  start_loaded_sound :
      (token : Text) (q : ShellRecord) (w v : World) (r : ShellRecord) (a : Attachment)
      → start_loaded s token q w ≡ (ok (r, a), v)
      → (q ≡ r)
        × (open_attachment
              (token_digest s token)
              r
              (find_attachment (token_digest s token) w.terminals.attachments)
              w
            ≡ (ok a, v))
  unfolding start_loaded
  start_loaded_sound token q w v r a h = (ground arith, ground arith)

  -- What startAttachment has read and found when it succeeds.
  pub start_attachment-Opened :
      (i token : Text) (w v : World) (r : ShellRecord) (a : Attachment)
      → start_attachment s i token w ≡ (ok (r, a), v)
      → (b : Attachment) × Opened s i token w v r a b
  unfolding start_attachment prune_expired_attachments
  start_attachment-Opened i token w v r a h =
      let (q, (e1, k1)) =
        bind_ok (read_shell (trim_space i)) (start_loaded s token) w0 v (r, a) h in
      let (row, same) = read_shell_sound (trim_space i) w0 (read_shell (trim_space i) w0).1 q e1 in
      let (q_eq, opened) = start_loaded_sound token q (read_shell (trim_space i) w0).1 v r a k1 in
      let (b, (e2, (e3, (e4, e5)))) =
        open_attachment_sound (token_digest s token) r _ (read_shell (trim_space i) w0).1 v a
          opened in
      (
        b,
        record {
          shell_eq = row ∙ ap some q_eq;
          found =
              ap (λ t. find_attachment (token_digest s token) t.attachments) (sym same.terminals_eq)
              ∙ e2;
          of_shell = e3;
          opened_eq = e4 ∙ ap (λ n. record b { attached_at = some n }) same.now_eq;
          used_eq =
              e5
              ∙ ap (λ t. remove_attachment (token_digest s token) t.attachments) same.terminals_eq;
        },
      )
    where
      w0 : World
      w0 = (prune_expired_attachments w).1

  -- When startAttachment succeeds, the shell that it hands out is the open one of that identifier, and
  -- the attachment that it hands out is, but for the time at which it was used, one that was there
  -- before: it was made for that shell, bears the digest of the token and has not expired.
  pub start_attachment_sound :
      (i token : Text) (w v : World) (r : ShellRecord) (a : Attachment)
      → start_attachment s i token w ≡ (ok (r, a), v)
      → (r.id ≡ trim_space i)
        × ((r.deleted ≡ false)
            × ((b : Attachment) × (IsAttachment b w.terminals.attachments
                  × ((a ≡ record b { attached_at = some w.now })
                      × ((b.shell_id ≡ r.id)
                          × ((b.token_hash ≡ token_digest s token) × (w.now ≤ b.expires_at)))))))
  start_attachment_sound i token w v r a h =
      let (b, o) = start_attachment-Opened i token w v r a h in
      let (same, there) =
        find_shell_sound (trim_space (trim_space i)) w.terminals.shells r o.shell_eq in
      let (digest, fresh) =
        keep_unexpired_sound (token_digest s token) w.now w.terminals.attachments b o.found in
      (
        same ∙ trim_space_idem i,
        (
          there,
          (
            b,
            (
              keep_unexpired-IsAttachment (token_digest s token) w.now w.terminals.attachments b
                  o.found,
              (o.opened_eq, (o.of_shell, (digest, fresh))),
            ),
          ),
        ),
      )

  missing_refused :
      (j token : Text) (u : World)
      → find_attachment (token_digest s token) u.terminals.attachments ≡ none
      → is_ok (start_attachment s j token u).0 ≡ false
  missing_refused j token u absent = elim (Result-cases (start_attachment s j token u).0) [
    | inr (x, refused) ↦ ap is_ok refused
    | inl ((r, a), opened) ↦
        let (b, o) =
          start_attachment-Opened j token u (start_attachment s j token u).1 r a
            (ground (arith, opened)) in
        absurd (
          ground (
            arith,
            o.found,
            keep_unexpired_absent (token_digest s token) u.now u.terminals.attachments absent,
          ))
  ]

  -- A token opens a shell once: after startAttachment has succeeded, and as long as the attachments
  -- are those that it left, it refuses the same token, for any shell and at any time.
  pub start_attachment_once :
      (i j token : Text) (w v u : World) (opened : ShellRecord × Attachment)
      → start_attachment s i token w ≡ (ok opened, v)
      → u.terminals.attachments ≡ v.terminals.attachments
      → is_ok (start_attachment s j token u).0 ≡ false
  start_attachment_once i j token w v u (r, a) h same =
      let (b, o) = start_attachment-Opened i token w v r a h in
      missing_refused j token u (
        ap (find_attachment (token_digest s token)) (same ∙ o.used_eq)
        ∙ find-remove_attachment (token_digest s token) _)
