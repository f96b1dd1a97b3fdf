-- ===== src/Terminal/Attachments.antt =====
-- The attachments and the open connections that browserterm.Manager keeps in memory
-- (internal/browserterm/manager.go). A map is a list with at most one entry for a key.
use fascinate.Base.{
  ℕ, ◌+◌, ◌==◌, Bool, ◌&&◌, Option, none, some, List, [], ◌∷◌, ◌++◌, ltb, if◌then◌else◌,
}
use fascinate.Base.Text.{Text, text_eq}
use fascinate.Database.Records.{Attachment, Terminals}
use fascinate.Database.Monad.{M, modify}

unfoldable pub find_attachment : Text → List Attachment → Option Attachment
find_attachment h [] = none
find_attachment h (a ∷ rest) = if text_eq a.token_hash h then some a else find_attachment h rest

-- delete(m.attachments, h)
unfoldable pub remove_attachment : Text → List Attachment → List Attachment
remove_attachment h [] = []
remove_attachment h (a ∷ rest) =
    let kept = remove_attachment h rest in if text_eq a.token_hash h then kept else a ∷ kept

-- m.attachments[h] = a, where h is the digest in a
unfoldable pub put_attachment : Attachment → List Attachment → List Attachment
put_attachment a rows = a ∷ remove_attachment a.token_hash rows

unfoldable pub without_shell : Text → List Attachment → List Attachment
without_shell i [] = []
without_shell i (a ∷ rest) =
    let kept = without_shell i rest in if text_eq a.shell_id i then kept else a ∷ kept

-- now.After(attach.expiresAt)
abbrev pub is_expired : ℕ → Attachment → Bool
is_expired now a = ltb a.expires_at now

unfoldable pub keep_unexpired : ℕ → List Attachment → List Attachment
keep_unexpired now [] = []
keep_unexpired now (a ∷ rest) =
    let kept = keep_unexpired now rest in if is_expired now a then kept else a ∷ kept

unfoldable pub expired_count : ℕ → List Attachment → ℕ
expired_count now [] = 0
expired_count now (a ∷ rest) =
    let count = expired_count now rest in if is_expired now a then 1 + count else count

abbrev pub on_terminals : (Terminals → Terminals) → M (Unit {0})
on_terminals f = modify λ w. record w { terminals = f w.terminals }

-- dropShellAttachments
unfoldable pub drop_shell_attachments : Text → M (Unit {0})
drop_shell_attachments i =
    on_terminals λ t. record t { attachments = without_shell i t.attachments }

-- pruneExpiredAttachments
unfoldable pub prune_expired_attachments : M (Unit {0})
prune_expired_attachments = modify λ w. record w {
  terminals = record w.terminals {
    attachments = keep_unexpired w.now w.terminals.attachments;
    total_disconnects = w.terminals.total_disconnects + expired_count w.now w.terminals.attachments;
  };
}

-- The connections of a shell, and those of the others.
unfoldable pub connections_of : Text → List (Text × ℕ) → List ℕ
connections_of i [] = []
connections_of i ((j, c) ∷ rest) =
    let more = connections_of i rest in if text_eq j i then c ∷ more else more

unfoldable pub other_connections : Text → List (Text × ℕ) → List (Text × ℕ)
other_connections i [] = []
other_connections i ((j, c) ∷ rest) =
    let more = other_connections i rest in if text_eq j i then more else (j, c) ∷ more

unfoldable pub without_connection : Text → ℕ → List (Text × ℕ) → List (Text × ℕ)
without_connection i c [] = []
without_connection i c ((j, d) ∷ rest) =
    let more = without_connection i c rest in if text_eq j i && d == c then more else (j, d) ∷ more

-- registerShellConnection and unregisterShellConnection
unfoldable pub register_shell_connection : Text → ℕ → M (Unit {0})
register_shell_connection i c =
    on_terminals λ t. record t { connections = (i, c) ∷ without_connection i c t.connections }

unfoldable pub unregister_shell_connection : Text → ℕ → M (Unit {0})
unregister_shell_connection i c =
    on_terminals λ t. record t { connections = without_connection i c t.connections }

-- closeShellConnections
unfoldable pub close_shell_connections : Text → M (Unit {0})
close_shell_connections i = on_terminals λ t. record t {
  connections = other_connections i t.connections;
  closed = connections_of i t.connections ++ t.closed;
}
