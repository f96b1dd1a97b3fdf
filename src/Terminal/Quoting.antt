-- ===== src/Terminal/Quoting.antt =====
-- The shell commands of internal/browserterm: shellLiteral, shellQuoteSingle, guestSSHRemoteCommand,
-- normalizeGuestCwd of manager.go, execGuestCommand of exec.go.
use fascinate.Base.{
  ℕ, ◌==◌, ◌≡◌, refl, ◌∙◌, ap, Bool, true, ◌||◌, Option, none, some, List, [], ◌∷◌, ◌++◌, arith,
  Bool-cases, ==_iff, inl, inr, if◌then◌else◌,
}
use mathlib.Core.List.{append_assoc}
use fascinate.Base.Text.{Text, codes, text_eq, trim_space, is_empty, has_prefix, replace_code}

-- shellQuoteSingle and shellLiteral
unfoldable pub shell_quote_single : Text → Text
shell_quote_single value = replace_code b'\'' (codes "'\\''") value

unfoldable pub shell_literal : Text → Text
shell_literal value = codes "'" ++ shell_quote_single value ++ codes "'"

-- strings.TrimPrefix(cwd, "~") of a text that begins with it
behind_tilde : Text → Text
behind_tilde [] = []
behind_tilde (c ∷ rest) = rest

-- normalizeGuestCwd
unfoldable pub normalize_guest_cwd : Text → Text → Text
unfolding behind_tilde
normalize_guest_cwd cwd guest_user =
    let dir = trim_space cwd in
    let user = if is_empty (trim_space guest_user) then codes "ubuntu" else trim_space guest_user in
    let home_dir = codes "/home/" ++ user in
    if is_empty dir
    then []
    else if text_eq dir (codes "~")
    then home_dir
    else if has_prefix dir (codes "~/")
    then home_dir ++ behind_tilde dir
    else dir

-- guestSSHRemoteCommand
unfoldable pub guest_ssh_remote_command : Text → Text → Text
guest_ssh_remote_command term shell_command =
    codes "env TERM="
    ++ shell_quote_single (trim_space term)
    ++ codes " SHELL=/bin/bash sh -lc '"
    ++ shell_quote_single shell_command
    ++ codes "'"

-- strings.Join(lines, "\n")
unfoldable pub join_lines : List Text → Text
join_lines [] = []
join_lines (l ∷ []) = l
join_lines (l ∷ m ∷ rest) = l ++ codes "\n" ++ join_lines (m ∷ rest)

-- execGuestCommand
unfoldable pub exec_guest_command : Text → Text → Text
exec_guest_command cwd command_text = join_lines (
    codes "set -eu"
    ∷ codes "if [ -f /etc/fascinate/env.sh ]; then . /etc/fascinate/env.sh; fi"
    ∷ ((if is_empty (trim_space cwd)
          then []
          else (codes "cd " ++ shell_literal (trim_space cwd)) ∷ [])
        ++ (codes "if command -v bash >/dev/null 2>&1; then"
            ∷ (codes "  exec bash -c " ++ shell_literal (trim_space command_text))
            ∷ codes "fi"
            ∷ (codes "exec sh -c " ++ shell_literal (trim_space command_text))
            ∷ [])))

-- How a shell reads a word, as POSIX describes it (2.2 Quoting, 2.3 Token Recognition): between single
-- quotes every code stands for itself; a backslash outside of them keeps the code behind it, and with a
-- line end it is dropped; a space, a tab, a line end or an operator outside of them ends the word; the
-- other characters that mean something to the shell there ($, `, ", *, ?, [, #, ~, =, %, !, {, }) are
-- not read as text at all. What is handed back is the word and the text behind it.
ends_bare : ℕ → Bool
ends_bare c =
    c == 32
    || c == 9
    || c == 10
    || c == b';'
    || c == b'&'
    || c == b'|'
    || c == b'<'
    || c == b'>'
    || c == b'('
    || c == b')'

is_syntax : ℕ → Bool
is_syntax c =
    c == b'$'
    || c == b'`'
    || c == b'"'
    || c == b'*'
    || c == b'?'
    || c == b'['
    || c == b'#'
    || c == b'~'
    || c == b'='
    || c == b'%'
    || c == b'!'
    || c == b'{'
    || c == b'}'

abbrev pub with_code : ℕ → Option (Text × Text) → Option (Text × Text)
with_code c none = none
with_code c (some (word, rest)) = some (c ∷ word, rest)

pub data Mode : Type 0 where
  bare quoted escaped : Mode

unfoldable pub read_word : Mode → Text → Option (Text × Text)
unfolding ends_bare is_syntax
read_word bare [] = some ([], [])
read_word quoted [] = none
read_word escaped [] = none
read_word bare (c ∷ s) =
    let in_quotes = read_word quoted s in
    let behind = read_word escaped s in
    let plain = read_word bare s in
    if c == b'\''
    then in_quotes
    else if c == b'\\'
    then behind
    else if ends_bare c
    then some ([], c ∷ s)
    else if is_syntax c
    then none
    else with_code c plain
read_word quoted (c ∷ s) =
    let word = read_word bare s in
    let in_quotes = read_word quoted s in if c == b'\'' then word else with_code c in_quotes
read_word escaped (c ∷ s) =
    let plain = read_word bare s in if c == 10 then plain else with_code c plain

-- What stands behind a word ends it.
unfoldable pub ends_word : Text → Bool
unfolding ends_bare
ends_word [] = true
ends_word (c ∷ s) = ends_bare c

read_word-end : (rest : Text) → ends_word rest ≡ true → read_word bare rest ≡ some ([], rest)
unfolding read_word ends_word
read_word-end [] h = refl
read_word-end (c ∷ s) h = elim (Bool-cases (c == b'\'')) [
  | inl quote ↦ absurd (ground (arith, ==_iff c b'\''))
  | inr other ↦ elim (Bool-cases (c == b'\\')) [
    | inl back ↦ absurd (ground (arith, ==_iff c b'\\'))
    | inr plain ↦ ground arith
  ]
]

read_word-quoted :
    (value rest : Text)
    → ends_word rest ≡ true
    → read_word quoted (shell_quote_single value ++ (b'\'' ∷ rest)) ≡ some (value, rest)
unfolding read_word shell_quote_single replace_code
read_word-quoted [] rest h = read_word-end rest h
read_word-quoted (c ∷ value) rest h = elim (Bool-cases (c == b'\'')) [
  | inl same ↦ ground (arith, ==_iff c b'\'', read_word-quoted value rest h)
  | inr other ↦ ground (arith, read_word-quoted value rest h)
]

-- A shell reads shellLiteral of a text, where the word ends behind it, as that text: no character of it
-- ends the word or is read as syntax.
pub read_word-shell_literal :
    (value rest : Text)
    → ends_word rest ≡ true
    → read_word bare (shell_literal value ++ rest) ≡ some (value, rest)
unfolding shell_literal read_word
read_word-shell_literal value rest h =
    ap (read_word quoted) (append_assoc (shell_quote_single value) (codes "'") rest)
    ∙ read_word-quoted value rest h
