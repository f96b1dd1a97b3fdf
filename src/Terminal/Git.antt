-- ===== src/Terminal/Git.antt =====
-- The state of a repository in a guest: parseGitRepoStatusOutput, parseGitChangedFiles and what they
-- call, of internal/browserterm/manager.go.
use fascinate.Base.{ℕ, zero, suc, ◌==◌, ◌||◌, Option, none, some, List, [], ◌∷◌, if◌then◌else◌}
use fascinate.Base.Text.{Text, codes, trim_space, is_empty, has_prefix}
use fascinate.Result.{
  Result, ok, err, git_header_missing, git_root_missing, git_path_empty, git_count_invalid,
  git_entry_invalid, git_previous_missing, or_error, ◌>>=◌, ◌>>◌,
}

-- GitChangedFile and GitRepoStatus
pub record GitChangedFile : Type 0 where
  pub path : Text
  pub previous_path : Text
  pub kind : Text
  pub index_status : Text
  pub worktree_status : Text

pub record GitRepoStatus : Type 0 where
  pub state : Text
  pub repo_root : Text
  pub branch : Text
  pub additions : ℕ
  pub deletions : ℕ
  pub files : List GitChangedFile

abbrev pub git_repo_status_ready : Text
git_repo_status_ready = codes "ready"

-- The text before the first code c, and the text behind it.
unfoldable pub cut : ℕ → Text → Option (Text × Text)
cut c [] = none
cut c (d ∷ s) =
    let later = cut c s in
    if d == c then some ([], s) else elim later [ none ↦ none | some p ↦ some (d ∷ p.0, p.1) ]

-- strings.Split at one code
unfoldable pub before_split : ℕ → List Text → List Text
before_split d [] = (d ∷ []) ∷ []
before_split d (part ∷ rest) = (d ∷ part) ∷ rest

unfoldable pub split : ℕ → Text → List Text
split c [] = [] ∷ []
split c (d ∷ s) = let parts = split c s in if d == c then [] ∷ parts else before_split d parts

-- strings.SplitN at one code
unfoldable pub split_n : ℕ → Text → ℕ → List Text
split_n c s zero = []
split_n c s (suc zero) = s ∷ []
split_n c s (suc (suc n)) = elim (cut c s) [ none ↦ s ∷ [] | some p ↦ p.0 ∷ split_n c p.1 (suc n) ]

-- gitStatusRune
unfoldable pub git_status_rune : ℕ → Text
git_status_rune value = if value == b'.' || value == 32 then [] else value ∷ []

-- parseGitStatusPair
status_pair : Text → Text × Text
status_pair [] = ([], [])
status_pair (c ∷ []) = ([], [])
status_pair (c ∷ d ∷ rest) = (git_status_rune c, git_status_rune d)

unfoldable pub parse_git_status_pair : Text → Text × Text
unfolding status_pair
parse_git_status_pair pair = status_pair (trim_space pair)

-- What gitChangeKind makes of one status, where it knows it.
unfoldable pub status_kind : Text → Option Text
status_kind [] = none
status_kind (c ∷ d ∷ rest) = none
status_kind (c ∷ []) =
    if c == b'R'
    then some (codes "renamed")
    else if c == b'C'
    then some (codes "copied")
    else if c == b'A'
    then some (codes "added")
    else if c == b'D'
    then some (codes "deleted")
    else if c == b'T'
    then some (codes "typechange")
    else if c == b'U'
    then some (codes "conflicted")
    else if c == b'?'
    then some (codes "untracked")
    else if c == b'M'
    then some (codes "modified")
    else none

-- gitChangeKind
unfoldable pub git_change_kind : Text → Text → Text
git_change_kind index_status worktree_status = elim (status_kind index_status) [
  | some kind ↦ kind
  | none ↦ elim (status_kind worktree_status) [ some kind ↦ kind | none ↦ codes "modified" ]
]

-- The file of an entry with these statuses
unfoldable pub changed_file : Text → Text → Text → GitChangedFile
changed_file pair path previous =
    let (index_status, worktree_status) = parse_git_status_pair pair in
    record {
      path = path;
      previous_path = previous;
      kind = git_change_kind index_status worktree_status;
      index_status = index_status;
      worktree_status = worktree_status;
    }

-- fields[1] and fields[n], where there are n + 1 fields
unfoldable pub nth : ℕ → List Text → Option Text
nth n [] = none
nth zero (f ∷ fs) = some f
nth (suc n) (f ∷ fs) = nth n fs

-- The case of an untracked file.
unfoldable pub untracked_entry : Text → Result GitChangedFile
untracked_entry [] = err git_path_empty
untracked_entry (c ∷ rest) = ok (record {
  path = c ∷ rest;
  previous_path = [];
  kind = codes "untracked";
  index_status = codes "?";
  worktree_status = codes "?";
})

behind_two : Text → Text
behind_two [] = []
behind_two (c ∷ []) = []
behind_two (c ∷ d ∷ rest) = rest

-- The cases of a changed or unmerged file, and of a renamed one: the statuses and the path, cut from
-- the number of fields that the program asks for.
unfoldable pub entry_fields : Text → ℕ → Result (Text × Text)
entry_fields record_ n = do
  let fields = split_n 32 record_ (suc n)
  path ← or_error (nth n fields) (git_entry_invalid record_)
  pair ← or_error (nth 1 fields) (git_entry_invalid record_)
  ok (pair, path)

-- The loop of parseGitChangedFiles.
unfoldable pub parse_records : List Text → Result (List GitChangedFile)
unfolding behind_two
parse_records [] = ok []
parse_records (r ∷ []) =
    if has_prefix r (codes "? ")
    then (untracked_entry (trim_space (behind_two r)) >>= λ file. ok (file ∷ []))
    else if has_prefix r (codes "1 ") || has_prefix r (codes "u ")
    then (entry_fields r 8 >>= λ p. ok (changed_file p.0 p.1 [] ∷ []))
    else if has_prefix r (codes "2 ")
    then (entry_fields r 9 >>= λ p. err (git_previous_missing r))
    else ok []
parse_records (r ∷ next ∷ rest) =
    let others = parse_records (next ∷ rest) in
    let behind = parse_records rest in
    if has_prefix r (codes "? ")
    then (untracked_entry (trim_space (behind_two r)) >>= λ file.
        others >>= λ files. ok (file ∷ files))
    else if has_prefix r (codes "1 ") || has_prefix r (codes "u ")
    then (entry_fields r 8 >>= λ p. others >>= λ files. ok (changed_file p.0 p.1 [] ∷ files))
    else if has_prefix r (codes "2 ")
    then (entry_fields r 9 >>= λ p. behind >>= λ files. ok (changed_file p.0 p.1 next ∷ files))
    else others

-- parseGitChangedFiles
unfoldable pub parse_git_changed_files : Text → Result (List GitChangedFile)
parse_git_changed_files output = if is_empty output then ok [] else parse_records (split 0 output)

-- strconv.Atoi stands among the arguments.
module _ (atoi : Text → Option ℕ) where
  -- parseGitStatusCount
  unfoldable pub parse_git_status_count : Text → Result ℕ
  parse_git_status_count value =
      if is_empty (trim_space value)
      then ok 0
      else or_error (atoi (trim_space value)) (git_count_invalid (trim_space value))

  -- The counts of the header; a line that is missing counts nothing.
  unfoldable pub header_count : ℕ → List Text → Result ℕ
  header_count n header = elim (nth n header) [
    | none ↦ ok 0
    | some line ↦ parse_git_status_count line
  ]

  -- parseGitRepoStatusOutput
  unfoldable pub parse_git_repo_status_output : Text → Result GitRepoStatus
  parse_git_repo_status_output output = do
    parts ← or_error (cut 0 output) git_header_missing
    let header = split 10 parts.0
    root ← or_error (nth 0 header) git_root_missing
    (if is_empty (trim_space root) then err git_root_missing else ok tt)
    additions ← header_count 2 header
    deletions ← header_count 3 header
    files ← parse_git_changed_files parts.1
    ok (record {
      state = git_repo_status_ready;
      repo_root = trim_space root;
      branch = elim (nth 1 header) [ none ↦ [] | some line ↦ trim_space line ];
      additions = additions;
      deletions = deletions;
      files = files;
    })
