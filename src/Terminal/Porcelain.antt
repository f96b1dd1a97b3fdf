-- ===== src/Terminal/Porcelain.antt =====
-- What parseGitChangedFiles of internal/browserterm/manager.go makes of the output of
-- `git status --porcelain=v2 -z`, as git documents it.
use fascinate.Base.{
  ℕ, suc, ◌==◌, ◌≡◌, refl, sym, ap, ◌∙◌, false, List, [], ◌∷◌, ◌++◌, map, length, arith,
}
use fascinate.Base.Text.{Text, codes, trim_space, trim_space-stays, is_empty, is_space, has_prefix}
use fascinate.Result.{ok}
use fascinate.Terminal.Splitting.{
  fields_text, has_code, any_code, split_n-fields_text, split-found, nth_last,
}
use fascinate.Terminal.Git.{
  GitChangedFile, split, git_status_rune, git_change_kind, parse_git_status_pair, changed_file, nth,
  untracked_entry, entry_fields, parse_records, parse_git_changed_files,
}

-- An entry of the format: the two letters of its status, the words between them and the path, and the
-- path; a renamed entry is followed by the path that it had. An unmerged entry has the object names of
-- the second and third stages as its last two words.
pub data Entry : Type 0 where
  ordinary : ℕ → ℕ → List Text → Text → Entry
  unmerged : ℕ → ℕ → List Text → Text → Text → Text → Entry
  renamed : ℕ → ℕ → List Text → Text → Text → Entry
  untracked : Text → Entry

-- The records that git writes for an entry, each with a NUL behind it.
unfoldable pub records_of : Entry → List Text
records_of (Entry.ordinary x y fs path) = fields_text (codes "1" ∷ (x ∷ y ∷ []) ∷ fs) path ∷ []
records_of (Entry.unmerged x y fs h2 h3 path) =
    fields_text (codes "u" ∷ (x ∷ y ∷ []) ∷ fs) (fields_text (h2 ∷ h3 ∷ []) path) ∷ []
records_of (Entry.renamed x y fs path previous) =
    fields_text (codes "2" ∷ (x ∷ y ∷ []) ∷ fs) path ∷ previous ∷ []
records_of (Entry.untracked path) = (codes "? " ++ path) ∷ []

unfoldable pub closed_records : List Text → Text → Text
closed_records [] rest = rest
closed_records (r ∷ rs) rest = r ++ (0 ∷ closed_records rs rest)

unfoldable pub porcelain : List Entry → Text
porcelain [] = []
porcelain (e ∷ es) = closed_records (records_of e) (porcelain es)

-- The entries that git writes: letters and words without spaces, as many words as the format has, and
-- no NUL in a record.
abbrev pub AreWords : ℕ → ℕ → List Text → ℕ → Type 0
AreWords x y fs n =
    (is_space x ≡ false) × ((is_space y ≡ false) × ((any_code 32 fs ≡ false) × (length fs ≡ n)))

abbrev pub HasShape : Entry → Type 0
HasShape (Entry.ordinary x y fs path) = AreWords x y fs 6
HasShape (Entry.unmerged x y fs h2 h3 path) = AreWords x y fs 6
HasShape (Entry.renamed x y fs path previous) = AreWords x y fs 7
HasShape (Entry.untracked path) = is_empty (trim_space path) ≡ false

abbrev pub AreEntries : List Entry → Type 0
AreEntries [] = Unit
AreEntries (e ∷ es) = HasShape e × ((any_code 0 (records_of e) ≡ false) × AreEntries es)

-- The file with two letters of status.
abbrev pub with_status : ℕ → ℕ → Text → Text → GitChangedFile
with_status x y path previous = record {
  path = path;
  previous_path = previous;
  kind = git_change_kind (git_status_rune x) (git_status_rune y);
  index_status = git_status_rune x;
  worktree_status = git_status_rune y;
}

-- What the parser makes of an entry.
abbrev pub file_of : Entry → GitChangedFile
file_of (Entry.ordinary x y fs path) = with_status x y path []
file_of (Entry.unmerged x y fs h2 h3 path) = with_status x y (fields_text (h2 ∷ h3 ∷ []) path) []
file_of (Entry.renamed x y fs path previous) = with_status x y path previous
file_of (Entry.untracked path) = record {
  path = trim_space path;
  previous_path = [];
  kind = codes "untracked";
  index_status = codes "?";
  worktree_status = codes "?";
}

parse_pair :
    (x y : ℕ)
    → is_space x ≡ false
    → is_space y ≡ false
    → parse_git_status_pair (x ∷ y ∷ []) ≡ (git_status_rune x, git_status_rune y)
unfolding parse_git_status_pair
parse_pair x y hx hy = rw (trim_space-stays x y [] (y ∷ []) [] hx hy refl) refl

entry_fields-fields_text :
    (tag : ℕ) (x y : ℕ) (fs : List Text) (last : Text) (n : ℕ)
    → AreWords x y fs n
    → (tag == 32) ≡ false
    → entry_fields (fields_text ((tag ∷ []) ∷ (x ∷ y ∷ []) ∷ fs) last) (suc (suc n))
      ≡ ok (x ∷ y ∷ [], last)
unfolding entry_fields nth any_code has_code
entry_fields-fields_text tag x y fs last n (hx, (hy, (words, count))) ht =
    rw (← count) (
      rw (split_n-fields_text ((tag ∷ []) ∷ (x ∷ y ∷ []) ∷ fs) last no_space, nth_last fs last)
        refl)
  where
    no_space : any_code 32 ((tag ∷ []) ∷ (x ∷ y ∷ []) ∷ fs) ≡ false
    no_space = ground (arith, words)

split-closed_records :
    (rs : List Text) (rest : Text)
    → any_code 0 rs ≡ false
    → split 0 (closed_records rs rest) ≡ rs ++ split 0 rest
unfolding closed_records any_code
split-closed_records [] rest h = refl
split-closed_records (r ∷ rs) rest h =
    split-found 0 r (closed_records rs rest) (ground (arith, h))
    ∙ ap (λ parts. r ∷ parts) (split-closed_records rs rest (ground (arith, h)))

-- The records that the parser goes through: those of the entries, and an empty one.
all_records : List Entry → List Text
all_records [] = [] ∷ []
all_records (e ∷ es) = records_of e ++ all_records es

split-porcelain : (es : List Entry) → AreEntries es → split 0 (porcelain es) ≡ all_records es
unfolding porcelain all_records split
split-porcelain [] h = refl
split-porcelain (e ∷ es) (shape, (clean, more)) =
    split-closed_records (records_of e) (porcelain es) clean
    ∙ ap (λ parts. records_of e ++ parts) (split-porcelain es more)

untracked_named :
    (path : Text)
    → is_empty path ≡ false
    → untracked_entry path
      ≡ ok (record {
        path = path;
        previous_path = [];
        kind = codes "untracked";
        index_status = codes "?";
        worktree_status = codes "?";
      })
unfolding untracked_entry
untracked_named [] h = absurd (ground (arith, h))
untracked_named (c ∷ path) h = refl

-- The records are never used up: an empty one is left.
records_left :
    (es : List Entry) → (next : Text) × ((more : List Text) × (all_records es ≡ next ∷ more))
unfolding all_records records_of
records_left [] = ([], ([], refl))
records_left (Entry.ordinary x y fs path ∷ es) = (_, (_, refl))
records_left (Entry.unmerged x y fs h2 h3 path ∷ es) = (_, (_, refl))
records_left (Entry.renamed x y fs path previous ∷ es) = (_, (_, refl))
records_left (Entry.untracked path ∷ es) = (_, (_, refl))

-- One entry, in front of records of which there is one at least.
parse_records_entry :
    (e : Entry) (next : Text) (more : List Text) (files : List GitChangedFile)
    → HasShape e
    → parse_records (next ∷ more) ≡ ok files
    → parse_records (records_of e ++ (next ∷ more)) ≡ ok (file_of e ∷ files)
unfolding parse_records records_of has_prefix changed_file fields_text
parse_records_entry (Entry.ordinary x y fs path) next more files h rest =
    rw (entry_fields-fields_text b'1' x y fs path 6 h refl, rest, parse_pair x y h.0 h.1.0) refl
parse_records_entry (Entry.unmerged x y fs h2 h3 path) next more files h rest =
    rw
      (
        entry_fields-fields_text b'u' x y fs (fields_text (h2 ∷ h3 ∷ []) path) 6 h refl,
        rest,
        parse_pair x y h.0 h.1.0,
      )
      refl
parse_records_entry (Entry.renamed x y fs path previous) next more files h rest =
    rw (entry_fields-fields_text b'2' x y fs path 7 h refl, rest, parse_pair x y h.0 h.1.0) refl
parse_records_entry (Entry.untracked path) next more files h rest =
    rw (untracked_named (trim_space path) h, rest) refl

parse_all_records :
    (es : List Entry) → AreEntries es → parse_records (all_records es) ≡ ok (map file_of es)
unfolding all_records parse_records has_prefix
parse_all_records [] h = refl
parse_all_records (e ∷ es) (shape, (clean, more)) =
    let (next, (behind, left)) = records_left es in
    ap (λ rest. parse_records (records_of e ++ rest)) left
    ∙ parse_records_entry e next behind (map file_of es) shape
        (ap parse_records (sym left) ∙ parse_all_records es more)

closed_records-written :
    (r rest : Text) (rs : List Text) → is_empty (closed_records (r ∷ rs) rest) ≡ false
unfolding closed_records
closed_records-written [] rest rs = refl
closed_records-written (c ∷ r) rest rs = refl

porcelain_written : (e : Entry) (es : List Entry) → is_empty (porcelain (e ∷ es)) ≡ false
unfolding porcelain records_of
porcelain_written (Entry.ordinary x y fs path) es = closed_records-written _ _ []
porcelain_written (Entry.unmerged x y fs h2 h3 path) es = closed_records-written _ _ []
porcelain_written (Entry.renamed x y fs path previous) es =
    closed_records-written _ _ (previous ∷ [])
porcelain_written (Entry.untracked path) es = closed_records-written _ _ []

-- parseGitChangedFiles reads back every entry that git writes: ordinary and renamed files with their
-- statuses and paths, untracked files with their path trimmed, and of an unmerged file the path with the
-- object names of its second and third stages in front.
pub parse-porcelain :
    (es : List Entry) → AreEntries es → parse_git_changed_files (porcelain es) ≡ ok (map file_of es)
unfolding parse_git_changed_files porcelain
parse-porcelain [] h = refl
parse-porcelain (e ∷ es) h =
    rw (porcelain_written e es)
      (ap parse_records (split-porcelain (e ∷ es) h) ∙ parse_all_records (e ∷ es) h)
