-- ===== src/Terminal/Isolation.antt =====
-- What closing shells leaves of other users (DeleteShell and CloseMachineSessions of
-- internal/browserterm/manager.go).
use fascinate.Base.{
  ◌≡◌, refl, ap, ◌∙◌, false, ◌||◌, some, List, [], ◌∷◌, arith, Bool-cases, inl, inr,
}
use fascinate.Base.Text.{Text, text_eq, trim_space, equal_fold, is_empty, eq_of_text_eq}
use fascinate.Base.Text.Trim.{trim_space_idem}
use fascinate.Result.{Error, ok, err, Result-cases}
use fascinate.Database.Records.{World, ShellRecord}
use fascinate.Database.Monad.{statement}
use fascinate.Database.Effect.{
  KeepsTo, IsEffect, lift-KeepsTo, if-KeepsTo, seq-KeepsTo, bind-KeepsTo, Same-KeepsTo,
}
use fascinate.Database.Frame.{Same}
use fascinate.Database.Shells.{find_shell, mark_shell_deleted, list_shells}
use fascinate.Terminal.{TerminalService, FindsMachines}
use fascinate.Terminal.Shells.{load_shell}
use fascinate.Terminal.Close.{
  delete_loaded_shell, gone_is_ok, delete_shell, delete_shells_on, close_machine_sessions,
}
use fascinate.Terminal.Tokens.{find_shell_sound}
use fascinate.Terminal.Opening.{load_shell_sound}
use fascinate.Terminal.Closing.{
  end_shell_terminals, mark_shell_deleted_shells, load_shell_owner, load_shell-Same,
  find-update_other,
}

-- The shell q is open and belongs to someone else than the address.
pub record OfAnother (email j : Text) (q : ShellRecord) (w : World) : Type 0 where
  pub row : find_shell j w.terminals.shells ≡ some q
  pub owner : equal_fold (trim_space q.user_email) (trim_space email) ≡ false

OfAnother-moved :
    (email j : Text) (q : ShellRecord) (w v : World)
    → v.terminals.shells ≡ w.terminals.shells
    → OfAnother email j q w
    → OfAnother email j q v
OfAnother-moved email j q w v same o = record {
  row = ap (find_shell j) same ∙ o.row;
  owner = o.owner;
}

list_shells-Same : (email : Text) (w : World) → Same w (list_shells email w).1
unfolding list_shells statement
list_shells-Same email w = ground arith

abbrev KeepsOthers : Text → World → World → Type 0
KeepsOthers email w v = (j : Text) (q : ShellRecord) → OfAnother email j q w → OfAnother email j q v

KeepsOthers-IsEffect : (email : Text) → IsEffect (KeepsOthers email)
KeepsOthers-IsEffect email = record {
  same = λ w v same j q o. OfAnother-moved email j q w v (ap (λ t. t.shells) same.terminals_eq) o;
  chain = λ u v w f g j q o. g j q (f j q o);
  log = λ w c es j q o. OfAnother-moved email j q w _ refl o;
}

module _ (s : TerminalService) (laws : FindsMachines s) where
  delete_loaded_shell_shells :
      (r : ShellRecord) (w : World)
      → (delete_loaded_shell s r w).1.terminals.shells
        ≡ (mark_shell_deleted r.id w).1.terminals.shells
  unfolding delete_loaded_shell
  delete_loaded_shell_shells r w =
      ground (arith, end_shell_terminals s laws r (mark_shell_deleted r.id w).1)

  delete_loaded_shell-OfAnother :
      (email j : Text) (q r : ShellRecord) (w : World)
      → text_eq (trim_space r.id) j ≡ false
      → OfAnother email j q w
      → OfAnother email j q (delete_loaded_shell s r w).1
  delete_loaded_shell-OfAnother email j q r w other o = elim (mark_shell_deleted_shells r.id w) [
    | inl same ↦ OfAnother-moved email j q w _ (delete_loaded_shell_shells r w ∙ same) o
    | inr marked ↦ record {
      row =
          ap (find_shell j) (delete_loaded_shell_shells r w ∙ marked)
          ∙ find-update_other (trim_space r.id) j w.terminals.shells other
          ∙ o.row;
      owner = o.owner;
    }
  ]

  gone_is_ok_world : (e : Error) (w : World) → (gone_is_ok e w).1 ≡ w
  unfolding gone_is_ok
  gone_is_ok_world e w = ground arith

  delete_shell_refused :
      (email i : Text) (w : World) (x : Error)
      → (load_shell i email w).0 ≡ err x
      → (delete_shell s email i w).1 ≡ (load_shell i email w).1
  unfolding delete_shell
  delete_shell_refused email i w x refused =
      ground (arith, gone_is_ok_world x (load_shell i email w).1)

  delete_shell_loads :
      (email i : Text) (w : World) (r : ShellRecord)
      → (load_shell i email w).0 ≡ ok r
      → (delete_shell s email i w).1 ≡ (delete_loaded_shell s r (load_shell i email w).1).1
  unfolding delete_shell
  delete_shell_loads email i w r own = ground arith

  -- DeleteShell leaves the open shells of other users as they are, on every path.
  pub delete_shell-OfAnother :
      (email i j : Text) (q : ShellRecord) (w : World)
      → OfAnother email j q w
      → OfAnother email j q (delete_shell s email i w).1
  delete_shell-OfAnother email i j q w o = elim (Result-cases (load_shell i email w).0) [
    | inr (x, refused) ↦ rw (delete_shell_refused email i w x refused) o1
    | inl (r, own) ↦
        let (row, same) = load_shell_sound i email w w1 r (ground (arith, own)) in
        let id_eq : r.id ≡ trim_space (trim_space i) =
          (find_shell_sound _ w.terminals.shells r row).0 in
        let trimmed : trim_space r.id ≡ trim_space (trim_space i) =
          ap trim_space id_eq ∙ trim_space_idem (trim_space i) in
        let mine = load_shell_owner i email w w1 r (ground (arith, own)) in
        rw (delete_shell_loads email i w r own) (
          delete_loaded_shell-OfAnother email j q r w1
            (elim (Bool-cases (text_eq (trim_space r.id) j)) [
              | inr other ↦ other
              | inl at ↦ absurd (
                  ground (
                    arith,
                    eq_of_text_eq (trim_space r.id) j at,
                    trimmed,
                    row,
                    mine,
                    o.row,
                    o.owner,
                  ))
            ])
            o1)
  ]
    where
      w1 : World
      w1 = (load_shell i email w).1

      o1 : OfAnother email j q w1
      o1 =
          OfAnother-moved email j q w w1
            (ap (λ t. t.shells) (load_shell-Same i email w).terminals_eq) o

  delete_shell-KeepsTo : (email i : Text) → KeepsTo (KeepsOthers email) (delete_shell s email i)
  delete_shell-KeepsTo email i = record { step = λ w j q o. delete_shell-OfAnother email i j q w o }

  delete_shells_on-KeepsTo :
      (email target : Text) (rows : List ShellRecord)
      → KeepsTo (KeepsOthers email) (delete_shells_on s email target rows)
  unfolding delete_shells_on
  delete_shells_on-KeepsTo email target [] = record { step = λ w j q o. o }
  delete_shells_on-KeepsTo email target (r ∷ rest) =
      let others = delete_shells_on-KeepsTo email target rest in
      if-KeepsTo (KeepsOthers-IsEffect email) (text_eq (trim_space r.machine_name) target)
        (seq-KeepsTo (KeepsOthers-IsEffect email) (delete_shell-KeepsTo email r.id) others) others

  -- CloseMachineSessions leaves the open shells of other users as they are, on every path.
  pub close_machine_sessions-OfAnother :
      (email name j : Text) (q : ShellRecord) (w : World)
      → OfAnother (trim_space email) j q w
      → OfAnother (trim_space email) j q (close_machine_sessions s email name w).1
  unfolding close_machine_sessions
  close_machine_sessions-OfAnother email name j q w o =
      let e = KeepsOthers-IsEffect (trim_space email) in
      (if-KeepsTo e (is_empty (trim_space email) || is_empty (trim_space name))
          (lift-KeepsTo e (ok tt))
          (bind-KeepsTo e
            (Same-KeepsTo e (list_shells (trim_space email)) (list_shells-Same (trim_space email)))
            (λ found. delete_shells_on-KeepsTo (trim_space email) (trim_space name) found))).step
        w j q o
