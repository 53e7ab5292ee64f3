-- ===== src/Executor/Slurm/Succeeded.antt =====
-- When a job is taken to have succeeded.
use veriproc.Prelude.{
  Bool, true, false, List, [], ◌∷◌, ◌≡◌, refl, ap, sym, arith, ◌||◌, if◌then◌else◌,
}
use veriproc.Prelude.Text.{Text, same_text_refl, codes, same_text, has_prefix, split, trim_space}
use veriproc.Store.Records.{Time}
use veriproc.Executor.{Status, succeeded, failed}
use veriproc.Executor.Slurm.{
  ℤ, pos, negsuc, is_zero, to_upper, first, status_of, SacctObservation, of_fields, of_lines,
  rest_of, parse_slurm_exit_code, parse_sacct_observation, among, waiting, active, ended_badly,
}

abbrev pub trimmed : List Text → List Text
trimmed [] = []
trimmed (line ∷ lines) = trim_space line ∷ trimmed lines

-- The observation is of one of the lines, which holds the state COMPLETED, and the exit code is read
-- as 0.
pub record IsCompleted (lines : List Text) (o : SacctObservation) : Type 0 where
  observed : among o.native_state (trimmed lines) ≡ true
  state :
      same_text
        (to_upper (trim_space (trim_space (first (split b'|' o.native_state)))))
        (codes "COMPLETED")
      ≡ true
  exit_code : o.exit_code ≡ pos 0

zero_code : (n : ℤ) → is_zero n ≡ true → n ≡ pos 0
zero_code (pos n) h = ap pos (ground (arith, h))
zero_code (negsuc n) h = ground arith

module _ {P : Type 0} where
  -- A property that both branches of a test give where they report success.
  of_branches :
      (b : Bool) (here there : Status × Text)
      → (here.0 ≡ succeeded → P)
      → (there.0 ≡ succeeded → P)
      → (if b then here else there).0 ≡ succeeded
      → P
  of_branches true here there f g h = f h
  of_branches false here there f g h = g h

of_observations :
    {lines : List Text} (b : Bool) (here there : SacctObservation)
    → (here.status ≡ succeeded → IsCompleted lines here)
    → (b ≡ false → there.status ≡ succeeded → IsCompleted lines there)
    → (if b then here else there).status ≡ succeeded
    → IsCompleted lines (if b then here else there)
of_observations true here there f g h = f h
of_observations false here there f g h = g refl h

module _ (completed_with : ℤ → Text) where
  completed :
      (b c : Bool) (code : ℤ) (rest : Status × Text)
      → c ≡ is_zero code
      → (rest.0 ≡ succeeded → (b ≡ true) × (code ≡ pos 0))
      → (if b then (if c then (succeeded, []) else (failed, completed_with code)) else rest).0
        ≡ succeeded
      → (b ≡ true) × (code ≡ pos 0)
  completed true true code rest e f h = (refl, zero_code code (sym e))
  completed true false code rest e f h = ground arith
  completed false c code rest e f h = f h

  status_of-completed :
      (state : Text) (code : ℤ)
      → (status_of completed_with state code).0 ≡ succeeded
      → (same_text state (codes "COMPLETED") ≡ true) × (code ≡ pos 0)
  unfolding status_of
  status_of-completed state code =
      of_branches (among state waiting) _ _ (λ h. ground arith)
        (of_branches (among state active) _ _ (λ h. ground arith)
          (completed (same_text state (codes "COMPLETED")) (is_zero code) code _ refl (
            of_branches (among state ended_badly) _ _ (λ h. ground arith)
              (of_branches (has_prefix state (codes "CANCELLED")) _ _ (λ h. ground arith)
                (λ h. ground arith)))))

  of_lines-IsCompleted :
      (lines : List Text) (at : Time)
      → (of_lines completed_with lines at).status ≡ succeeded
      → IsCompleted lines (of_lines completed_with lines at)
  unfolding of_lines
  of_lines-IsCompleted [] at h = ground arith
  of_lines-IsCompleted (line ∷ lines) at h =
      of_observations (same_text (trim_space line) []) (of_lines completed_with lines at)
        (of_fields completed_with (trim_space line) (split b'|' (trim_space line)) at)
        (λ k. later (of_lines-IsCompleted lines at k))
        (λ filled k.
          let both =
            status_of-completed
              (to_upper (trim_space (trim_space (first (split b'|' (trim_space line))))))
              (parse_slurm_exit_code (trim_space (first (rest_of (split b'|' (trim_space line))))))
              k in
          record {
            observed = rw (same_text_refl (trim_space line)) refl;
            state = both.0;
            exit_code = both.1;
          })
        h
    where
      later : {o : SacctObservation} → IsCompleted lines o → IsCompleted (line ∷ lines) o
      later c = record {
        observed = further _ _ c.observed;
        state = c.state;
        exit_code = c.exit_code;
      }
        where
          further : (b c : Bool) → c ≡ true → (b || c) ≡ true
          further b c h = ground (arith, h)

  -- Where the output of sacct is read as success, the observation is of one of its lines,
  -- trimmed, the state in that line is COMPLETED, in letters of any case, and the exit code that
  -- is read from it is 0.
  pub parse_sacct_observation-IsCompleted :
      (stdout : Text) (at : Time)
      → (parse_sacct_observation completed_with stdout at).status ≡ succeeded
      → IsCompleted (split 10 stdout) (parse_sacct_observation completed_with stdout at)
  unfolding parse_sacct_observation
  parse_sacct_observation-IsCompleted stdout = of_lines-IsCompleted (split 10 stdout)
