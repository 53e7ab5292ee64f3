-- ===== src/Executor/Slurm.antt =====
-- internal/executor/slurm.go: what the executor reads in the output of sbatch and sacct. Texts are
-- lists of code points; `completed_with` stands for the message that fmt.Sprintf makes of the exit
-- code. An `int` has 64 bits.
pub mod Succeeded
use Prim.Native.Nat.{◌-◌}
use veriproc.Prelude.{
  ℕ, zero, suc, ◌+◌, ◌*◌, ◌^◌, Bool, true, false, not, ◌&&◌, ◌||◌, List, [], ◌∷◌, ◌++◌, Option,
  none, some, if◌then◌else◌, eqb, leb, ltb,
}
use veriproc.Prelude.Text.{Text, codes, same_text, has_prefix, split, trim_space}
use veriproc.Store.Records.{Time}
use veriproc.Executor.{Status, unknown, queued, running, succeeded, failed, cancelled}

pub data ℤ : Type 0 where
  pos negsuc : ℕ → ℤ

abbrev pub is_digit : ℕ → Bool
is_digit c = leb b'0' c && leb c b'9'

abbrev pub value : ℕ → Text → Option ℕ
value n [] = some n
value n (c ∷ s) = let rest = value (n * 10 + (c - b'0')) s in if is_digit c then rest else none

-- Digits, one at least.
abbrev pub digits : Text → Option ℕ
digits [] = none
digits (c ∷ s) = value 0 (c ∷ s)

abbrev pub positive : Option ℕ → Option ℤ
positive none = none
positive (some n) = if ltb n (2 ^ 63) then some (pos n) else none

abbrev pub negative : Option ℕ → Option ℤ
negative none = none
negative (some zero) = some (pos 0)
negative (some (suc n)) = if ltb n (2 ^ 63) then some (negsuc n) else none

-- strconv.Atoi
unfoldable pub atoi : Text → Option ℤ
atoi [] = none
atoi (c ∷ s) =
    if eqb c b'-'
    then negative (digits s)
    else if eqb c b'+'
    then positive (digits s)
    else positive (digits (c ∷ s))

abbrev pub or_zero : Option ℤ → ℤ
or_zero none = pos 0
or_zero (some n) = n

-- The first part of a split text, and the parts after it.
abbrev pub first : List Text → Text
first [] = []
first (part ∷ parts) = part

abbrev pub rest_of : List Text → List Text
rest_of [] = []
rest_of (part ∷ parts) = parts

-- parseSlurmExitCode
unfoldable pub parse_slurm_exit_code : Text → ℤ
parse_slurm_exit_code field =
    if same_text field [] then pos 0 else or_zero (atoi (trim_space (first (split b':' field))))

-- strings.ToUpper on what becomes an ASCII letter; another letter is left as it is, which no
-- comparison with ASCII text sees.
abbrev pub upper : ℕ → ℕ
upper c =
    if leb b'a' c && leb c b'z'
    then c - 32
    else if eqb c 305
    then b'I'
    else if eqb c 383
    then b'S'
    else c

abbrev pub to_upper : Text → Text
to_upper [] = []
to_upper (c ∷ s) = upper c ∷ to_upper s

abbrev pub to_lower : Text → Text
to_lower [] = []
to_lower (c ∷ s) = (if leb b'A' c && leb c b'Z' then c + 32 else c) ∷ to_lower s

abbrev pub among : Text → List Text → Bool
among s [] = false
among s (t ∷ ts) = same_text s t || among s ts

abbrev pub waiting : List Text
waiting =
    codes "PENDING"
    ∷ codes "CONFIGURING"
    ∷ codes "REQUEUED"
    ∷ codes "RESIZING"
    ∷ codes "SUSPENDED"
    ∷ []

abbrev pub active : List Text
active = codes "RUNNING" ∷ codes "COMPLETING" ∷ []

abbrev pub ended_badly : List Text
ended_badly =
    codes "FAILED"
    ∷ codes "TIMEOUT"
    ∷ codes "NODE_FAIL"
    ∷ codes "OUT_OF_MEMORY"
    ∷ codes "BOOT_FAIL"
    ∷ codes "DEADLINE"
    ∷ codes "PREEMPTED"
    ∷ []

abbrev pub is_zero : ℤ → Bool
is_zero (pos n) = eqb n 0
is_zero (negsuc n) = false

-- parseSbatchID
unfoldable pub parse_sbatch_id : Text → Text
parse_sbatch_id stdout =
    if same_text (trim_space stdout) []
    then []
    else trim_space (first (split b';' (first (split 10 (trim_space stdout)))))

pub record SacctObservation : Type 0 where
  pub status : Status
  pub observed_at : Time
  pub exit_code : ℤ
  pub failure_msg : Text
  pub native_state : Text
  pub node : Text
  pub elapsed : Text

module _ (completed_with : ℤ → Text) where
  -- mapSlurmState, of the upper-case state and the parsed exit code: the status and the message.
  unfoldable pub status_of : Text → ℤ → Status × Text
  status_of state code =
      if among state waiting
      then (queued, [])
      else if among state active
      then (running, [])
      else if same_text state (codes "COMPLETED")
      then (if is_zero code then (succeeded, []) else (failed, completed_with code))
      else if among state ended_badly
      then (failed, codes "slurm job " ++ to_lower state)
      else if has_prefix state (codes "CANCELLED")
      then (cancelled, codes "slurm job cancelled")
      else (unknown, [])

  -- mapSlurmState
  abbrev pub map_slurm_state : Text → Text → Status × (ℤ × Text)
  map_slurm_state state field =
      let code = parse_slurm_exit_code field in
      let (status, failure) = status_of (to_upper (trim_space state)) code in
      (status, (code, failure))

  abbrev pub node_of : Text → Text
  node_of field = if same_text field (codes "None assigned") then [] else field

  abbrev pub of_fields : Text → List Text → Time → SacctObservation
  of_fields line fields at =
      let (status, (code, failure)) =
        map_slurm_state (trim_space (first fields)) (trim_space (first (rest_of fields))) in
      record {
        status = status;
        observed_at = at;
        exit_code = code;
        failure_msg = failure;
        native_state = line;
        node = node_of (trim_space (first (rest_of (rest_of (rest_of fields)))));
        elapsed = trim_space (first (rest_of (rest_of fields)));
      }

  -- The loop of parseSacctObservation
  unfoldable pub of_lines : List Text → Time → SacctObservation
  of_lines [] at = record {
    status = unknown;
    observed_at = at;
    exit_code = pos 0;
    failure_msg = [];
    native_state = codes "UNKNOWN";
    node = [];
    elapsed = [];
  }
  of_lines (line ∷ lines) at =
      let later = of_lines lines at in
      if same_text (trim_space line) []
      then later
      else of_fields (trim_space line) (split b'|' (trim_space line)) at

  -- parseSacctObservation
  unfoldable pub parse_sacct_observation : Text → Time → SacctObservation
  parse_sacct_observation stdout at = of_lines (split 10 stdout) at
