-- ===== src/Examples/Slurm.antt =====
-- The output of sacct for a job with two steps.
use veriproc.Prelude.{◌≡◌, refl}
use veriproc.Prelude.Text.{
  Text, codes, same_text, has_prefix, split, trim_left, trim_right, is_space,
}
use veriproc.Executor.{succeeded}
use veriproc.Executor.Slurm.{
  ℤ, atoi, parse_slurm_exit_code, status_of, of_lines, parse_sacct_observation,
}
use veriproc.Executor.Slurm.Succeeded.{IsCompleted, parse_sacct_observation-IsCompleted}

abbrev message : ℤ → Text
message code = codes "slurm completed"

abbrev output : Text
output = codes "\n COMPLETED|0:0|00:01|n1\nFAILED|1:0|00:01|n1\n"

output_status : (parse_sacct_observation message output 7).status ≡ succeeded
unfolding parse_sacct_observation of_lines status_of parse_slurm_exit_code atoi same_text has_prefix
    split trim_left trim_right is_space
output_status = refl

parse_sacct_observation-IsCompleted_example :
    IsCompleted (split 10 output) (parse_sacct_observation message output 7)
parse_sacct_observation-IsCompleted_example =
    parse_sacct_observation-IsCompleted message output 7 output_status
