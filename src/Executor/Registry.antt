-- ===== src/Executor/Registry.antt =====
-- internal/executor/registry.go: the executors of an instance by their type names.
use veriproc.Prelude.{String, ◌==◌, Option, none, some, if◌then◌else◌}
use veriproc.Prelude.Errors.{Result, ok, err, no_executor}
use veriproc.Prelude.Maps.{Assoc, lookup}
use veriproc.Executor.{Executor}

pub record Registry (S : Type 0) : Type 0 where
  pub executors : Assoc (Executor S)
  pub default_key : String

module _ {S : Type 0} where
  abbrev configured : Option (Executor S) → Result (Executor S)
  configured none = err no_executor
  configured (some e) = ok e

  -- Registry.Resolve; `normalize` is strings.ToLower followed by strings.TrimSpace
  unfoldable pub resolve : (String → String) → Registry S → String → Result (Executor S)
  unfolding lookup
  resolve normalize r mode =
      let key = normalize mode in
      if key == ""
      then if r.default_key == ""
        then err no_executor
        else configured (lookup r.default_key r.executors)
      else configured (lookup key r.executors)
