-- ===== src/Groups/Legal.antt =====
-- The calls of the groups service keep what every call of the store keeps.
use veriproc.Prelude.{String}
use veriproc.Prelude.Errors.{Result, ok, err}
use veriproc.Prelude.Effects.Within.{Within, within_rules, Within-attempt, Within-pure, Within-fail}
use veriproc.Store.Records.{Time, SplitGroupRecord}
use veriproc.Store.Legal.{Legal, Legal-preorder, store_rules, get_group-Legal}
use veriproc.Groups.{Tally, get_group, after_get, register_run, aggregate, close}

get_group_or_error-Legal : (id : String) → Within Legal (get_group id)
get_group_or_error-Legal id = Within-attempt Legal-preorder _ _ (get_group-Legal id) rest
  where
    rest : (r : Result SplitGroupRecord) → Within Legal (after_get r)
    rest (ok g) = Within-pure Legal-preorder g
    rest (err e) = Within-fail Legal-preorder _

pub register_run-Legal :
    (group run task role : String) (now : Time)
    → Within Legal (register_run group run task role now)
unfolding register_run
register_run-Legal group run task role now = search (within_rules, store_rules) depth 8

pub aggregate-Legal :
    (summary_of : Tally → String) (id : String) (now : Time)
    → Within Legal (aggregate summary_of id now)
unfolding aggregate
aggregate-Legal summary_of id now =
    search (within_rules, store_rules, get_group_or_error-Legal) depth 8

pub close-Legal :
    (summary_of : Tally → String) (id : String) (now : Time)
    → Within Legal (close summary_of id now)
unfolding close
close-Legal summary_of id now =
    search (within_rules, store_rules, get_group_or_error-Legal, aggregate-Legal) depth 8
