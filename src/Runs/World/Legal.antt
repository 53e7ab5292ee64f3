-- ===== src/Runs/World/Legal.antt =====
-- The preorder of `Store.Legal` between worlds: executors may do anything to their own state.
use veriproc.Prelude.Errors.{Result, ok, err, invalid_transition, conflict}
use veriproc.Prelude.Effects.{Eff}
use veriproc.Prelude.Effects.Within.{
  Within, IsPreorder, within_rules, Within-pure, Within-fail, Within-attempt,
}
use veriproc.Store.Db.{Db}
use veriproc.Store.Legal.{Legal, Legal-preorder, store_rules}
use veriproc.Runs.World.{
  World, on_db, on_exec, map_store_err, tolerate_invalid, unless_conflict, after_map,
  after_tolerated, after_conflict,
}

abbrev pub LegalWorld : {S : Type 0} → World S → World S → Type 0
LegalWorld v w = Legal v.db w.db

pub LegalWorld-preorder : {S : Type 0} → IsPreorder (LegalWorld {S = S})
LegalWorld-preorder = record {
  reflexive = λ w. Legal-preorder.reflexive w.db;
  transitive = λ u v w p q. Legal-preorder.transitive u.db v.db w.db p q;
}

module _ {ℓ} {S : Type 0} {A : Type ℓ} where
  pub Within-on_db : (m : Eff Db A) → Within Legal m → Within (LegalWorld {S = S}) (on_db m)
  unfolding on_db
  Within-on_db m h = record { at = λ w. h.at w.db }

  pub Within-on_exec : (m : Eff S A) → Within LegalWorld (on_exec m)
  unfolding on_exec
  Within-on_exec m = record { at = LegalWorld-preorder.reflexive }

-- The ways to go on after an error keep any preorder.
module _ {ℓ} {S : Type 0} {A : Type ℓ} {R : S → S → Type 0} (o : IsPreorder R) where
  pub Within-map_store_err : (m : Eff S A) → Within R m → Within R (map_store_err m)
  Within-map_store_err m h = Within-attempt o m _ h rest
    where
      rest : (r : Result A) → Within R (after_map r)
      rest (ok a) = Within-pure o a
      rest (err e) = Within-fail o _

  pub Within-tolerate_invalid : (m : Eff S A) → Within R m → Within R (tolerate_invalid m)
  Within-tolerate_invalid m h = Within-attempt o m _ h rest
    where
      rest : (r : Result A) → Within R (after_tolerated r)
      rest (ok a) = Within-pure o tt
      rest (err invalid_transition) = Within-pure o tt
      rest (err e) = Within-fail o _

  pub Within-unless_conflict : (m : Eff S A) → Within R m → Within R (unless_conflict m)
  Within-unless_conflict m h = Within-attempt o m _ h rest
    where
      rest : (r : Result A) → Within R (after_conflict r)
      rest (ok a) = Within-pure o tt
      rest (err conflict) = Within-pure o tt
      rest (err e) = Within-fail o _

pub ruleset legal_rules = (
  within_rules, store_rules, LegalWorld-preorder, Within-on_db, Within-on_exec,
  Within-map_store_err, Within-tolerate_invalid, Within-unless_conflict,
)
