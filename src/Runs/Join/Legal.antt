-- ===== src/Runs/Join/Legal.antt =====
-- Contributions to joins keep what every call of the store keeps.
use veriproc.Prelude.{ℕ, String, List, [], ◌∷◌}
use veriproc.Prelude.Effects.Within.{Within, Within-pure}
use veriproc.Store.Records.{Time, RunRecord, TaskRecord, ProvenanceLink}
use veriproc.Store.Legal.{Legal, Legal-preorder}
use veriproc.Runs.World.{Env, Route}
use veriproc.Runs.World.Legal.{LegalWorld, LegalWorld-preorder, legal_rules}
use veriproc.Runs.Join.{
  get_revision, count_arrival, arrive, contribute_to_route, contribute_to_routes,
  contribute_to_join_downstream,
}

pub get_revision-Legal : (id : String) → Within Legal (get_revision id)
unfolding get_revision
get_revision-Legal id = record { at = Legal-preorder.reflexive }

pub count_arrival-Legal : (id : String) (n : ℕ) → Within Legal (count_arrival id n)
unfolding count_arrival
count_arrival-Legal id n = search legal_rules

pub arrive-Legal : (t : TaskRecord) (l : ProvenanceLink) (n : ℕ) → Within Legal (arrive t l n)
unfolding arrive
arrive-Legal t l n = search (legal_rules, count_arrival-Legal) depth 8

module _ {S : Type 0} (env : Env S) where
  contribute_to_route-Legal :
      (run : RunRecord) (task : TaskRecord) (now : Time) (route : Route)
      → Within LegalWorld (contribute_to_route env run task now route)
  unfolding contribute_to_route
  contribute_to_route-Legal run task now route = search (legal_rules, arrive-Legal) depth 8

  contribute_to_routes-Legal :
      (run : RunRecord) (task : TaskRecord) (now : Time) (routes : List Route)
      → Within LegalWorld (contribute_to_routes env run task now routes)
  unfolding contribute_to_routes
  contribute_to_routes-Legal run task now [] = Within-pure LegalWorld-preorder tt
  contribute_to_routes-Legal run task now (route ∷ routes) = search (
    legal_rules,
    contribute_to_route-Legal run task now route,
    contribute_to_routes-Legal run task now routes,
  )

  pub contribute_to_join_downstream-Legal :
      (run : RunRecord) (now : Time) → Within LegalWorld (contribute_to_join_downstream env run now)
  unfolding contribute_to_join_downstream
  contribute_to_join_downstream-Legal run now =
      search (legal_rules, get_revision-Legal, contribute_to_routes-Legal) depth 8
