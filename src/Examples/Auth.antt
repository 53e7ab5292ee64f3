-- ===== src/Examples/Auth.antt =====
-- A principal with a quota of two that sends three requests, beside another subject.
use veriproc.Prelude.{ℕ, ◌≤◌, String, List, [], ◌∷◌, ◌≡◌, refl, arith}
use veriproc.Auth.{Principal, Role, allow}
use veriproc.Auth.Quota.{Request, recent, nobody, serve, serve_all, serve_all-recent}

abbrev client : String → Principal
client name = record { subject = name; role = Role.operator; quota_per_minute = 2 }

abbrev at_time : String → ℕ → Request
at_time name t = record { principal = client name; at = t }

abbrev requests : List Request
requests = at_time "ann" 1 ∷ at_time "bob" 1 ∷ at_time "ann" 2 ∷ at_time "ann" 3 ∷ []

-- The third request of the subject is refused.
served : (serve_all "ann" requests nobody).admitted ≡ 1 ∷ 2 ∷ []
unfolding serve_all serve allow
served = refl

serve_all-recent_example : recent 3 (serve_all "ann" requests nobody).admitted ≤ 2
serve_all-recent_example =
    serve_all-recent "ann" 2 (omega arith) requests 3
      (omega arith, (omega arith, (omega arith, (omega arith, tt))))
      ((λ h. refl), ((λ h. refl), ((λ h. refl), ((λ h. refl), tt))))
      (omega arith, (omega arith, (omega arith, (omega arith, tt))))
