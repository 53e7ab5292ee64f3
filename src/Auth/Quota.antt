-- ===== src/Auth/Quota.antt =====
-- The quota holds for every trailing minute.
use veriproc.Prelude.{
  ℕ, ◌+◌, ◌≤◌, ◌<◌, String, Bool, true, false, ◌==◌, List, [], ◌∷◌, ◌++◌, if◌then◌else◌, ◌≡◌, refl,
  sym, subst, ◌∙◌, arith, eqb, leb, Bool-cases, inl, inr, eq_iff, eq_refl,
}
use veriproc.Prelude.Lists.{length, length-append, All}
use veriproc.Store.Records.{Time}
use veriproc.Store.Table.{affected}
use veriproc.Auth.{Principal, Windows, is_recent, prune, set_window, allow}

pub record Request : Type 0 where
  pub principal : Principal
  pub at : Time

-- How many of the times lie in the minute before `now`.
abbrev pub recent : Time → List Time → ℕ
recent now times = affected (is_recent now) times

-- The windows after some requests, and the times at which those of `subject` were admitted.
pub record Served : Type 0 where
  pub windows : Windows
  pub admitted : List Time

module _ (subject : String) where
  abbrev pub log_if : Bool → Time → List Time → List Time
  log_if true at log = log ++ at ∷ []
  log_if false at log = log

  unfoldable pub serve : Request → Served → Served
  serve r s =
      let (ok, after) = allow r.principal r.at s.windows in
      record {
        windows = after;
        admitted = if r.principal.subject == subject then log_if ok r.at s.admitted else s.admitted;
      }

  unfoldable pub serve_all : List Request → Served → Served
  serve_all [] s = s
  serve_all (r ∷ rs) s = serve_all rs (serve r s)

abbrev pub nobody : Served
nobody = record { windows = λ s. []; admitted = [] }

recent_le : (now : Time) (times : List Time) → recent now times ≤ length times
recent_le now [] = omega arith
recent_le now (t ∷ times) = ground (arith, recent_le now times)

recent-append :
    (now t : Time) (times : List Time)
    → recent now (times ++ t ∷ []) ≡ recent now times + recent now (t ∷ [])
recent-append now t [] = ground arith
recent-append now t (u ∷ times) = ground (arith, recent-append now t times)

-- Pruning drops nothing that a later minute sees.
recent-prune :
    (now later : Time) (times : List Time)
    → now ≤ later
    → recent later (prune now times) ≡ recent later times
recent-prune now later [] h = refl
recent-prune now later (t ∷ times) h = ground (arith, recent-prune now later times h)

-- The times of the requests do not go back.
abbrev pub IsOrdered : Time → List Request → Type 0
IsOrdered from [] = Unit
IsOrdered from (r ∷ rs) = (from ≤ r.at) × IsOrdered r.at rs

-- The principal of a request of the subject has the quota.
abbrev pub HasQuota : String → ℕ → Request → Type 0
HasQuota subject quota r =
    (r.principal.subject == subject) ≡ true → r.principal.quota_per_minute ≡ quota

-- The window of the subject shows later minutes what the whole log would, within the quota.
record IsKept (subject : String) (quota : ℕ) (now : Time) (s : Served) : Type 0 where
  seen : (later : Time) → now ≤ later → recent later (s.windows subject) ≡ recent later s.admitted
  bounded : length (s.windows subject) ≤ quota

length-prune_le : (now : Time) (times : List Time) → length (prune now times) ≤ length times
length-prune_le now [] = omega arith
length-prune_le now (t ∷ times) = ground (arith, length-prune_le now times)

module _ (p : Principal) (now : Time) (windows : Windows) where
  abbrev pruned : List Time
  pruned = prune now (windows p.subject)

  allow_full :
      1 ≤ p.quota_per_minute
      → leb p.quota_per_minute (length pruned) ≡ true
      → allow p now windows ≡ (false, set_window p.subject pruned windows)
  unfolding allow
  allow_full some_quota full = rw (positive p.quota_per_minute some_quota, full) refl
    where
      positive : (n : ℕ) → 1 ≤ n → eqb n 0 ≡ false
      positive n h = ground arith

  allow_free :
      1 ≤ p.quota_per_minute
      → leb p.quota_per_minute (length pruned) ≡ false
      → allow p now windows ≡ (true, set_window p.subject (pruned ++ now ∷ []) windows)
  unfolding allow
  allow_free some_quota free = rw (positive p.quota_per_minute some_quota, free) refl
    where
      positive : (n : ℕ) → 1 ≤ n → eqb n 0 ≡ false
      positive n h = ground arith

  allow_other :
      (subject : String)
      → (p.subject == subject) ≡ false
      → (allow p now windows).1 subject ≡ windows subject
  unfolding allow
  allow_other subject other = elim (Bool-cases (eqb p.quota_per_minute 0)) [
    | inl unlimited ↦ rw unlimited refl
    | inr limited ↦ elim (Bool-cases (leb p.quota_per_minute (length pruned))) [
      | inl full ↦ rw (limited, full, other) refl
      | inr free ↦ rw (limited, free, other) refl
    ]
  ]

module _ (r : Request) (s : Served) (from : Time) (h : from ≤ r.at)
    (limited : 1 ≤ r.principal.quota_per_minute) where
  abbrev own : String
  own = r.principal.subject

  own_served-IsKept :
      IsKept own r.principal.quota_per_minute from s
      → IsKept own r.principal.quota_per_minute r.at (serve own r s)
  unfolding serve
  own_served-IsKept k =
      elim (Bool-cases (leb r.principal.quota_per_minute (length (prune r.at (s.windows own))))) [
        | inl full ↦
            rw (eq_refl own, allow_full r.principal r.at s.windows limited full)
              (record {
                seen = λ later l.
                    rw (eq_refl own)
                      (recent-prune r.at later (s.windows own) l ∙ k.seen later (omega arith));
                bounded =
                    rw (eq_refl own)
                      (omega (arith, k.bounded, length-prune_le r.at (s.windows own)));
              })
        | inr free ↦
            rw (eq_refl own, allow_free r.principal r.at s.windows limited free)
              (record {
                seen = λ later l. rw (eq_refl own) (
                    omega (
                      arith,
                      recent-append later r.at (prune r.at (s.windows own)),
                      recent-append later r.at s.admitted,
                      recent-prune r.at later (s.windows own) l,
                      k.seen later (omega arith),
                    ));
                bounded = rw (eq_refl own) (room (leb→gt free));
              })
      ]
    where
      leb→gt : {m n : ℕ} → leb m n ≡ false → n < m
      leb→gt e = ground arith

      room :
          length (prune r.at (s.windows own)) < r.principal.quota_per_minute
          → length (prune r.at (s.windows own) ++ r.at ∷ []) ≤ r.principal.quota_per_minute
      room lt = omega (arith, lt, length-append (prune r.at (s.windows own)) (r.at ∷ []))

module _ (subject : String) (quota : ℕ) (limited : 1 ≤ quota) where
  serve-IsKept :
      (r : Request) (s : Served) (from : Time)
      → from ≤ r.at
      → HasQuota subject quota r
      → IsKept subject quota from s
      → IsKept subject quota r.at (serve subject r s)
  serve-IsKept r s from h fits k = elim (Bool-cases (r.principal.subject == subject)) [
    | inr other ↦ elsewhere other
    | inl same ↦
        let e : r.principal.subject ≡ subject = (eq_iff r.principal.subject subject).0 same in
        let q : r.principal.quota_per_minute ≡ quota = fits same in
        subst (λ u. IsKept u quota r.at (serve u r s)) e
          (subst (λ n. IsKept r.principal.subject n r.at (serve r.principal.subject r s)) q
            (own_served-IsKept r s from h (rw q limited) (
              subst (λ n. IsKept r.principal.subject n from s) (sym q)
                (subst (λ u. IsKept u quota from s) (sym e) k))))
  ]
    where
      elsewhere :
          (r.principal.subject == subject) ≡ false → IsKept subject quota r.at (serve subject r s)
      elsewhere other =
          unfold serve in
          record {
            seen = λ later l.
                rw (other, allow_other r.principal r.at s.windows subject other)
                  (k.seen later (omega arith));
            bounded = rw (allow_other r.principal r.at s.windows subject other) k.bounded;
          }

  serve_all-IsKept :
      (rs : List Request) (s : Served) (from now : Time)
      → IsOrdered from rs
      → All (HasQuota subject quota) rs
      → All (λ r. r.at ≤ now) rs
      → from ≤ now
      → IsKept subject quota from s
      → recent now (serve_all subject rs s).admitted ≤ quota
  unfolding serve_all
  serve_all-IsKept [] s from now ordered fits past h k =
      omega (arith, k.seen now h, recent_le now (s.windows subject), k.bounded)
  serve_all-IsKept (r ∷ rs) s from now ordered fits past h k =
      serve_all-IsKept rs (serve subject r s) r.at now ordered.1 fits.1 past.1 past.0
        (serve-IsKept r s from ordered.0 fits.0 k)

  -- Whatever requests are made, at times that do not go back, at most the quota of a subject's
  -- requests are admitted in the minute before any time at or after the last one, provided that
  -- every principal of the subject has that positive quota.
  pub serve_all-recent :
      (rs : List Request) (now : Time)
      → IsOrdered 0 rs
      → All (HasQuota subject quota) rs
      → All (λ r. r.at ≤ now) rs
      → recent now (serve_all subject rs nobody).admitted ≤ quota
  serve_all-recent rs now ordered fits past =
      serve_all-IsKept rs nobody 0 now ordered fits past (omega arith)
        (record { seen = λ later h. refl; bounded = omega arith })
