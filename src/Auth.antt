-- ===== src/Auth.antt =====
-- internal/auth/auth.go: principals, the static authenticator and the quota of mutating requests.
-- Maps are functions; the clock of the enforcer is the argument `now`, in nanoseconds; `hash_token`
-- stands for hex.EncodeToString of sha256.Sum256. What a lock protects is one step.
pub mod Quota
use veriproc.Prelude.{
  ℕ, suc, ◌+◌, ◌*◌, ◌^◌, String, Bool, true, false, ◌||◌, ◌==◌, List, [], ◌∷◌, ◌++◌, Option, none,
  some, if◌then◌else◌, eqb, ltb, leb,
}
use veriproc.Prelude.Lists.{length}
use veriproc.Prelude.Text.{Text, codes, same_text, trim_space}
use veriproc.Store.Records.{Time}
use veriproc.Store.Table.{select}

pub data Role : Type 0 where
  reader operator : Role

-- A quota that is not positive is 0.
pub record Principal : Type 0 where
  pub subject : String
  pub role : Role
  pub quota_per_minute : ℕ

unfoldable pub is_mutator : String → Bool
is_mutator method = method == "POST" || method == "PUT" || method == "PATCH" || method == "DELETE"

pub data Answer : Type 0 where
  accepted : Principal → Answer
  missing_credentials invalid_token : Answer

abbrev pub known_or_invalid : Option Principal → Answer
known_or_invalid none = invalid_token
known_or_invalid (some p) = accepted p

module _ (hash_token : Text → Text) where
  -- StaticAuthenticator.Authenticate
  unfoldable pub authenticate : (Text → Option Principal) → Text → Answer
  authenticate by_hash token =
      if same_text (trim_space token) []
      then missing_credentials
      else known_or_invalid (by_hash (hash_token (trim_space token)))

  -- StaticAuthenticator.AddToken
  unfoldable pub add_token : (Text → Option Principal) → Text → Principal → Text → Option Principal
  add_token by_hash token p hash =
      if same_text hash (hash_token token) then some p else by_hash hash

-- QuotaEnforcer.windows
abbrev pub Windows : Type 0
Windows = String → List Time

-- time.Minute
abbrev pub minute : Time
minute = 60 * 10 ^ 9

-- t.After(now.Add(-time.Minute))
abbrev pub is_recent : Time → Time → Bool
is_recent now t = ltb now (t + minute)

abbrev pub prune : Time → List Time → List Time
prune now times = select (is_recent now) times

abbrev pub set_window : String → List Time → Windows → Windows
set_window subject times windows other = if subject == other then times else windows other

-- QuotaEnforcer.Allow, with the windows that it leaves
unfoldable pub allow : Principal → Time → Windows → Bool × Windows
allow p now windows =
    let pruned = prune now (windows p.subject) in
    if eqb p.quota_per_minute 0
    then (true, windows)
    else if leb p.quota_per_minute (length pruned)
    then (false, set_window p.subject pruned windows)
    else (true, set_window p.subject (pruned ++ now ∷ []) windows)
