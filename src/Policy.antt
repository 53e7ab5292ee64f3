-- ===== src/Policy.antt =====
-- internal/policy/policy.go: the ids of tasks. `format` stands for the layout
-- 20060102T150405.000 of package time without its dot.
pub mod TaskId
use Prim.Native.Char.{Char, code}
use Prim.Native.String
use veriproc.Prelude.{
  ℕ, suc, ◌-◌, String, Bool, true, false, not, ◌&&◌, ◌||◌, List, [], ◌∷◌, ◌++◌, Option, none, some,
  eqb, leb, ltb, if◌then◌else◌, ◌==◌,
}
use veriproc.Prelude.Lists.{length}
use veriproc.Prelude.Text.{Text, codes, same_text, drop}
use veriproc.Store.Records.{Time}

unfoldable pub take : ℕ → Text → Text
take ℕ.zero s = []
take (suc n) [] = []
take (suc n) (c ∷ s) = c ∷ take n s

abbrev pub is_digit : ℕ → Bool
is_digit c = leb b'0' c && leb c b'9'

abbrev pub is_lower_hex : ℕ → Bool
is_lower_hex c = leb b'a' c && leb c b'f' || is_digit c

abbrev pub repeat : ℕ → (ℕ → Bool) → List (ℕ → Bool) → List (ℕ → Bool)
repeat ℕ.zero c rest = rest
repeat (suc n) c rest = c ∷ repeat n c rest

-- One class of characters for each position.
unfoldable pub matches : List (ℕ → Bool) → Text → Bool
matches [] [] = true
matches (c ∷ cs) (x ∷ s) = c x && matches cs s
matches _ _ = false

-- [0-9]{8}T[0-9]{6}[0-9]{3}
abbrev pub stamp_classes : List (ℕ → Bool) → List (ℕ → Bool)
stamp_classes rest =
    repeat 8 is_digit ((λ c. eqb c b'T') ∷ repeat 6 is_digit (repeat 3 is_digit rest))

-- The part of taskIDPattern behind the station: it has 26 characters.
abbrev pub tail_classes : List (ℕ → Bool)
tail_classes = (λ c. eqb c b'-') ∷ stamp_classes ((λ c. eqb c b'-') ∷ repeat 6 is_lower_hex [])

-- .+ : some characters, none of which is a newline
unfoldable pub is_line : Text → Bool
is_line [] = true
is_line (c ∷ s) = not (eqb c 10) && is_line s

-- taskIDPattern.FindStringSubmatch: the station of a task id. The pattern's tail has a fixed
-- length, so that the station is what stands in front of it.
unfoldable pub station_of : Text → Option Text
station_of id =
    let n = length id - 26 in
    let station = take n id in
    if ltb 26 (length id) && is_line station && matches tail_classes (drop n id)
    then some station
    else none

-- GenerateTaskID
unfoldable pub generate_task_id : (Time → String) → String → Time → String → String
generate_task_id format station created hex6 =
    String.◌++◌ station (String.◌++◌ "-" (String.◌++◌ (format created) (String.◌++◌ "-" hex6)))

abbrev pub is_station : Text → Option Text → Bool
is_station wanted none = false
is_station wanted (some station) = same_text wanted [] || same_text station wanted

-- ValidateTaskID finds nothing to object to.
unfoldable pub validate_task_id : String → String → Bool
validate_task_id id station =
    not (id == "")
    && (station == "" || not (id == station))
    && is_station (codes station) (station_of (codes id))

abbrev pub or_empty : Option Text → Text
or_empty none = []
or_empty (some station) = station

-- TaskIDStationPrefix
unfoldable pub station_prefix : String → Text
station_prefix id = or_empty (station_of (codes id))
