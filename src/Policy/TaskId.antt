-- ===== src/Policy/TaskId.antt =====
-- A generated task id is valid for its station, and gives the station back.
use veriproc.Prelude.{
  ℕ, ◌+◌, ◌-◌, ◌<◌, String, Bool, true, false, List, [], ◌∷◌, ◌++◌, some, ◌≡◌, ◌≢◌, refl, ap, arith,
  eqb, ltb, ◌==◌, Bool-cases, inl, inr, eq_iff,
}
use veriproc.Prelude.Lists.{length, length-append}
use veriproc.Prelude.Text.Codes.{codes-append}
use veriproc.Prelude.Text.{Text, codes, same_text_refl, drop}
use veriproc.Store.Records.{Time}
use veriproc.Policy.{
  take, matches, stamp_classes, tail_classes, is_lower_hex, repeat, is_line, station_of,
  generate_task_id, validate_task_id, station_prefix,
}

take-append : (s t : Text) → take (length s) (s ++ t) ≡ s
unfolding take
take-append [] t = refl
take-append (c ∷ s) t = ap (◌∷◌ c) (take-append s t)

drop-append : (s t : Text) → drop (length s) (s ++ t) ≡ t
unfolding drop
drop-append [] t = refl
drop-append (c ∷ s) t = drop-append s t

matches-append :
    (cs ds : List (ℕ → Bool)) (s t : Text)
    → matches cs s ≡ true
    → matches ds t ≡ true
    → matches (cs ++ ds) (s ++ t) ≡ true
unfolding matches
matches-append [] ds [] t h k = k
matches-append [] ds (x ∷ s) t h k = absurd (ground arith)
matches-append (c ∷ cs) ds [] t h k = absurd (ground arith)
matches-append (c ∷ cs) ds (x ∷ s) t h k = ground (arith, matches-append cs ds s t)

length-matches : (cs : List (ℕ → Bool)) (s : Text) → matches cs s ≡ true → length s ≡ length cs
unfolding matches
length-matches [] [] h = refl
length-matches [] (x ∷ s) h = absurd (ground arith)
length-matches (c ∷ cs) [] h = absurd (ground arith)
length-matches (c ∷ cs) (x ∷ s) h = ground (arith, length-matches cs s)

pub station_of-append :
    (station rest : Text)
    → station ≢ []
    → is_line station ≡ true
    → matches tail_classes rest ≡ true
    → station_of (station ++ rest) ≡ some station
unfolding station_of
station_of-append station rest ne line tail =
    rw
      (
        length_front,
        take-append station rest,
        drop-append station rest,
        long station ne,
        line,
        tail,
      )
      refl
  where
    size : length rest ≡ 26
    size = length-matches tail_classes rest tail

    length_front : length (station ++ rest) - 26 ≡ length station
    length_front = omega (arith, size, length-append station rest)

    long : (s : Text) → s ≢ [] → ltb 26 (length (s ++ rest)) ≡ true
    long [] ne = absurd (ne refl)
    long (c ∷ s) ne = ground (arith, size, length-append s rest)

-- What package time and randomHex6 return for the two variable parts.
pub record IsShaped (stamp hex6 : String) : Type 0 where
  pub stamp_shape : matches (stamp_classes []) (codes stamp) ≡ true
  pub hex_shape : matches (repeat 6 is_lower_hex []) (codes hex6) ≡ true

module _ (format : Time → String) (station : String) (created : Time) (hex6 : String) where
  abbrev rest_text : Text
  rest_text = (b'-' ∷ []) ++ (codes (format created) ++ ((b'-' ∷ []) ++ codes hex6))

  codes-generate_task_id :
      codes (generate_task_id format station created hex6) ≡ codes station ++ rest_text
  unfolding generate_task_id
  codes-generate_task_id = rw (codes-append, codes-append, codes-append, codes-append) refl

  rest-matches : IsShaped (format created) hex6 → matches tail_classes rest_text ≡ true
  rest-matches h =
      matches-append ((λ c. eqb c b'-') ∷ [])
        (stamp_classes ((λ c. eqb c b'-') ∷ repeat 6 is_lower_hex [])) (b'-' ∷ []) _
        (unfold matches in refl)
        (matches-append (stamp_classes []) ((λ c. eqb c b'-') ∷ repeat 6 is_lower_hex [])
          (codes (format created)) _ h.stamp_shape
          (matches-append ((λ c. eqb c b'-') ∷ []) (repeat 6 is_lower_hex []) (b'-' ∷ [])
            (codes hex6) (unfold matches in refl) h.hex_shape))

  station_of-generate_task_id :
      station ≢ ""
      → is_line (codes station) ≡ true
      → IsShaped (format created) hex6
      → station_of (codes (generate_task_id format station created hex6)) ≡ some (codes station)
  station_of-generate_task_id ne line h =
      rw codes-generate_task_id
        (station_of-append (codes station) rest_text (codes-≢ station ne) line (rest-matches h))
    where
      codes-≢ : (s : String) → s ≢ "" → codes s ≢ []
      codes-≢ String.[] ne h = ne refl
      codes-≢ (String.◌∷◌ c s) ne h = absurd (ground arith)

  differs :
      (other : String)
      → length (codes other) < length (codes station) + 26
      → IsShaped (format created) hex6
      → (generate_task_id format station created hex6 == other) ≡ false
  differs other short h =
      elim (Bool-cases (generate_task_id format station created hex6 == other)) [
        | inr apart ↦ apart
        | inl same ↦ absurd (
            omega (
              arith,
              short,
              ap (λ s. length (codes s))
                  ((eq_iff (generate_task_id format station created hex6) other).0 same),
              ap length codes-generate_task_id,
              length-append (codes station) rest_text,
              length-matches tail_classes rest_text (rest-matches h),
            ))
      ]

  -- A task id generated for a station is valid for that station, and the station is read back
  -- from it, provided that the station is a line of text that is not empty, and that the time
  -- stamp and the suffix have the shapes that package time and the random source give.
  pub validate-generate_task_id :
      station ≢ ""
      → is_line (codes station) ≡ true
      → IsShaped (format created) hex6
      → (validate_task_id (generate_task_id format station created hex6) station ≡ true)
        × (station_prefix (generate_task_id format station created hex6) ≡ codes station)
  unfolding validate_task_id station_prefix
  validate-generate_task_id ne line h =
      let read = station_of-generate_task_id ne line h in
      let named = differs "" (omega arith) h in
      let longer = differs station (omega arith) h in
      (rw (named, longer, read, same_text_refl (codes station)) (ground arith), rw read refl)
