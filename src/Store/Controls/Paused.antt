-- ===== src/Store/Controls/Paused.antt =====
-- What a station's pause changes.
use veriproc.Prelude.{
  String, Bool, true, false, ◌==◌, List, [], ◌∷◌, ◌++◌, if◌then◌else◌, ◌≡◌, refl, subst, arith,
  eq_iff, eq_refl, Bool-cases, inl, inr,
}
use veriproc.Store.Table.{update, find, exists_row}
use veriproc.Store.Records.{Time, StationControlRecord}
use veriproc.Store.Db.{Db}
use veriproc.Store.Controls.{has_station, or_unpaused, set_paused, get_control, is_paused}

abbrev paused_in : String → List StationControlRecord → Bool
paused_in station rows = (or_unpaused station (find (has_station station) rows)).paused

module _ (station : String) (paused : Bool) (at : Time) where
  abbrev new_row : StationControlRecord
  new_row = record { station_id = station; paused = paused; updated_at = at }

  abbrev updated : StationControlRecord → StationControlRecord
  updated c = record c { paused = paused; updated_at = at }

  own-append :
      (rows : List StationControlRecord)
      → exists_row (has_station station) rows ≡ false
      → paused_in station (rows ++ new_row ∷ []) ≡ paused
  own-append [] h = rw (paused_in, eq_refl station) refl
  own-append (c ∷ rows) h = ground (arith, own-append rows)

  own-update :
      (rows : List StationControlRecord)
      → exists_row (has_station station) rows ≡ true
      → paused_in station (update (has_station station) updated rows) ≡ paused
  own-update [] h = ground arith
  own-update (c ∷ rows) h = ground (arith, own-update rows)

  module _ (other : String) (apart : (station == other) ≡ false) where
    differs : (id : String) → (id == station) ≡ true → (id == other) ≡ false
    differs id h = rw ((eq_iff id station).0 h) apart

    other-append :
        (rows : List StationControlRecord)
        → paused_in other (rows ++ new_row ∷ []) ≡ paused_in other rows
    other-append [] = rw (paused_in, apart) refl
    other-append (c ∷ rows) = ground (arith, other-append rows)

    other-update :
        (rows : List StationControlRecord)
        → paused_in other (update (has_station station) updated rows) ≡ paused_in other rows
    other-update [] = refl
    other-update (c ∷ rows) = ground (arith, other-update rows, differs c.station_id)

-- After the pause of a station is set, once or again, the station is paused just as it was set,
-- and the pause of every other station is what it was.
pub is_paused-set_paused :
    (station other : String) (paused : Bool) (at : Time) (db : Db)
    → is_paused other (set_paused station paused at db).1
      ≡ (if station == other then paused else is_paused other db)
unfolding is_paused get_control set_paused
is_paused-set_paused station other paused at db = elim (Bool-cases (station == other)) [
  | inl same ↦ rw same (subst (λ s. paused_in s rows ≡ paused) ((eq_iff station other).0 same) own)
  | inr apart ↦ rw apart (elsewhere apart)
]
  where
    rows : List StationControlRecord
    rows = (set_paused station paused at db).1.controls

    own : paused_in station rows ≡ paused
    own = elim (Bool-cases (exists_row (has_station station) db.controls)) [
      | inl known ↦ rw known (own-update station paused at db.controls known)
      | inr new ↦ rw new (own-append station paused at db.controls new)
    ]

    elsewhere : (station == other) ≡ false → paused_in other rows ≡ paused_in other db.controls
    elsewhere apart = elim (Bool-cases (exists_row (has_station station) db.controls)) [
      | inl known ↦ rw known (other-update station paused at other apart db.controls)
      | inr new ↦ rw new (other-append station paused at other apart db.controls)
    ]
