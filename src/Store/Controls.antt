-- ===== src/Store/Controls.antt =====
-- internal/store/station_controls.go: the pause of a station.
pub mod Paused
use veriproc.Prelude.{
  String, Bool, true, false, ◌==◌, [], ◌∷◌, ◌++◌, Option, none, some, if◌then◌else◌,
}
use veriproc.Prelude.Errors.{ok}
use veriproc.Prelude.Effects.{Eff}
use veriproc.Store.Table.{update, find, exists_row}
use veriproc.Store.Records.{Time, StationControlRecord}
use veriproc.Store.Db.{Db}

abbrev pub has_station : String → StationControlRecord → Bool
has_station station c = c.station_id == station

-- StationControlRepo.SetPaused, at a time that is given
unfoldable pub set_paused : String → Bool → Time → Eff Db (Unit {0})
set_paused station paused at db = (
  ok tt,
  record db {
    controls =
        if exists_row (has_station station) db.controls
        then update (has_station station) (λ c. record c { paused = paused; updated_at = at })
            db.controls
        else db.controls ++ record { station_id = station; paused = paused; updated_at = at } ∷ [];
  },
)

abbrev pub or_unpaused : String → Option StationControlRecord → StationControlRecord
or_unpaused station none = record { station_id = station; paused = false; updated_at = 0 }
or_unpaused station (some c) = c

-- StationControlRepo.Get
unfoldable pub get_control : String → Db → StationControlRecord
get_control station db = or_unpaused station (find (has_station station) db.controls)

-- StationControlRepo.IsPaused
unfoldable pub is_paused : String → Db → Bool
unfolding get_control
is_paused station db = (get_control station db).paused
