-- ===== src/Examples/Publisher.antt =====
-- Two publications of one artifact, of which the copy of the second fails, and a paused station.
use veriproc.Prelude.{ℕ, String, true, ◌==◌, [], ◌∷◌, none, ◌≡◌, if◌then◌else◌}
use veriproc.Prelude.Lists.{All}
use veriproc.Prelude.Errors.{ok, err, other}
use veriproc.Store.Records.{PublicationRecord}
use veriproc.Store.Db.{Db, empty_db}
use veriproc.Store.Controls.{is_paused, set_paused}
use veriproc.Store.Controls.Paused.{is_paused-set_paused}
use veriproc.Store.Publications.{pending_rows}
use veriproc.Publisher.{Publishing, tick}
use veriproc.Publisher.Settled.{IsSettled, tick-pending_rows}

abbrev publishing : Publishing
publishing = record {
  archive_base = "/archive";
  batch_size = 0;
  publish_object = λ source target mode. if target == "full" then err other else ok tt;
  join_path = λ base path. path;
  reason = λ e. "copy failed";
}

abbrev publication : String → String → ℕ → PublicationRecord
publication id path created = record {
  publication_id = id;
  artifact_id = "art-1";
  producing_run_id = "run-1";
  archive_id = "main";
  target_path = path;
  object_kind = "regular_file";
  publication_mode = "copy";
  publication_state = "pending";
  size = 0;
  checksum = "";
  checksum_algo = "";
  checksum_source = "";
  failure_reason = "";
  created_at = created;
  published_at = none;
}

abbrev archive : Db
archive = record empty_db {
  publications = publication "pub-1" "a" 2 ∷ publication "pub-2" "full" 1 ∷ [];
}

tick-pending_rows_example :
    ((tick publishing 5 archive).0 ≡ ok 2)
    × All (λ p. IsSettled (tick publishing 5 archive).1 p.publication_id) (pending_rows 0 archive)
tick-pending_rows_example = tick-pending_rows publishing 5 archive

is_paused-set_paused_example : is_paused "L1" (set_paused "L1" true 5 empty_db).1 ≡ true
is_paused-set_paused_example = is_paused-set_paused "L1" "L1" true 5 empty_db
