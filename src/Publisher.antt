-- ===== src/Publisher.antt =====
-- internal/publisher/publisher.go: one tick of the worker that copies artifacts to the archive.
-- `publish_object` stands for fileops.PublishObject, `join_path` for filepath.Join, and `reason`
-- for the text of an error. The context is not cancelled during a tick.
pub mod Settled
use veriproc.Prelude.{ℕ, String, ◌==◌, List, [], ◌∷◌, if◌then◌else◌}
use veriproc.Prelude.Lists.{length}
use veriproc.Prelude.Errors.{Error, Result, ok, err, other}
use veriproc.Prelude.Effects.{Eff, pure, fail, lift, attempt, ignore, ◌>>=◌, ◌>>◌}
use veriproc.Store.Records.{Time, PublicationRecord, ArtifactRecord}
use veriproc.Store.Db.{Db}
use veriproc.Store.Publications.{mark_published, mark_failed, list_pending, get_artifact}

pub record Publishing : Type 0 where
  pub archive_base : String
  pub batch_size : ℕ
  pub publish_object : String → String → String → Result (Unit {0})
  pub join_path : String → String → String
  pub reason : Error → String

module _ (env : Publishing) where
  -- publishOne
  unfoldable pub publish_one : PublicationRecord → Time → Eff Db (Unit {0})
  publish_one p now = do
    art ← get_artifact p.artifact_id
    if art.path == "" then fail other else (do
      lift (
          env.publish_object art.path (env.join_path env.archive_base p.target_path)
            p.publication_mode)
      mark_published p.publication_id now)

  abbrev pub or_mark_failed : PublicationRecord → Result (Unit {0}) → Eff Db (Unit {0})
  or_mark_failed p (ok u) = pure tt
  or_mark_failed p (err e) = ignore (mark_failed p.publication_id (env.reason e))

  -- The loop of Tick
  unfoldable pub publish_all : List PublicationRecord → Time → Eff Db (Unit {0})
  publish_all [] now = pure tt
  publish_all (p ∷ ps) now = do attempt (publish_one p now) (or_mark_failed p); publish_all ps now

  -- Tick
  unfoldable pub tick : Time → Eff Db ℕ
  tick now = do
    pending ← list_pending env.batch_size
    publish_all pending now
    pure (length pending)
