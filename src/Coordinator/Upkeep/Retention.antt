-- ===== src/Coordinator/Upkeep/Retention.antt =====
-- What the cleanup of published events may delete.
use app_template.Prelude.All.{All}
