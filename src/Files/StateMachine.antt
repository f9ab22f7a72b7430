-- ===== src/Files/StateMachine.antt =====
-- The states of a file (`FileStatus` of backend/app/modules/files/models.py) as an abstract machine:
-- what the calls of backend/app/modules/files/service.py are to implement.
use app_template.Prelude.{Bool, true, false, ◌≡◌}
use app_template.Models.Files.{FileStatus}

abbrev pub is_deleted : FileStatus → Bool
is_deleted FileStatus.deleted = true
is_deleted _ = false

-- No worker judges the file any more.
abbrev pub is_settled : FileStatus → Bool
is_settled FileStatus.failed = true
is_settled FileStatus.quarantined = true
is_settled FileStatus.deleted = true
is_settled _ = false

-- One move from a state to another.
pub data FileMove (s t : FileStatus) : Type 0 where
  uploads : s ≡ FileStatus.pending → t ≡ FileStatus.uploaded → FileMove s t
  starts : s ≡ FileStatus.uploaded → t ≡ FileStatus.processing → FileMove s t
  passes : s ≡ FileStatus.processing → t ≡ FileStatus.ready → FileMove s t
  fails : is_deleted s ≡ false → t ≡ FileStatus.failed → FileMove s t
  quarantines : is_settled s ≡ false → t ≡ FileStatus.quarantined → FileMove s t
  deletes : is_deleted s ≡ false → t ≡ FileStatus.deleted → FileMove s t

-- The states that moves lead to.
pub data FilePath (s : FileStatus) : FileStatus → Type 0 where
  stays : FilePath s s
  moves : {t u : FileStatus} → FilePath s t → FileMove t u → FilePath s u

pub FilePath-trans : {s t u : FileStatus} → FilePath s t → FilePath t u → FilePath s u
FilePath-trans p stays = p
FilePath-trans p (moves q m) = moves (FilePath-trans p q) m
