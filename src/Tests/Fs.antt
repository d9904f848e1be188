-- ===== src/Tests/Fs.antt =====
-- fs/: runs and instances.
use goja_ext.Prelude.{[], ◌∷◌, none, ◌≡◌, refl}
use goja_ext.Fs.Handle.{
  FileHandle, use_began, use_ended, file_closed, done_closed, new_file_handle, begin_operation,
  finish_operation, close, close_file, complete_close,
}
use goja_ext.Fs.Handle.Steps.{Opened, fresh, next, begins, finishes, closes, closes_file, completes}
use goja_ext.Fs.Handle.Sound.{IsSafe, Opened-IsSafe}

-- Close while an operation is at work.
abbrev closed_late : FileHandle
closed_late =
    complete_close none (close_file (finish_operation (close (begin_operation new_file_handle))))

closed_late_log : closed_late.log ≡ done_closed ∷ file_closed ∷ use_ended ∷ use_began ∷ []
unfolding complete_close close_file finish_operation close begin_operation new_file_handle
closed_late_log = refl

closed_late-Opened : Opened closed_late
unfolding complete_close close_file finish_operation close begin_operation new_file_handle
closed_late-Opened =
    next (next (next (next (next fresh (begins refl)) closes) (finishes refl)) (closes_file refl))
      (completes none refl)

Opened-IsSafe_example : IsSafe closed_late
Opened-IsSafe_example = Opened-IsSafe closed_late closed_late-Opened
