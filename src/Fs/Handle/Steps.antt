-- ===== src/Fs/Handle/Steps.antt =====
-- fs/core.go: what the goroutines that share a FileHandle do, in which order ever.
use goja_ext.Prelude.{ℕ, true, false, Option, ◌≡◌}
use goja_ext.Fs.Handle.{
  FileHandle, closing_file, completing, new_file_handle, begin_operation, finish_operation, close,
  close_file, complete_close,
}

pub data HandleStep : FileHandle → FileHandle → Type 0 where
  begins : {f : FileHandle} → f.operating ≡ false → HandleStep f (begin_operation f)
  finishes : {f : FileHandle} → f.active ≡ true → HandleStep f (finish_operation f)
  closes : {f : FileHandle} → HandleStep f (close f)
  closes_file : {f : FileHandle} → f.closing ≡ closing_file → HandleStep f (close_file f)
  completes :
      {f : FileHandle} (err : Option ℕ)
      → f.closing ≡ completing
      → HandleStep f (complete_close err f)

-- The states of a handle that was opened.
pub data Opened : FileHandle → Type 0 where
  fresh : Opened new_file_handle
  next : {f g : FileHandle} → Opened f → HandleStep f g → Opened g
