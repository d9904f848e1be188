-- ===== src/Fs/Handle.antt =====
-- fs/core.go: FileHandle, which operations on goroutines and Close share. Each function here is what a
-- goroutine does between taking and giving back the state's lock, or one call on the file.
pub mod Steps
pub mod Sound
use goja_ext.Prelude.{
  ℕ, suc, ◌+◌, Bool, true, false, not, ◌&&◌, List, [], ◌∷◌, Option, none, some, if◌then◌else◌,
}

-- What happens to the file and its callers: an operation on it begins or ends, `file.Close()`, and
-- `close(f.closeDone)`.
pub data FileEvent : Type 0 where
  use_began use_ended file_closed done_closed : FileEvent

-- How far the goroutine is that closes the file.
pub data Closing : Type 0 where
  open_file closing_file completing completed : Closing

-- `operating` tells whether opMu is locked, and `by_operation` whether the goroutine that closes holds it.
pub record FileHandle : Type 0 where
  pub operating : Bool
  pub active : Bool
  pub close_requested : Bool
  pub close_started : Bool
  pub by_operation : Bool
  pub close_error : Option ℕ
  pub closing : Closing
  pub log : List FileEvent

unfoldable pub new_file_handle : FileHandle
new_file_handle = record {
  operating = false;
  active = false;
  close_requested = false;
  close_started = false;
  by_operation = false;
  close_error = none;
  closing = open_file;
  log = [];
}

-- With opMu free: a handle that is to be closed refuses the operation.
unfoldable pub begin_operation : FileHandle → FileHandle
begin_operation f =
    if f.close_requested
    then f
    else record f { operating = true; active = true; log = use_began ∷ f.log }

-- The goroutine starts to close the file.
abbrev pub start_closing : Bool → FileHandle → FileHandle
start_closing by_op f = record f {
  close_started = true;
  by_operation = by_op;
  closing = closing_file;
}

unfoldable pub finish_operation : FileHandle → FileHandle
finish_operation f =
    let ended = record f { active = false; log = use_ended ∷ f.log } in
    if f.close_requested && not f.close_started
    then start_closing true ended
    else record ended { operating = false }

unfoldable pub close : FileHandle → FileHandle
close f =
    let requested = record f { close_requested = true } in
    if f.close_requested then f else if f.active then requested else start_closing false requested

-- `f.file.Close()`, outside the lock.
unfoldable pub close_file : FileHandle → FileHandle
close_file f = record f { closing = completing; log = file_closed ∷ f.log }

-- `completeClose`, and opMu given back if the goroutine holds it.
unfoldable pub complete_close : Option ℕ → FileHandle → FileHandle
complete_close err f = record f {
  closing = completed;
  close_error = err;
  operating = if f.by_operation then false else f.operating;
  log = done_closed ∷ f.log;
}
