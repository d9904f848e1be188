-- ===== src/Require/Run.antt =====
-- require/resolve.go: running a file, which requires others, on a bound for nested calls; and what a
-- script requires one after the other.
use goja_ext.Prelude.{
  ℕ, zero, suc, Bool, true, false, List, [], ◌∷◌, ◌++◌, Option, none, some, Bytes,
}
use goja_ext.Require.{
  Source, missing, unreadable, script, Answer, found, not_found, error, invalid_module,
  no_such_builtin, Requires, Ending, completed, no_file, failed, Host,
}
use goja_ext.Require.Load.{resolve_module}

-- What `require` throws, as a number.
abbrev pub thrown : Answer → Option ℕ
thrown (found m) = none
thrown not_found = some 0
thrown (error e) = some e
thrown invalid_module = some 0
thrown no_such_builtin = some 1

abbrev pub out_of_stack : ℕ
out_of_stack = 2

abbrev pub ending_of : Option ℕ → Ending
ending_of none = completed
ending_of (some e) = failed e

-- For what `require` does: the names in order, until one throws an error that is not caught.
module _ (requires : Bytes → Requires → Answer × Requires) where
  abbrev pub stop_or : Bool → Option ℕ → Requires → Ending × Requires → Ending × Requires
  stop_or catches none s rest = rest
  stop_or true (some e) s rest = rest
  stop_or false (some e) s rest = (failed e, s)

  unfoldable pub run_names : List (Bytes × Bool) → Option ℕ → Requires → Ending × Requires
  run_names [] last s = (ending_of last, s)
  run_names (name ∷ names) last s =
      let r = requires name.0 s in stop_or name.1 (thrown r.0) r.1 (run_names names last r.1)

  abbrev pub run_source : Bytes → Source → Requires → Ending × Requires
  run_source path missing s = (no_file, s)
  run_source path (unreadable e) s = (failed e, s)
  run_source path (script names last) s =
      run_names names last (record s { ran = s.ran ++ path ∷ [] })

module _ (h : Host) (parents : ℕ) where
  -- loadModuleFile
  unfoldable pub load_module_file : ℕ → Bytes → ℕ → Requires → Ending × Requires
  load_module_file zero path m s = (failed out_of_stack, s)
  load_module_file (suc depth) path m s =
      run_source (resolve_module h (load_module_file depth) parents (h.dir path)) path
        (h.source path) s

  unfoldable pub require : ℕ → Bytes → Bytes → Requires → Answer × Requires
  require depth current modpath s =
      resolve_module h (load_module_file depth) parents current modpath s

  -- Calls from scripts or Go, each with its bound and the directory that it comes from.
  unfoldable pub require_all : List (ℕ × Bytes × Bytes) → Requires → Requires
  require_all [] s = s
  require_all (c ∷ calls) s = require_all calls (require c.0 c.1 c.2 s).1
