-- ===== src/Require.antt =====
-- require/: the search for a module and the caches of a RequireModule, over paths as byte strings. A
-- module object is a number. The file system, the package path/filepath and the modules in Go are
-- parameters.
pub mod Load
pub mod Run
pub mod Kept
pub mod Same
pub mod Again
pub mod Upwards
use goja_ext.Prelude.{
  ℕ, suc, Bool, true, false, List, [], ◌∷◌, ◌++◌, Option, none, some, Bytes, codes, lookup,
  delete_key, has_prefix, equal, if◌then◌else◌, ◌||◌,
}

-- A file, as the source loader and the engine have it: none, one that cannot be read or compiled, or a
-- script by the names that it requires, whether it catches the errors of each, and the error that it
-- throws at last.
pub data Source : Type 0 where
  missing : Source
  unreadable : ℕ → Source
  script : List (Bytes × Bool) → Option ℕ → Source

pub data Answer : Type 0 where
  found : ℕ → Answer
  not_found : Answer
  error : ℕ → Answer
  invalid_module no_such_builtin : Answer

pub record Requires : Type 0 where
  pub modules : List (Bytes × ℕ)
  pub node_modules : List (Bytes × ℕ)
  pub next_module : ℕ
  -- The files that were run, in order.
  pub ran : List Bytes

-- How running a file ends. With its bound on nested calls used up, a run is out of stack.
pub data Ending : Type 0 where
  completed no_file : Ending
  failed : ℕ → Ending

abbrev pub put_module : Bytes → ℕ → Requires → Requires
put_module path module_object s = record s {
  modules = (path, module_object) ∷ delete_key path s.modules;
}

-- What the registry and its host give.
pub record Host : Type 0 where
  pub source : Bytes → Source
  -- `pkg.Main` of a package.json, if there is one that is not empty.
  pub package_main : Bytes → Option Bytes
  pub resolve_path : Bytes → Bytes → Bytes
  pub is_native : Bytes → Bool
  pub is_builtin : Bytes → Bool
  pub global_folders : List Bytes
  -- filepath.IsAbs, filepath.Dir, filepath.Base and filepath.Join
  pub is_abs : Bytes → Bool
  pub dir : Bytes → Bytes
  pub base : Bytes → Bytes
  pub join_path : Bytes → Bytes → Bytes

abbrev pub node_prefix : Bytes
node_prefix = codes "node:"

unfoldable pub is_file_or_directory_path : Bytes → Bool
is_file_or_directory_path path =
    equal path (codes ".")
    || equal path (codes "..")
    || has_prefix path (codes "/")
    || has_prefix path (codes "./")
    || has_prefix path (codes "../")
