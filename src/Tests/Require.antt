-- ===== src/Tests/Require.antt =====
-- Runs of require/.
use goja_ext.Prelude.{
  ℕ, equal_iff, true, false, [], ◌∷◌, ◌++◌, delete_key, some, none, Bytes, codes, equal, lookup,
  has_prefix, drop, if◌then◌else◌, ◌<◌, ◌≡◌, refl, sym, arith,
}
use goja_ext.Require.{
  Source, missing, script, Answer, found, Requires, Host, is_file_or_directory_path,
}
use goja_ext.Require.Load.{
  or_else, load_module, load_as_file, load_as_file_or_directory, load_as_directory, load_index,
  load_upwards, resolve_module,
}
use goja_ext.Require.Run.{load_module_file, require, require_all, run_names}
use goja_ext.Require.Upwards.{load_upwards_enough}
use goja_ext.Require.Again.{require-again}

-- a.js requires ./b and catches its error; b.js requires ./c, and throws; c.js requires ./b.
abbrev files : Bytes → Source
files path =
    if equal path (codes "/a.js")
    then script ((codes "./b", true) ∷ []) none
    else if equal path (codes "/b.js")
    then script ((codes "./c", false) ∷ []) (some 9)
    else if equal path (codes "/c.js")
    then script ((codes "./b", false) ∷ []) none
    else missing

-- Paths of one folder.
abbrev host : Host
host = record {
  source = files;
  package_main = λ path. none;
  resolve_path =
      λ from path. if has_prefix path (codes "./") then codes "/" ++ drop 2 path else path;
  is_native = λ name. false;
  is_builtin = λ name. false;
  global_folders = [];
  is_abs = λ path. has_prefix path (codes "/");
  dir = λ path. codes "/";
  base = λ path. path;
  join_path = λ a b. a ++ b;
}

abbrev no_modules : Requires
no_modules = record { modules = []; node_modules = []; next_module = 0; ran = [] }

abbrev asked_once : Answer × Requires
asked_once = require host 3 5 (codes "/") (codes "./a") no_modules

-- b.js threw its error, but while it ran, c.js had required it by its name without an extension: the
-- entry of that name stays, and the next require gives the module that failed.
failed_module_kept :
    (lookup (codes "/b.js") (Requires.modules asked_once.1) ≡ none)
    × ((require host 3 5 (codes "/") (codes "./b") asked_once.1).0 ≡ found 3)
unfolding require resolve_module load_module_file run_names load_module load_as_file
    load_as_file_or_directory load_as_directory load_index is_file_or_directory_path has_prefix
    equal lookup delete_key or_else
failed_module_kept = (refl, refl)

require-again_example :
    require host 3 2 (codes "/") (codes "./a") (
      require_all host 3
        ((4, codes "/", codes "./b") ∷ (4, codes "/", codes "/c") ∷ [])
        asked_once.1)
    ≡ (
      found 1,
      require_all host 3
          ((4, codes "/", codes "./b") ∷ (4, codes "/", codes "/c") ∷ [])
          asked_once.1,
    )
unfolding require resolve_module load_module_file run_names load_module load_as_file
    load_as_file_or_directory load_as_directory load_index is_file_or_directory_path has_prefix
    equal lookup delete_key or_else
require-again_example =
    require-again host (λ name e. absurd (grind (arith, e))) 3 5 (codes "/") (codes "./a")
      no_modules 1 refl refl refl ((4, codes "/", codes "./b") ∷ (4, codes "/", codes "/c") ∷ []) 2

-- Above the root there is nothing.
abbrev depth_of : Bytes → ℕ
depth_of path = if equal path (codes "/") then 0 else 1

parent_lower :
    (path : Bytes) → equal (codes "/") path ≡ false → depth_of (codes "/") < depth_of path
unfolding equal
parent_lower path other =
    ground (arith, equal_iff path (codes "/"), equal_iff (codes "/") path, equal_sym path)
  where
    equal_sym : (p : Bytes) → equal p (codes "/") ≡ true → equal (codes "/") p ≡ true
    equal_sym p e = (equal_iff (codes "/") p).1 (sym ((equal_iff p (codes "/")).0 e))

load_upwards_enough_example :
    load_upwards host (load_module_file host 3 5) 2 (codes "x") (codes "/lib") no_modules
    ≡ load_upwards host (load_module_file host 3 5) 9 (codes "x") (codes "/lib") no_modules
unfolding equal
load_upwards_enough_example =
    load_upwards_enough host (load_module_file host 3 5) depth_of parent_lower 2 9 (codes "x")
      (codes "/lib") no_modules (omega arith) (omega arith)
