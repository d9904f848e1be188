-- ===== src/Require/Load.antt =====
-- require/resolve.go, for a function that runs a file.
use goja_ext.Prelude.{
  ℕ, zero, suc, List, [], ◌∷◌, ◌++◌, Option, none, some, Bytes, codes, lookup, delete_key,
  has_prefix, equal, drop, if◌then◌else◌,
}
use goja_ext.Require.{
  Answer, found, not_found, error, invalid_module, no_such_builtin, Requires, Ending, completed,
  no_file, failed, put_module, Host, node_prefix, is_file_or_directory_path,
}

-- `if module, err = …; module != nil || err != nil { return }`
unfoldable pub or_else : Answer × Requires → (Requires → Answer × Requires) → Answer × Requires
or_else (found m, s) k = (found m, s)
or_else (not_found, s) k = k s
or_else (error e, s) k = (error e, s)
or_else (invalid_module, s) k = (invalid_module, s)
or_else (no_such_builtin, s) k = (no_such_builtin, s)

abbrev pub after_run : Bytes → ℕ → Ending × Requires → Answer × Requires
after_run path m (completed, s) = (found m, s)
after_run path m (no_file, s) = (not_found, record s { modules = delete_key path s.modules })
after_run path m (failed e, s) = (error e, record s { modules = delete_key path s.modules })

module _ (h : Host) (run : Bytes → ℕ → Requires → Ending × Requires) where
  abbrev pub load_new : Bytes → Requires → Answer × Requires
  load_new path s = after_run path s.next_module (
      run path s.next_module
        (put_module path s.next_module (record s { next_module = suc s.next_module })))

  abbrev pub load_cached : Bytes → Option ℕ → Requires → Answer × Requires
  load_cached path (some m) s = (found m, s)
  load_cached path none s = load_new path s

  unfoldable pub load_module : Bytes → Requires → Answer × Requires
  load_module path s = load_cached path (lookup path s.modules) s

  unfoldable pub load_as_file : Bytes → Requires → Answer × Requires
  load_as_file path s = or_else (load_module path s) (λ s₁.
      or_else (load_module (path ++ codes ".js") s₁) (λ s₂. load_module (path ++ codes ".json") s₂))

  unfoldable pub load_index : Bytes → Requires → Answer × Requires
  load_index modpath s =
      or_else (load_module (h.resolve_path modpath (codes "index.js")) s)
        (λ s₁. load_module (h.resolve_path modpath (codes "index.json")) s₁)

  abbrev pub load_main : Bytes → Option Bytes → Requires → Answer × Requires
  load_main modpath none s = load_index modpath s
  load_main modpath (some main) s =
      let m = h.resolve_path modpath main in or_else (load_as_file m s) (load_index m)

  unfoldable pub load_as_directory : Bytes → Requires → Answer × Requires
  load_as_directory modpath s =
      load_main modpath (h.package_main (h.resolve_path modpath (codes "package.json"))) s

  unfoldable pub load_as_file_or_directory : Bytes → Requires → Answer × Requires
  load_as_file_or_directory path s = or_else (load_as_file path s) (load_as_directory path)

  unfoldable pub load_node_module : Bytes → Bytes → Requires → Answer × Requires
  load_node_module modpath start s = load_as_file_or_directory (h.resolve_path start modpath) s

  unfoldable pub load_global : Bytes → List Bytes → Requires → Answer × Requires
  load_global modpath [] s = (not_found, s)
  load_global modpath (folder ∷ folders) s =
      or_else (load_node_module modpath folder s) (load_global modpath folders)

  abbrev pub node_folder : Bytes → Bytes
  node_folder start =
      if equal (h.base start) (codes "node_modules")
      then start
      else h.join_path start (codes "node_modules")

  -- The loop over the parents, on a bound.
  unfoldable pub load_upwards : ℕ → Bytes → Bytes → Requires → Answer × Requires
  load_upwards zero modpath start s = (not_found, s)
  load_upwards (suc n) modpath start s =
      or_else (load_node_module modpath (node_folder start) s) (λ s₁.
        let rest = load_upwards n modpath (h.dir start) s₁ in
        if equal start (codes "..")
        then (not_found, s₁)
        else if equal (h.dir start) start
        then (not_found, s₁)
        else rest)

  unfoldable pub load_node_modules : ℕ → Bytes → Bytes → Requires → Answer × Requires
  load_node_modules n modpath start s =
      or_else (load_global modpath h.global_folders s) (load_upwards n modpath start)

  -- `loadNative` at a module in Go. Its loader is taken not to require others and not to panic, so it
  -- leaves the caches alone.
  abbrev pub new_native : Bytes → List Bytes → Requires → Answer × Requires
  new_native path [] s = (
    found s.next_module,
    put_module path s.next_module (record s { next_module = suc s.next_module }),
  )
  new_native path (also ∷ more) s = (
    found s.next_module,
    put_module also s.next_module
        (put_module path s.next_module (record s { next_module = suc s.next_module })),
  )

  -- The other name of a built-in module.
  abbrev pub bare_name : Bytes → Bytes
  bare_name path = drop 5 path

  abbrev pub load_unknown : Bytes → Requires → Answer × Requires
  load_unknown path s =
      if h.is_native path
      then new_native path [] s
      else if h.is_builtin path
      then if has_prefix path node_prefix
        then new_native path [] s
        else new_native path ((node_prefix ++ path) ∷ []) s
      else if has_prefix path node_prefix
      then if h.is_builtin (bare_name path)
        then new_native path (bare_name path ∷ []) s
        else (no_such_builtin, s)
      else (invalid_module, s)

  abbrev pub load_native_cached : Bytes → Option ℕ → Requires → Answer × Requires
  load_native_cached path (some m) s = (found m, s)
  load_native_cached path none s = load_unknown path s

  unfoldable pub load_native : Bytes → Requires → Answer × Requires
  load_native path s = load_native_cached path (lookup path s.modules) s

  abbrev pub remember : Bytes → Answer × Requires → Answer × Requires
  remember p (found m, s) = (found m, put_module p m s)
  remember p (not_found, s) = (invalid_module, s)
  remember p (error e, s) = (error e, s)
  remember p (invalid_module, s) = (invalid_module, s)
  remember p (no_such_builtin, s) = (no_such_builtin, s)

  abbrev pub remember_node : Bytes → Answer × Requires → Answer × Requires
  remember_node p (found m, s) =
      (found m, record s { node_modules = (p, m) ∷ delete_key p s.node_modules })
  remember_node p (not_found, s) = (invalid_module, s)
  remember_node p (error e, s) = (error e, s)
  remember_node p (invalid_module, s) = (invalid_module, s)
  remember_node p (no_such_builtin, s) = (no_such_builtin, s)

  abbrev pub resolve_file : Bytes → Option ℕ → Requires → Answer × Requires
  resolve_file p (some m) s = (found m, s)
  resolve_file p none s = remember p (load_as_file_or_directory p s)

  abbrev pub resolve_node : ℕ → Bytes → Bytes → Bytes → Option ℕ → Requires → Answer × Requires
  resolve_node n modpath start p (some m) s = (found m, s)
  resolve_node n modpath start p none s = remember_node p (load_node_modules n modpath start s)

  -- A module that is not native is looked for.
  abbrev pub or_node : ℕ → Bytes → Bytes → Bytes → Answer × Requires → Answer × Requires
  or_node n modpath start p (found m, s) = (found m, s)
  or_node n modpath start p (not_found, s) = (not_found, s)
  or_node n modpath start p (error e, s) = (error e, s)
  or_node n modpath start p (invalid_module, s) =
      resolve_node n modpath start p (lookup p s.node_modules) s
  or_node n modpath start p (no_such_builtin, s) = (no_such_builtin, s)

  -- `current` is the directory of the script that requires.
  unfoldable pub resolve_module : ℕ → Bytes → Bytes → Requires → Answer × Requires
  resolve_module n current modpath s =
      let start = if h.is_abs modpath then [] else current in
      let p = h.resolve_path start modpath in
      if is_file_or_directory_path modpath
      then resolve_file p (lookup p s.modules) s
      else or_node n modpath start p (load_native modpath s)
