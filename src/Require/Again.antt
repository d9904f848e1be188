-- ===== src/Require/Again.antt =====
-- require/: a second require of a file gives the same module.
use goja_ext.Prelude.{
  ℕ, zero, suc, Bool, true, false, List, [], ◌∷◌, ◌++◌, Option, none, some, Bytes, codes, lookup,
  has_prefix, if◌then◌else◌, ◌≡◌, refl, sym, ap, ◌∙◌, arith,
}
use goja_ext.Require.{
  Source, missing, unreadable, script, Answer, found, not_found, error, invalid_module,
  no_such_builtin, Requires, Ending, Host, is_file_or_directory_path,
}
use goja_ext.Require.Kept.{Keeps, through, same_modules, put-there, IsNamed}
use goja_ext.Require.Same.{resolve_module-Keeps}
use goja_ext.Require.Load.{remember, resolve_file, or_node, load_native, resolve_module}
use goja_ext.Require.Run.{
  thrown, stop_or, run_names, run_source, load_module_file, require, require_all,
}

module _ (requires : Bytes → Requires → Answer × Requires)
    (kept : (name : Bytes) (s : Requires) → Keeps s (requires name s).1) where
  stop_or-Keeps :
      (catches : Bool) (e : Option ℕ) (s t : Requires) (rest : Ending × Requires)
      → Keeps s t
      → Keeps t rest.1
      → Keeps s (stop_or requires catches e t rest).1
  stop_or-Keeps catches none s t rest k l = through k l
  stop_or-Keeps true (some e) s t rest k l = through k l
  stop_or-Keeps false (some e) s t rest k l = k

  names-Keeps :
      (names : List (Bytes × Bool)) (last : Option ℕ) (s : Requires)
      → Keeps s (run_names requires names last s).1
  unfolding run_names
  names-Keeps [] last s = same_modules refl
  names-Keeps (name ∷ names) last s =
      let r = requires name.0 s in
      stop_or-Keeps name.1 (thrown r.0) s r.1 _ (kept name.0 s) (names-Keeps names last r.1)

  source-Keeps :
      (path : Bytes) (source : Source) (s : Requires)
      → Keeps s (run_source requires path source s).1
  source-Keeps path missing s = same_modules refl
  source-Keeps path (unreadable e) s = same_modules refl
  source-Keeps path (script names last) s =
      through {t = record s { ran = s.ran ++ path ∷ [] }} (same_modules refl)
        (names-Keeps names last (record s { ran = s.ran ++ path ∷ [] }))

module _ (h : Host) (named : IsNamed h) (parents : ℕ) where
  file-Keeps :
      (depth : ℕ) (path : Bytes) (m : ℕ) (s : Requires)
      → Keeps s (load_module_file h parents depth path m s).1
  unfolding load_module_file
  file-Keeps zero path m s = same_modules refl
  file-Keeps (suc depth) path m s =
      source-Keeps (resolve_module h (load_module_file h parents depth) parents (h.dir path))
        (resolve_module-Keeps h named (load_module_file h parents depth) (file-Keeps depth) parents
          (h.dir path))
        path (h.source path) s

  require-Keeps :
      (depth : ℕ) (current modpath : Bytes) (s : Requires)
      → Keeps s (require h parents depth current modpath s).1
  unfolding require
  require-Keeps depth current modpath s =
      resolve_module-Keeps h named (load_module_file h parents depth) (file-Keeps depth) parents
        current modpath s

  all-Keep :
      (calls : List (ℕ × Bytes × Bytes)) (s : Requires) → Keeps s (require_all h parents calls s)
  unfolding require_all
  all-Keep [] s = same_modules refl
  all-Keep (c ∷ calls) s = through (require-Keeps c.0 c.1 c.2 s) (all-Keep calls _)

  -- The name that the caches know a path by.
  abbrev pub full_path : Bytes → Bytes → Bytes
  full_path current modpath = h.resolve_path (if h.is_abs modpath then [] else current) modpath

  remembered :
      (run : Bytes → ℕ → Requires → Ending × Requires) (p : Bytes) (m : ℕ) (r : Answer × Requires)
      → (remember h run p r).0 ≡ found m
      → lookup p (Requires.modules (remember h run p r).1) ≡ some m
  remembered run p m (found m₀, s) e = put-there p m₀ s ∙ ap some_of e
    where
      some_of : Answer → Option ℕ
      some_of (found x) = some x
      some_of not_found = none
      some_of (error x) = none
      some_of invalid_module = none
      some_of no_such_builtin = none
  remembered run p m (not_found, s) e = absurd (grind (arith, e))
  remembered run p m (error x, s) e = absurd (grind (arith, e))
  remembered run p m (invalid_module, s) e = absurd (grind (arith, e))
  remembered run p m (no_such_builtin, s) e = absurd (grind (arith, e))

  resolve_file-there :
      (run : Bytes → ℕ → Requires → Ending × Requires) (p : Bytes) (m : ℕ) (o : Option ℕ)
      (s : Requires)
      → lookup p s.modules ≡ o
      → (resolve_file h run p o s).0 ≡ found m
      → lookup p (Requires.modules (resolve_file h run p o s).1) ≡ some m
  resolve_file-there run p m (some m₀) s e r = e ∙ found_same m₀ m r
    where
      found_same : (x y : ℕ) → found x ≡ found y → some x ≡ some y
      found_same x y f = grind (arith, f)
  resolve_file-there run p m none s e r = remembered run p m _ r

  by_file :
      (depth : ℕ) (current modpath : Bytes) (s : Requires)
      → is_file_or_directory_path modpath ≡ true
      → require h parents depth current modpath s
        ≡ resolve_file h
            (load_module_file h parents depth)
            (full_path current modpath)
            (lookup (full_path current modpath) s.modules)
            s
  unfolding require resolve_module
  by_file depth current modpath s e =
      ap
        (λ b.
          if b
          then resolve_file h (load_module_file h parents depth) (full_path current modpath)
              (lookup (full_path current modpath) s.modules) s
          else or_node h (load_module_file h parents depth) parents modpath
              (if h.is_abs modpath then [] else current) (full_path current modpath)
              (load_native h (load_module_file h parents depth) modpath s))
        e

  -- Where the paths are absolute, and the names of built-in modules are not: once a require of a file or
  -- a directory, by its path, gave a module, the same require gives that module again and runs and
  -- changes nothing, whatever has been required in between from anywhere, by scripts that require
  -- others and throw or catch errors, with whatever bounds on nested calls.
  pub require-again :
      (depth : ℕ) (current modpath : Bytes) (s : Requires) (m : ℕ)
      → is_file_or_directory_path modpath ≡ true
      → has_prefix (full_path current modpath) (codes "/") ≡ true
      → (require h parents depth current modpath s).0 ≡ found m
      → (calls : List (ℕ × Bytes × Bytes)) (later : ℕ)
      → require h parents later current modpath
          (require_all h parents calls (require h parents depth current modpath s).1)
        ≡ (found m, require_all h parents calls (require h parents depth current modpath s).1)
  require-again depth current modpath s m is_path absolute gave calls later =
      let p = full_path current modpath in
      let r = require h parents depth current modpath s in
      let same : r ≡ resolve_file h (load_module_file h parents depth) p (lookup p s.modules) s =
        by_file depth current modpath s is_path in
      let there : lookup p (Requires.modules r.1) ≡ some m =
        ap (λ x. lookup p (Requires.modules x.1)) same
        ∙ resolve_file-there (load_module_file h parents depth) p m (lookup p s.modules) s refl
            (ap (λ x. x.0) (sym same) ∙ gave) in
      let t = require_all h parents calls r.1 in
      by_file later current modpath t is_path
      ∙ ap (λ o. resolve_file h (load_module_file h parents later) p o t)
          (Keeps.keeps (all-Keep calls r.1) p m absolute there)
