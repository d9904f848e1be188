-- ===== src/Require/Same.antt =====
-- require/: a second require of a file gives the same module.
use goja_ext.Prelude.{
  ℕ, suc, [], ◌++◌, Option, none, some, Bytes, lookup, equal, equal_iff, has_prefix, if◌then◌else◌,
  if_split, ◌≡◌, refl, sym, ap, ◌∙◌, arith,
}
use goja_ext.Require.{
  Answer, found, not_found, error, invalid_module, no_such_builtin, Requires, Ending, put_module,
  Host, node_prefix, is_file_or_directory_path,
}
use goja_ext.Require.Kept.{
  Keeps, through, same_modules, put-at, put-Keeps, put_name-Keeps, IsNamed, or_else-Keeps,
  load_path-Keeps, load_global-Keeps, load_upwards-Keeps,
}
use goja_ext.Require.Load.{
  load_node_modules, new_native, bare_name, load_unknown, load_native_cached, load_native, remember,
  remember_node, resolve_file, resolve_node, or_node, resolve_module,
}

counted-Keeps :
    (p : Bytes) (s : Requires)
    → lookup p s.modules ≡ none
    → Keeps s (put_module p s.next_module (record s { next_module = suc s.next_module }))
counted-Keeps p s new =
    through {t = record s { next_module = suc s.next_module }} (same_modules refl)
      (put-Keeps p s.next_module (record s { next_module = suc s.next_module }) new)

-- What is put in place of nothing, whatever was put in between.
set_new-Keeps :
    (p : Bytes) (m : ℕ) (s t : Requires)
    → lookup p s.modules ≡ none
    → Keeps s t
    → Keeps s (put_module p m t)
set_new-Keeps p m s t new k = record {
  keeps = λ key m₀ a e.
      put-at key p m t
      ∙ if_split (λ o. o ≡ some m₀) (equal key p) (some m) (lookup key t.modules)
          (λ same. absurd (
            grind (arith, sym (ap (λ x. lookup x s.modules) ((equal_iff key p).0 same) ∙ new) ∙ e)))
          (λ other. k.keeps key m₀ a e);
}

module _ (h : Host) (named : IsNamed h) (run : Bytes → ℕ → Requires → Ending × Requires)
    (kept : (path : Bytes) (m : ℕ) (s : Requires) → Keeps s (run path m s).1) where
  unknown-Keeps :
      (path : Bytes) (s : Requires)
      → lookup path s.modules ≡ none
      → Keeps s (load_unknown h run path s).1
  unfolding has_prefix
  unknown-Keeps path s new =
      let alone : Keeps s (new_native h run path [] s).1 = counted-Keeps path s new in
      if_split (λ (r : Answer × Requires). Keeps s r.1) (h.is_native path) _ _ (λ p. alone)
        (λ p.
          if_split (λ (r : Answer × Requires). Keeps s r.1) (h.is_builtin path) _ _
            (λ q.
              if_split (λ (r : Answer × Requires). Keeps s r.1) (has_prefix path node_prefix) _ _
                (λ t. alone)
                (λ t.
                  through (counted-Keeps path s new)
                    (put_name-Keeps (node_prefix ++ path) _ _ refl)))
            (λ q.
              if_split (λ (r : Answer × Requires). Keeps s r.1) (has_prefix path node_prefix) _ _
                (λ t.
                  if_split (λ (r : Answer × Requires). Keeps s r.1)
                    (h.is_builtin (bare_name h run path)) _ _
                    (λ b. through (counted-Keeps path s new) (put_name-Keeps _ _ _ (named _ b)))
                    (λ b. same_modules refl))
                (λ t. same_modules refl)))

  native-Keeps :
      (path : Bytes) (o : Option ℕ) (s : Requires)
      → lookup path s.modules ≡ o
      → Keeps s (load_native_cached h run path o s).1
  native-Keeps path (some m) s e = same_modules refl
  native-Keeps path none s e = unknown-Keeps path s e

  remember-Keeps :
      (p : Bytes) (s : Requires) (r : Answer × Requires)
      → lookup p s.modules ≡ none
      → Keeps s r.1
      → Keeps s (remember h run p r).1
  remember-Keeps p s (found m, t) new k = set_new-Keeps p m s t new k
  remember-Keeps p s (not_found, t) new k = k
  remember-Keeps p s (error e, t) new k = k
  remember-Keeps p s (invalid_module, t) new k = k
  remember-Keeps p s (no_such_builtin, t) new k = k

  remember_node-Keeps :
      (p : Bytes) (s : Requires) (r : Answer × Requires)
      → Keeps s r.1
      → Keeps s (remember_node h run p r).1
  remember_node-Keeps p s (found m, t) k = through k (same_modules refl)
  remember_node-Keeps p s (not_found, t) k = k
  remember_node-Keeps p s (error e, t) k = k
  remember_node-Keeps p s (invalid_module, t) k = k
  remember_node-Keeps p s (no_such_builtin, t) k = k

  file-Keeps :
      (p : Bytes) (o : Option ℕ) (s : Requires)
      → lookup p s.modules ≡ o
      → Keeps s (resolve_file h run p o s).1
  file-Keeps p (some m) s e = same_modules refl
  file-Keeps p none s e = remember-Keeps p s _ e (load_path-Keeps h named run kept p s)

  node-Keeps :
      (n : ℕ) (modpath start p : Bytes) (o : Option ℕ) (s : Requires)
      → Keeps s (resolve_node h run n modpath start p o s).1
  unfolding load_node_modules
  node-Keeps n modpath start p (some m) s = same_modules refl
  node-Keeps n modpath start p none s = remember_node-Keeps p s _ (
      or_else-Keeps s _ _ (load_global-Keeps h named run kept modpath h.global_folders s)
        (load_upwards-Keeps h named run kept n modpath start))

  or_node-Keeps :
      (n : ℕ) (modpath start p : Bytes) (s : Requires) (r : Answer × Requires)
      → Keeps s r.1
      → Keeps s (or_node h run n modpath start p r).1
  or_node-Keeps n modpath start p s (found m, t) k = k
  or_node-Keeps n modpath start p s (not_found, t) k = k
  or_node-Keeps n modpath start p s (error e, t) k = k
  or_node-Keeps n modpath start p s (invalid_module, t) k =
      through k (node-Keeps n modpath start p _ t)
  or_node-Keeps n modpath start p s (no_such_builtin, t) k = k

  pub resolve_module-Keeps :
      (n : ℕ) (current modpath : Bytes) (s : Requires)
      → Keeps s (resolve_module h run n current modpath s).1
  unfolding resolve_module load_native
  resolve_module-Keeps n current modpath s =
      let start = if h.is_abs modpath then [] else current in
      let p = h.resolve_path start modpath in
      if_split (λ (r : Answer × Requires). Keeps s r.1) (is_file_or_directory_path modpath) _ _
        (λ e. file-Keeps p (lookup p s.modules) s refl)
        (λ e.
          or_node-Keeps n modpath start p s _
            (native-Keeps modpath (lookup modpath s.modules) s refl))
