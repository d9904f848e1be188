-- ===== src/Require/Kept.antt =====
-- require/resolve.go: a module that is loaded stays the same.
use goja_ext.Prelude.{
  ℕ, zero, suc, true, false, List, [], ◌∷◌, Option, none, some, Bytes, codes, lookup, delete_key,
  lookup-delete_key, equal, equal_iff, has_prefix, if◌then◌else◌, if_split, ◌≡◌, refl, sym, ap, ◌∙◌,
  arith,
}
use goja_ext.Require.{
  Answer, found, not_found, error, invalid_module, no_such_builtin, Requires, Ending, completed,
  no_file, failed, put_module, Host,
}
use goja_ext.Require.Load.{
  or_else, after_run, load_cached, load_module, load_as_file, load_index, load_main,
  load_as_directory, load_as_file_or_directory, load_node_module, load_global, load_upwards,
}

-- No entry of an absolute path is lost or changed.
pub record Keeps (s t : Requires) : Type 0 where
  pub keeps :
      (key : Bytes) (m : ℕ)
      → has_prefix key (codes "/") ≡ true
      → lookup key s.modules ≡ some m
      → lookup key t.modules ≡ some m

pub same_modules : {s t : Requires} → t.modules ≡ s.modules → Keeps s t
same_modules e = record { keeps = λ key m a h. ap (lookup key) e ∙ h }

pub through : {s t u : Requires} → Keeps s t → Keeps t u → Keeps s u
through k l = record { keeps = λ key m a e. l.keeps key m a (k.keeps key m a e) }

pub put-at :
    (key p : Bytes) (m : ℕ) (s : Requires)
    → lookup key (Requires.modules (put_module p m s))
      ≡ (if equal key p then some m else lookup key s.modules)
unfolding lookup
put-at key p m s = ground (arith, lookup-delete_key key p s.modules)

pub put-there :
    (p : Bytes) (m : ℕ) (s : Requires) → lookup p (Requires.modules (put_module p m s)) ≡ some m
put-there p m s = ground (arith, put-at p p m s, equal_iff p p)

-- A new entry, or one of a name that is no absolute path.
pub put-Keeps :
    (p : Bytes) (m : ℕ) (s : Requires) → lookup p s.modules ≡ none → Keeps s (put_module p m s)
put-Keeps p m s new = record {
  keeps = λ key m₀ a e.
      put-at key p m s
      ∙ if_split (λ o. o ≡ some m₀) (equal key p) (some m) (lookup key s.modules)
          (λ same. absurd (
            grind (arith, sym (ap (λ k. lookup k s.modules) ((equal_iff key p).0 same) ∙ new) ∙ e)))
          (λ other. e);
}

pub put_name-Keeps :
    (p : Bytes) (m : ℕ) (s : Requires)
    → has_prefix p (codes "/") ≡ false
    → Keeps s (put_module p m s)
put_name-Keeps p m s name = record {
  keeps = λ key m₀ a e.
      put-at key p m s
      ∙ if_split (λ o. o ≡ some m₀) (equal key p) (some m) (lookup key s.modules)
          (λ same.
            absurd (
              grind
                (arith, ap (λ k. has_prefix k (codes "/")) ((equal_iff key p).0 same), name, a)))
          (λ other. e);
}

-- An entry that was new goes again.
delete-Keeps :
    (p : Bytes) (s t : Requires)
    → lookup p s.modules ≡ none
    → Keeps s t
    → Keeps s (record t { modules = delete_key p t.modules })
delete-Keeps p s t new k = record {
  keeps = λ key m a e.
      lookup-delete_key key p t.modules
      ∙ if_split (λ o. o ≡ some m) (equal key p) none (lookup key t.modules)
          (λ same. absurd (
            grind (arith, sym (ap (λ x. lookup x s.modules) ((equal_iff key p).0 same) ∙ new) ∙ e)))
          (λ other. k.keeps key m a e);
}

pub or_else-Keeps :
    (s : Requires) (r : Answer × Requires) (k : Requires → Answer × Requires)
    → Keeps s r.1
    → ((t : Requires) → Keeps t (k t).1)
    → Keeps s (or_else r k).1
unfolding or_else
or_else-Keeps s (found m, t) k a b = a
or_else-Keeps s (not_found, t) k a b = through a (b t)
or_else-Keeps s (error e, t) k a b = a
or_else-Keeps s (invalid_module, t) k a b = a
or_else-Keeps s (no_such_builtin, t) k a b = a

-- Built-in modules have names that are no absolute paths.
abbrev pub IsNamed : Host → Type 0
IsNamed h = (name : Bytes) → h.is_builtin name ≡ true → has_prefix name (codes "/") ≡ false

module _ (h : Host) (named : IsNamed h) (run : Bytes → ℕ → Requires → Ending × Requires)
    (kept : (path : Bytes) (m : ℕ) (s : Requires) → Keeps s (run path m s).1) where
  after_run-Keeps :
      (path : Bytes) (m : ℕ) (s : Requires) (r : Ending × Requires)
      → lookup path s.modules ≡ none
      → Keeps s r.1
      → Keeps s (after_run path m r).1
  after_run-Keeps path m s (completed, t) new k = k
  after_run-Keeps path m s (no_file, t) new k = delete-Keeps path s t new k
  after_run-Keeps path m s (failed e, t) new k = delete-Keeps path s t new k

  cached-Keeps :
      (path : Bytes) (o : Option ℕ) (s : Requires)
      → lookup path s.modules ≡ o
      → Keeps s (load_cached h run path o s).1
  cached-Keeps path (some m) s e = same_modules refl
  cached-Keeps path none s e =
      let counted = record s { next_module = suc s.next_module } in
      after_run-Keeps path s.next_module s _ e (
        through (through {t = counted} (same_modules refl) (put-Keeps path s.next_module counted e))
          (kept path s.next_module _))

  load_module-Keeps : (path : Bytes) (s : Requires) → Keeps s (load_module h run path s).1
  unfolding load_module
  load_module-Keeps path s = cached-Keeps path (lookup path s.modules) s refl

  load_as_file-Keeps : (path : Bytes) (s : Requires) → Keeps s (load_as_file h run path s).1
  unfolding load_as_file
  load_as_file-Keeps path s =
      or_else-Keeps s _ _ (load_module-Keeps path s)
        (λ t. or_else-Keeps t _ _ (load_module-Keeps _ t) (λ u. load_module-Keeps _ u))

  load_index-Keeps : (modpath : Bytes) (s : Requires) → Keeps s (load_index h run modpath s).1
  unfolding load_index
  load_index-Keeps modpath s =
      or_else-Keeps s _ _ (load_module-Keeps _ s) (λ t. load_module-Keeps _ t)

  load_main-Keeps :
      (modpath : Bytes) (o : Option Bytes) (s : Requires) → Keeps s (load_main h run modpath o s).1
  load_main-Keeps modpath none s = load_index-Keeps modpath s
  load_main-Keeps modpath (some main) s =
      or_else-Keeps s _ _ (load_as_file-Keeps _ s) (load_index-Keeps _)

  pub load_path-Keeps :
      (path : Bytes) (s : Requires) → Keeps s (load_as_file_or_directory h run path s).1
  unfolding load_as_file_or_directory load_as_directory
  load_path-Keeps path s = or_else-Keeps s _ _ (load_as_file-Keeps path s) (load_main-Keeps path _)

  pub load_global-Keeps :
      (modpath : Bytes) (folders : List Bytes) (s : Requires)
      → Keeps s (load_global h run modpath folders s).1
  unfolding load_global load_node_module
  load_global-Keeps modpath [] s = same_modules refl
  load_global-Keeps modpath (f ∷ fs) s =
      or_else-Keeps s _ _ (load_path-Keeps _ s) (load_global-Keeps modpath fs)

  pub load_upwards-Keeps :
      (n : ℕ) (modpath start : Bytes) (s : Requires)
      → Keeps s (load_upwards h run n modpath start s).1
  unfolding load_upwards load_node_module
  load_upwards-Keeps zero modpath start s = same_modules refl
  load_upwards-Keeps (suc n) modpath start s = or_else-Keeps s _ _ (load_path-Keeps _ s) (λ t.
      if_split (λ (r : Answer × Requires). Keeps t r.1) (equal start (codes "..")) (not_found, t)
        (if equal (h.dir start) start
          then (not_found, t)
          else load_upwards h run n modpath (h.dir start) t)
        (λ p. same_modules refl)
        (λ p.
          if_split (λ (r : Answer × Requires). Keeps t r.1) (equal (h.dir start) start)
            (not_found, t) (load_upwards h run n modpath (h.dir start) t) (λ q. same_modules refl)
            (λ q. load_upwards-Keeps n modpath (h.dir start) t)))
