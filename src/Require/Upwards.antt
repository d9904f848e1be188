-- ===== src/Require/Upwards.antt =====
-- require/resolve.go: the search through the parents of a folder comes to an end.
use goja_ext.Prelude.{
  ℕ, zero, suc, ◌<◌, Bool, true, false, Bytes, codes, equal, if◌then◌else◌, ◌≡◌, refl, arith,
}
use goja_ext.Require.{
  Answer, found, not_found, error, invalid_module, no_such_builtin, Requires, Ending, Host,
}
use goja_ext.Require.Load.{or_else, load_upwards, load_node_module, node_folder}

same_else :
    (r : Answer × Requires) (k l : Requires → Answer × Requires)
    → ((s : Requires) → k s ≡ l s)
    → or_else r k ≡ or_else r l
unfolding or_else
same_else (found m, s) k l e = refl
same_else (not_found, s) k l e = e s
same_else (error x, s) k l e = refl
same_else (invalid_module, s) k l e = refl
same_else (no_such_builtin, s) k l e = refl

-- The tests of the loop, before and after.
same_turn :
    (a b : Bool) (x y : Answer × Requires)
    → (b ≡ false → x ≡ y)
    → (s : Requires)
    → (if a then (not_found, s) else if b then (not_found, s) else x)
      ≡ (if a then (not_found, s) else if b then (not_found, s) else y)
same_turn true b x y e s = refl
same_turn false true x y e s = refl
same_turn false false x y e s = e refl

-- Where filepath.Dir gives a path of a lower rank, or the path itself: a bound above the rank of the
-- folder that the search starts from is enough, since every such bound gives the same, so the loop of
-- loadNodeModules ends by its own tests.
pub load_upwards_enough :
    (h : Host) (run : Bytes → ℕ → Requires → Ending × Requires) (rank : Bytes → ℕ)
    → ((p : Bytes) → equal (h.dir p) p ≡ false → rank (h.dir p) < rank p)
    → (n k : ℕ) (modpath start : Bytes) (s : Requires) → rank start < n
    → rank start < k
    → load_upwards h run n modpath start s ≡ load_upwards h run k modpath start s
unfolding load_upwards
load_upwards_enough h run rank lower zero k modpath start s p q = absurd (omega arith)
load_upwards_enough h run rank lower (suc n) zero modpath start s p q = absurd (omega arith)
load_upwards_enough h run rank lower (suc n) (suc k) modpath start s p q =
    same_else (load_node_module h run modpath (node_folder h run start) s) _ _ (λ t.
      same_turn (equal start (codes "..")) (equal (h.dir start) start)
        (load_upwards h run n modpath (h.dir start) t)
        (load_upwards h run k modpath (h.dir start) t)
        (λ other.
          load_upwards_enough h run rank lower n k modpath (h.dir start) t
            (omega (arith, lower start other)) (omega (arith, lower start other)))
        t)
