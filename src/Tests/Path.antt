-- ===== src/Tests/Path.antt =====
-- path/: runs and instances.
use goja_ext.Prelude.{true, [], ◌∷◌, ◌≡◌, refl, codes, equal, split, replace_byte}
use goja_ext.Path.Segments.{strip_ext}
use goja_ext.Path.Win32.{
  to_backslash, normalize, join_paths, resolve, relative, basename_ext, dirname, extname, parse,
  format, is_absolute, clean_from, clean_win_segments, relative_segments, split_win_prefix,
}
use goja_ext.Path.Win32.Prefix.{resolve_absolute}
use goja_ext.Path.Win32.Normal.{clean_from-relative_segments, ups, normalize_parents}

run_join :
    join_paths (codes "C:\\foo" ∷ codes "bar" ∷ codes ".." ∷ codes "baz" ∷ [])
    ≡ codes "C:\\foo\\baz"
unfolding join_paths split replace_byte equal
run_join = refl

run_resolve : resolve (codes "C:\\work") (codes "a" ∷ codes "../b" ∷ []) ≡ codes "C:\\work\\b"
unfolding resolve split replace_byte equal
run_resolve = refl

run_relative : relative (codes "C:\\a\\b") (codes "C:\\a\\c\\d") ≡ codes "..\\c\\d"
unfolding relative equal split replace_byte
run_relative = refl

run_basename : basename_ext (codes "C:/x/y.txt") (codes ".txt") ≡ codes "y"
unfolding basename_ext strip_ext replace_byte
run_basename = refl

run_dirname : dirname (codes "C:/x/y.txt") ≡ codes "C:\\x"
unfolding dirname replace_byte
run_dirname = refl

run_extname : extname (codes "C:/x/y.tar.gz") ≡ codes ".gz"
unfolding extname replace_byte
run_extname = refl

run_parse : (parse (codes "C:\\x\\y.txt")).name ≡ codes "y"
unfolding parse replace_byte equal
run_parse = refl

run_format : format (codes "C:\\") (codes "C:\\x") (codes "y.txt") ≡ codes "C:\\x\\y.txt"
unfolding format replace_byte equal
run_format = refl

absolute : is_absolute (codes "D:/z") ≡ true
unfolding is_absolute replace_byte
absolute = refl

resolve_absolute_example :
    resolve (codes "C:\\work") (codes "a" ∷ codes "D:/z" ∷ codes "b" ∷ [])
    ≡ resolve (codes "E:\\") (codes "D:/z" ∷ codes "b" ∷ [])
resolve_absolute_example =
    resolve_absolute (codes "a" ∷ []) (codes "b" ∷ []) (codes "D:/z") (codes "C:\\work")
      (codes "E:\\") absolute

clean_from-relative_segments_example :
    clean_from (clean_win_segments (codes "a" ∷ codes "b" ∷ [])) (
      relative_segments
        (clean_win_segments (codes "a" ∷ codes "b" ∷ []))
        (clean_win_segments (codes "a" ∷ codes "c" ∷ [])))
    ≡ clean_win_segments (codes "a" ∷ codes "c" ∷ [])
clean_from-relative_segments_example =
    clean_from-relative_segments (codes "a" ∷ codes "b" ∷ []) (codes "a" ∷ codes "c" ∷ [])

no_drive : (split_win_prefix (to_backslash (codes "a/../b"))).0 ≡ []
unfolding split_win_prefix replace_byte
no_drive = refl

normalize_parents_example : normalize (ups 2 (codes "a/../b")) ≡ normalize (codes "a/../b")
normalize_parents_example = normalize_parents 2 (codes "a/../b") no_drive
