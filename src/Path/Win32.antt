-- ===== src/Path/Win32.antt =====
-- path/win32.go. A parameter `cwd` stands for the field that reads the runtime's directory.
pub mod Prefix
pub mod Normal
use goja_ext.Prelude.{
  ℕ, zero, suc, ◌+◌, ◌-◌, Bool, true, false, not, ◌&&◌, ◌||◌, List, [], ◌∷◌, ◌++◌, Option, none,
  some, ◌==◌, ltb, leb, if◌then◌else◌, length, take, drop, init, Bytes, equal, codes, split, join,
  replace_byte, trim_right, split_last,
}
use mathlib.Core.List.{reverse}
use goja_ext.Path.Segments.{is_empty, last_is, common, dots, strip_ext}

abbrev pub to_backslash : Bytes → Bytes
to_backslash p = replace_byte b'/' b'\\' p

abbrev pub is_win_separator : ℕ → Bool
is_win_separator c = c == b'\\' || c == b'/'

abbrev pub is_drive_letter : ℕ → Bool
is_drive_letter c = leb b'a' c && leb c b'z' || leb b'A' c && leb c b'Z'

-- `for idx < len(p) && test(p[idx]) { idx++ }`: the bytes passed over, and the others.
unfoldable pub span : (ℕ → Bool) → Bytes → Bytes × Bytes
span test [] = ([], [])
span test (c ∷ s) = let (a, b) = span test s in if test c then (c ∷ a, b) else ([], c ∷ s)

-- The prefix behind a drive letter and its colon.
unfoldable pub drive_prefix : Bytes → Bytes → Bytes × Bytes
drive_prefix drive [] = (drive, [])
drive_prefix drive (c ∷ s) =
    if is_win_separator c then (drive ++ (b'\\' ∷ []), s) else (drive, c ∷ s)

-- The three loops over a UNC prefix, behind its two separators.
unfoldable pub unc_prefix : Bytes → Bytes → Bytes × Bytes
unfolding span
unc_prefix start s =
    let (host, s₁) = span (λ c. not (is_win_separator c)) s in
    let (seps, s₂) = span is_win_separator s₁ in
    let (share, s₃) = span (λ c. not (is_win_separator c)) s₂ in
    (start ++ host ++ seps ++ share, s₃)

unfoldable pub split_win_prefix : Bytes → Bytes × Bytes
unfolding drive_prefix unc_prefix
split_win_prefix [] = ([], [])
split_win_prefix (c ∷ []) = if is_win_separator c then (b'\\' ∷ [], []) else ([], c ∷ [])
split_win_prefix (c ∷ d ∷ s) =
    if is_drive_letter c && (d == b':' || d == b'|')
    then drive_prefix (c ∷ d ∷ []) s
    else if is_win_separator c && is_win_separator d
    then unc_prefix (c ∷ d ∷ []) s
    else if is_win_separator c
    then (b'\\' ∷ [], d ∷ s)
    else ([], c ∷ d ∷ s)

-- The switch of `cleanWinSegments`, on the list built so far.
abbrev pub clean_step : List Bytes → Bytes → List Bytes
clean_step out seg =
    if equal seg [] || equal seg (codes ".")
    then out
    else if equal seg (codes "..")
    then init out
    else out ++ (seg ∷ [])

-- The loop of `cleanWinSegments`.
unfoldable pub clean_from : List Bytes → List Bytes → List Bytes
clean_from out [] = out
clean_from out (seg ∷ parts) = clean_from (clean_step out seg) parts

abbrev pub clean_win_segments : List Bytes → List Bytes
clean_win_segments parts = clean_from [] parts

abbrev pub is_bare_drive : Bytes → Bool
is_bare_drive (c ∷ d ∷ []) = is_drive_letter c && d == b':'
is_bare_drive _ = false

-- The separator that `normalize` puts between a prefix and the first segment.
abbrev pub joint : Bytes → Bytes
joint prefix =
    if not (is_empty prefix) && (not (last_is b'\\' prefix) && not (is_bare_drive prefix))
    then b'\\' ∷ []
    else []

-- `normalize`, on the segments that are left.
unfoldable pub assemble : Bytes → List Bytes → Bytes
assemble prefix [] = if is_empty prefix then codes "." else prefix
assemble prefix (seg ∷ segs) = prefix ++ (joint prefix ++ join b'\\' (seg ∷ segs))

unfoldable pub normalize : Bytes → Bytes
unfolding split_win_prefix clean_from assemble
normalize p =
    let (prefix, rest) = split_win_prefix (to_backslash p) in
    assemble prefix (clean_win_segments (split b'\\' rest))

-- `win32Impl.join`
unfoldable pub join_paths : List Bytes → Bytes
unfolding normalize
join_paths parts = normalize (join b'\\' parts)

unfoldable pub is_absolute_bytes : Bytes → Bool
is_absolute_bytes [] = false
is_absolute_bytes (c ∷ []) = is_win_separator c
is_absolute_bytes (c ∷ d ∷ []) = is_win_separator c
is_absolute_bytes (c ∷ d ∷ e ∷ s) =
    if is_drive_letter c && ((d == b':' || d == b'|') && (e == b'\\' || e == b'/'))
    then true
    else is_win_separator c

unfoldable pub is_absolute : Bytes → Bool
unfolding is_absolute_bytes
is_absolute p = is_absolute_bytes (to_backslash p)

-- The loop of `resolve`: the parts from the last to the first, then the current directory.
unfoldable pub resolve_from : List Bytes → Bytes → Bytes
unfolding is_absolute
resolve_from [] resolved = resolved
resolve_from (part ∷ parts) resolved =
    let q = to_backslash part in
    let skip = is_empty part in
    let rest = resolve_from parts (if skip then resolved else q ++ (b'\\' ∷ resolved)) in
    if not skip && is_absolute q then q ++ (b'\\' ∷ resolved) else rest

unfoldable pub resolve : Bytes → List Bytes → Bytes
unfolding normalize resolve_from
resolve cwd parts = normalize (resolve_from (reverse parts ++ cwd ∷ []) [])

-- `rel`
unfoldable pub relative_segments : List Bytes → List Bytes → List Bytes
unfolding common dots
relative_segments from to = let i = common from to in dots (length (drop i from)) ++ drop i to

abbrev pub join_or_dot : List Bytes → Bytes
join_or_dot [] = codes "."
join_or_dot (seg ∷ segs) = join b'\\' (seg ∷ segs)

unfoldable pub relative : Bytes → Bytes → Bytes
unfolding normalize split_win_prefix relative_segments
relative from to =
    let from' = normalize (to_backslash from) in
    let to' = normalize (to_backslash to) in
    let (from_prefix, from_rest) = split_win_prefix from' in
    let (to_prefix, to_rest) = split_win_prefix to' in
    if equal from' to'
    then []
    else if not (equal from_prefix to_prefix)
    then to'
    else join_or_dot (
        relative_segments (clean_win_segments (split b'\\' from_rest))
          (clean_win_segments (split b'\\' to_rest)))

abbrev pub behind_last : Bytes → Option (Bytes × Bytes) → Bytes
behind_last p none = p
behind_last p (some (a, b)) = b

unfoldable pub basename : Bytes → Bytes
unfolding trim_right split_last
basename p =
    let q = trim_right b'\\' (to_backslash p) in
    if is_empty q then [] else behind_last q (split_last b'\\' q)

unfoldable pub basename_ext : Bytes → Bytes → Bytes
unfolding basename
basename_ext p ext = strip_ext (basename p) ext

abbrev pub dirname_of : Bytes → Option (Bytes × Bytes) → Bytes
dirname_of prefix none = prefix
dirname_of prefix (some (a, b)) = let out = prefix ++ a in if is_empty out then codes "." else out

unfoldable pub dirname : Bytes → Bytes
unfolding split_win_prefix trim_right split_last
dirname p =
    let q = to_backslash p in
    let (prefix, rest) = split_win_prefix q in
    if is_empty rest then q else dirname_of prefix (split_last b'\\' (trim_right b'\\' rest))

-- `extname`, at the last dot of the base name: none at its start, none at its end.
abbrev pub ext_at : Option (Bytes × Bytes) → Bytes
ext_at none = []
ext_at (some (stem, ext)) = if is_empty stem then [] else if is_empty ext then [] else b'.' ∷ ext

unfoldable pub extname : Bytes → Bytes
unfolding basename split_last
extname p = ext_at (split_last b'.' (basename p))

pub record Parsed : Type 0 where
  pub root : Bytes
  pub dir : Bytes
  pub base : Bytes
  pub name : Bytes
  pub ext : Bytes

unfoldable pub parse : Bytes → Parsed
unfolding basename extname dirname split_win_prefix
parse p =
    let q = to_backslash p in
    let root = (split_win_prefix q).0 in
    let base = if is_empty (basename q) then root else basename q in
    let ext = extname q in
    let dir = dirname q in
    record {
      root = root;
      dir = if equal dir (codes ".") then [] else dir;
      base = base;
      name = if is_empty ext then base else take (length base - length ext) base;
      ext = ext;
    }

unfoldable pub format : Bytes → Bytes → Bytes → Bytes
format root dir base =
    let dir' = to_backslash dir in
    if is_empty dir
    then to_backslash root ++ base
    else if equal base (codes "\\") && equal dir' root
    then to_backslash root
    else if equal dir' root
    then to_backslash root ++ base
    else if last_is b'\\' dir'
    then dir' ++ base
    else dir' ++ (b'\\' ∷ base)
