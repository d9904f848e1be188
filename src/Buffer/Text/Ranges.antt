-- ===== src/Buffer/Text/Ranges.antt =====
-- Which bytes `concat` and `write` copy.
use goja_ext.Prelude.{
  ℕ, zero, suc, ◌+◌, ◌-◌, ◌<◌, ◌≤◌, ◌^◌, if◌then◌else◌, List, [], ◌∷◌, ◌++◌, append_assoc, map,
  Option, none, some, ℤ, pos, negsuc, ltb, leb, min, length, length-append, length-take, take,
  get_elem?, Bytes, ◌≡◌, refl, ap, ◌∙◌, sym, arith, inl, inr, ◌⊎◌, Bool-cases, if_split,
}
use goja_ext.Args.{Outcome, ok, fail, ◌>>=◌, go_fault, Arg, string, optional_integer_argument}
use goja_ext.Buffer.Access.{
  get_offset_argument, copy_at, copy_into, length-copy_at, get_elem?-copy_at,
}
use goja_ext.Buffer.Text.{
  Codecs, StringCodec, get_string_codec, zeros, copy_all, all_bytes, chosen_length, total_argument,
  total_length, wrap_int64, make_bytes, concat, prefix_to, write_string,
}
use goja_ext.Buffer.Text.Repeat.{copy_at-inside, get_elem?-take, length-zeros}

-- The bytes cut, or filled up with zeros, to a length.
abbrev pub pad : ℕ → Bytes → Bytes
pad zero s = []
pad (suc m) [] = 0 ∷ pad m []
pad (suc m) (x ∷ s) = x ∷ pad m s

abbrev pub flat : List Bytes → Bytes
flat [] = []
flat (s ∷ ss) = s ++ flat ss

pad-nil : (m : ℕ) → pad m [] ≡ zeros m
pad-nil zero = refl
pad-nil (suc m) = ap (λ s. 0 ∷ s) (pad-nil m)

-- A buffer that is too long, and one that fits.
copy_into_long : (s r : Bytes) (m : ℕ) → m < length s → copy_into s (zeros m) ≡ pad m (s ++ r)
copy_into_long [] r m h = absurd (omega (arith, h))
copy_into_long (x ∷ s) r zero h = refl
copy_into_long (x ∷ s) r (suc m) h = ap (λ t. x ∷ t) (copy_into_long s r m (omega (arith, h)))

copy_into_short :
    (s : Bytes) (m : ℕ) → length s ≤ m → copy_into s (zeros m) ≡ s ++ zeros (m - length s)
copy_into_short [] m h = ap zeros (omega arith)
copy_into_short (x ∷ s) zero h = absurd (omega (arith, h))
copy_into_short (x ∷ s) (suc m) h =
    ap (λ t. x ∷ t) (copy_into_short s m (omega (arith, h)) ∙ ap (λ k. s ++ zeros k) (omega arith))

pad-append : (s r : Bytes) (m : ℕ) → length s ≤ m → pad m (s ++ r) ≡ s ++ pad (m - length s) r
pad-append [] r m h = ap (λ k. pad k r) (omega arith)
pad-append (x ∷ s) r zero h = absurd (omega (arith, h))
pad-append (x ∷ s) r (suc m) h =
    ap (λ t. x ∷ t) (pad-append s r m (omega (arith, h)) ∙ ap (λ k. s ++ pad k r) (omega arith))

copy_at-append : (pre s dst : Bytes) → copy_at (length pre) s (pre ++ dst) ≡ pre ++ copy_into s dst
copy_at-append [] s dst = refl
copy_at-append (x ∷ pre) s dst = ap (λ t. x ∷ t) (copy_at-append pre s dst)

copy_all-pad :
    (bufs : List Bytes) (pre : Bytes) (m : ℕ)
    → copy_all (length pre) bufs (pre ++ zeros m) ≡ pre ++ pad m (flat bufs)
unfolding copy_all
copy_all-pad [] pre m = ap (λ s. pre ++ s) (sym (pad-nil m))
copy_all-pad (buf ∷ bufs) pre m =
    let room : length (pre ++ zeros m) - length pre ≡ m =
      omega (arith, length-append pre (zeros m), length-zeros m) in
    let put : copy_at (length pre) buf (pre ++ zeros m) ≡ pre ++ copy_into buf (zeros m) =
      copy_at-append pre buf (zeros m) in
    if_split (λ res. res ≡ pre ++ pad m (buf ++ flat bufs))
      (ltb (length (pre ++ zeros m) - length pre) (length buf))
      (copy_at (length pre) buf (pre ++ zeros m))
      (copy_all (length pre + length buf) bufs (copy_at (length pre) buf (pre ++ zeros m)))
      (λ over.
        put ∙ ap (λ t. pre ++ t) (copy_into_long buf (flat bufs) m (ground (arith, over, room))))
      (λ fits.
        one_fits put (ground (arith, fits, room)) (copy_all-pad bufs (pre ++ buf) (m - length buf)))
  where
    one_fits :
        copy_at (length pre) buf (pre ++ zeros m) ≡ pre ++ copy_into buf (zeros m)
        → length buf ≤ m
        → copy_all (length (pre ++ buf)) bufs ((pre ++ buf) ++ zeros (m - length buf))
          ≡ (pre ++ buf) ++ pad (m - length buf) (flat bufs)
        → copy_all (length pre + length buf) bufs (copy_at (length pre) buf (pre ++ zeros m))
          ≡ pre ++ pad m (buf ++ flat bufs)
    one_fits put short rest =
        ap (copy_all (length pre + length buf) bufs) (
          put
          ∙ ap (λ t. pre ++ t) (copy_into_short buf m short)
          ∙ sym (append_assoc pre buf (zeros (m - length buf))))
        ∙ ap (λ o. copy_all o bufs ((pre ++ buf) ++ zeros (m - length buf)))
            (sym (length-append pre buf))
        ∙ rest
        ∙ append_assoc pre buf (pad (m - length buf) (flat bufs))
        ∙ ap (λ t. pre ++ t) (sym (pad-append buf (flat bufs) m short))

all_bytes-some : (bufs : List Bytes) → all_bytes (map some bufs) ≡ ok bufs
unfolding all_bytes
all_bytes-some [] = refl
all_bytes-some (buf ∷ bufs) = rw (all_bytes-some bufs) refl

-- What a new buffer of `n` bytes ends with, if the source is filled in.
abbrev pub Padded : ℕ → ℤ → Bytes → Outcome Bytes
Padded max (negsuc n) s = fail go_fault
Padded max (pos n) s = if ltb max n then fail go_fault else ok (pad n s)

copied :
    (max : ℕ) (bufs : List Bytes) (n : ℤ)
    → (make_bytes max n >>= λ res. ok (copy_all 0 bufs res)) ≡ Padded max n (flat bufs)
copied max bufs (negsuc n) = refl
copied max bufs (pos n) = elim (Bool-cases (ltb max n)) [
  | inl p ↦ rw p refl
  | inr p ↦ rw p (ap ok (copy_all-pad bufs [] n))
]

length-flat : (bufs : List Bytes) → total_length bufs ≡ length (flat bufs)
unfolding total_length
length-flat [] = refl
length-flat (buf ∷ bufs) = omega (arith, length-flat bufs, length-append buf (flat bufs))

pad_whole : (s : Bytes) → pad (length s) s ≡ s
pad_whole [] = refl
pad_whole (x ∷ s) = ap (λ t. x ∷ t) (pad_whole s)

-- The bytes of buffers, with what a length argument asks for.
abbrev pub Joined : ℕ → Bytes → Option ℕ → Outcome Bytes
Joined max s none = if ltb max (length s) then fail go_fault else ok s
Joined max s (some n) = if ltb max n then fail go_fault else ok (pad n s)

joined :
    (max : ℕ) (bufs : List Bytes) (given : Option ℕ)
    → length (flat bufs) < 2 ^ 63
    → Padded max (chosen_length given bufs) (flat bufs) ≡ Joined max (flat bufs) given
joined max bufs (some n) h = refl
joined max bufs none h =
    ap (λ n. Padded max (wrap_int64 n) (flat bufs)) (length-flat bufs)
    ∙ ap (λ z. Padded max z (flat bufs)) (wrap_int64_of (length (flat bufs)) h)
    ∙ ap (λ s. if ltb max (length (flat bufs)) then fail go_fault else ok s) (pad_whole (flat bufs))
  where
    wrap_int64_of : (n : ℕ) → n < 2 ^ 63 → wrap_int64 n ≡ pos n
    wrap_int64_of n h = ground arith

-- concat of buffers, of which there is at least one and that have less than 2^63 bytes together, gives
-- their bytes one after the other if no length is given, and these bytes cut or filled up with zeros to
-- the length if one is given that is accepted. Where the result has more bytes than the Go runtime makes
-- slices of, that faults; a length that is not accepted is refused with the error of its check.
pub concat-pad :
    (max : ℕ) (buf : Bytes) (bufs : List Bytes) (total : Option Arg)
    → length (flat (buf ∷ bufs)) < 2 ^ 63
    → concat max (map some (buf ∷ bufs)) total
      ≡ (total_argument total >>= λ given. Joined max (flat (buf ∷ bufs)) given)
unfolding concat
concat-pad max buf bufs total h = by_given (total_argument total)
  where
    by_given :
        (m : Outcome (Option ℕ))
        → (m >>= λ given. all_bytes (map some (buf ∷ bufs)) >>= λ byte_bufs.
            make_bytes max (chosen_length given byte_bufs) >>= λ res. ok (copy_all 0 byte_bufs res))
          ≡ (m >>= λ given. Joined max (flat (buf ∷ bufs)) given)
    by_given (fail e) = refl
    by_given (ok given) = rw (all_bytes-some (buf ∷ bufs)) (
        copied max (buf ∷ bufs) (chosen_length given (buf ∷ bufs))
        ∙ joined max (buf ∷ bufs) given h)

get_elem?-none : (s : Bytes) (i : ℕ) → length s ≤ i → get_elem? s i ≡ none
get_elem?-none [] i h = refl
get_elem?-none (x ∷ s) zero h = absurd (omega (arith, h))
get_elem?-none (x ∷ s) (suc i) h = get_elem?-none s i (omega (arith, h))

-- From an offset on, `n` bytes are the first ones of a text, and outside nothing changes.
pub record Holds (raw : Bytes) (o n : ℕ) (bb bb' : Bytes) : Type 0 where
  pub inside : (k : ℕ) → k < n → get_elem? bb' (o + k) ≡ get_elem? raw k
  pub outside : (i : ℕ) → (i < o) ⊎ (o + n ≤ i) → get_elem? bb' i ≡ get_elem? bb i
  pub same_length : length bb' ≡ length bb

copy_at-Holds :
    (raw : Bytes) (l o : ℕ) (bb : Bytes)
    → o ≤ length bb
    → Holds raw o (min (length bb - o) (min l (length raw))) bb (copy_at o (take l raw) bb)
copy_at-Holds raw l o bb h = record {
  inside = λ k small.
      copy_at-inside o (take l raw) bb k (o + k) refl (omega (arith, length-take l raw, small))
        (omega (arith, h, small))
      ∙ get_elem?-take l raw k (omega (arith, small));
  outside = outside_of;
  same_length = length-copy_at o (take l raw) bb;
}
  where
    outside_of :
        (i : ℕ)
        → (i < o) ⊎ (o + min (length bb - o) (min l (length raw)) ≤ i)
        → get_elem? (copy_at o (take l raw) bb) i ≡ get_elem? bb i
    outside_of i (inl before) = get_elem?-copy_at o (take l raw) bb i (inl before)
    outside_of i (inr behind) = elim (Bool-cases (leb (o + length (take l raw)) i)) [
      | inl past ↦ get_elem?-copy_at o (take l raw) bb i (inr (ground (arith, past)))
      | inr inner ↦
          let over : length bb ≤ i = ground (arith, inner, behind, length-take l raw) in
          get_elem?-none (copy_at o (take l raw) bb) i
            (omega (arith, over, length-copy_at o (take l raw) bb))
          ∙ sym (get_elem?-none bb i over)
    ]

take_all : (l : ℕ) (s : Bytes) → length s ≤ l → take l s ≡ s
take_all zero [] h = refl
take_all zero (x ∷ s) h = absurd (omega (arith, h))
take_all (suc l) [] h = refl
take_all (suc l) (x ∷ s) h = ap (λ t. x ∷ t) (take_all l s (omega (arith, h)))

prefix_to-take : (l : ℕ) (raw : Bytes) → prefix_to (pos l) raw ≡ ok (take l raw)
prefix_to-take l raw =
    if_split (λ r. r ≡ ok (take l raw)) (ltb (length raw) l) (ok raw) (ok (take l raw))
      (λ over. ap ok (sym (take_all l raw (ground (arith, over))))) (λ _. refl)

-- What `write` ends with, for a length: a fault if it is negative, and the bytes and their number if not.
abbrev pub Writes : ℤ → Bytes → ℕ → Bytes → Outcome (Bytes × ℕ) → Type 0
Writes (negsuc l) raw o bb r = r ≡ fail go_fault
Writes (pos l) raw o bb r =
    let n = min (length bb - o) (min l (length raw)) in
    (bb' : Bytes) × (r ≡ ok (bb', n)) × Holds raw o n bb bb'

-- write of a string with an accepted offset, a length and a known encoding puts the first of its bytes
-- there, as many as the length, the string and the buffer have, and returns their number; with a negative
-- length the Go runtime faults.
pub write_string-Writes :
    (codecs : Codecs) (shown : Arg → Bytes) (to_number : Arg → Option ℤ) (text : Bytes)
    (offset_arg length_arg enc : Arg) (bb : Bytes) (o : ℕ) (l : ℤ) (codec : StringCodec)
    → get_offset_argument offset_arg bb 0 ≡ ok o
    → o ≤ length bb
    → optional_integer_argument length_arg (pos (length bb - o)) ≡ ok l
    → get_string_codec codecs shown enc ≡ ok codec
    → Writes l
        (codec.decode text)
        o
        bb
        (write_string codecs shown to_number (string text) offset_arg length_arg enc bb)
unfolding write_string
write_string-Writes codecs shown to_number text offset_arg length_arg enc bb o (negsuc l) codec ho h
      hl hc =
    rw ho (rw hl (rw hc refl))
write_string-Writes codecs shown to_number text offset_arg length_arg enc bb o (pos l) codec ho h hl
      hc =
    let raw = codec.decode text in
    let count : min (length bb - o) (length (take l raw))
        ≡ min (length bb - o) (min l (length raw)) =
      ap (min (length bb - o)) (length-take l raw) in
    (
      copy_at o (take l raw) bb,
      rw ho (
          rw hl (
            rw hc (rw (prefix_to-take l raw) (ap (λ n. ok (copy_at o (take l raw) bb, n)) count)))),
      copy_at-Holds raw l o bb h,
    )
