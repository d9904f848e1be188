-- ===== src/StringDecoder/Chunks.antt =====
-- string_decoder/module.go: decoding chunk by chunk.
use goja_ext.Prelude.{
  ℕ, zero, suc, ◌-◌, ◌*◌, ◌/◌, ◌%◌, ◌≤◌, Bool, true, false, not, ◌&&◌, List, [], ◌∷◌, ◌++◌, some,
  ◌≡◌, refl, sym, ap, ◌∙◌, length, length-take, take, drop, get_or, leb, Bytes, arith, append-nil,
  append_assoc, if_split, take-append-drop,
}
use goja_ext.StringDecoder.{
  ucs2, base64, Library, units, unit16, is_high_surrogate, usable_utf16, usable_base64,
  decode_pending_utf16, decode_pending_base64, decode_pending, write, end, behind_text, chunked,
}

-- The chunks put together.
abbrev pub joined : List Bytes → Bytes
joined [] = []
joined (c ∷ chunks) = c ++ joined chunks

twice : ℕ → ℕ
twice zero = 0
twice (suc n) = suc (suc (twice n))

twice_double : (n : ℕ) → twice n ≡ 2 * n
unfolding twice
twice_double zero = omega arith
twice_double (suc n) = omega (arith, twice_double n)

units-split :
    (n : ℕ) (p q : Bytes)
    → twice n ≤ length p
    → units (take (twice n) p) ++ units (drop (twice n) p ++ q) ≡ units (p ++ q)
unfolding units twice
units-split zero p q h = refl
units-split (suc n) [] q h = ground arith
units-split (suc n) (a ∷ []) q h = ground (arith, twice_double n)
units-split (suc n) (a ∷ b ∷ p) q h =
    ap (λ t. unit16 a b ∷ t) (units-split n p q (omega (arith, h)))

-- The bytes taken are an even number.
usable_even :
    (flush : Bool) (p : Bytes) → (n : ℕ) × ((usable_utf16 flush p ≡ twice n) × twice n ≤ length p)
unfolding usable_utf16
usable_even flush p =
    let h = length p / 2 in
    let n = length p - length p % 2 in
    let t =
      not flush
      && (leb 2 n && is_high_surrogate (unit16 (get_or p (n - 2) 0) (get_or p (n - 1) 0))) in
    if_split (λ u. (m : ℕ) × ((u ≡ twice m) × twice m ≤ length p)) t (n - 2) n
      (λ _. (h - 1, (omega (arith, twice_double (h - 1)), omega (arith, twice_double (h - 1)))))
      (λ _. (h, (omega (arith, twice_double h), omega (arith, twice_double h))))

units-take :
    (n : ℕ) (p : Bytes)
    → twice n ≤ length p
    → length p ≤ suc (twice n)
    → units (take (twice n) p) ≡ units p
unfolding units twice
units-take zero [] h k = refl
units-take zero (a ∷ []) h k = refl
units-take zero (a ∷ b ∷ p) h k = ground arith
units-take (suc n) [] h k = ground arith
units-take (suc n) (a ∷ []) h k = ground (arith, twice_double n)
units-take (suc n) (a ∷ b ∷ p) h k =
    ap (λ t. unit16 a b ∷ t) (units-take n p (omega (arith, h)) (omega (arith, k)))

flush_units : (p : Bytes) → units (take (usable_utf16 true p) p) ≡ units p
unfolding usable_utf16
flush_units p =
    let h = length p / 2 in
    let q : length p - length p % 2 ≡ twice h = omega (arith, twice_double h) in
    ap (λ n. units (take n p)) q
    ∙ units-take h p (omega (arith, twice_double h)) (omega (arith, twice_double h))

-- Writing a text in UTF-16 in chunks, cut anywhere, and ending it gives the units of the whole text.
pub ucs2-chunked :
    (lib : Library) (chunks : List Bytes) (p : Bytes)
    → chunked lib chunks (record { encoding = ucs2; pending = p })
      ≡ some (units (p ++ joined chunks))
unfolding chunked write end decode_pending decode_pending_utf16
ucs2-chunked lib [] p = ap some (flush_units p ∙ ap units (sym (append-nil p)))
ucs2-chunked lib (c ∷ chunks) p =
    let b = p ++ c in
    let u = usable_utf16 false b in
    let (n, (e, h)) = usable_even false b in
    let law : units (take u b) ++ units (drop u b ++ joined chunks) ≡ units (b ++ joined chunks) =
      ap (λ m. units (take m b) ++ units (drop m b ++ joined chunks)) e
      ∙ units-split n b (joined chunks) h in
    ap (behind_text lib (units (take u b))) (ucs2-chunked lib chunks (drop u b))
    ∙ ap some (law ∙ ap units (append_assoc p c (joined chunks)))

take_all : (p : Bytes) → take (length p) p ≡ p
take_all [] = refl
take_all (a ∷ p) = ap (λ t. a ∷ t) (take_all p)

-- Writing bytes in base64 in chunks and ending it gives the text of all the bytes, for an encoding that
-- encodes groups of three bytes by themselves.
pub base64-chunked :
    (lib : Library) (chunks : List Bytes) (p : Bytes)
    → ((x y : Bytes)
        → length x % 3 ≡ 0
        → lib.encode_base64 (x ++ y) ≡ lib.encode_base64 x ++ lib.encode_base64 y)
    → chunked lib chunks (record { encoding = base64; pending = p })
      ≡ some (lib.encode_base64 (p ++ joined chunks))
unfolding chunked write end decode_pending decode_pending_base64 usable_base64
base64-chunked lib [] p law = ap (λ x. some (lib.encode_base64 x)) (take_all p ∙ sym (append-nil p))
base64-chunked lib (c ∷ chunks) p law =
    let b = p ++ c in
    let u = length b - length b % 3 in
    let h : length (take u b) % 3 ≡ 0 = omega (arith, length-take u b) in
    let t : lib.encode_base64 (take u b) ++ lib.encode_base64 (drop u b ++ joined chunks)
        ≡ lib.encode_base64 (b ++ joined chunks) =
      sym (law (take u b) (drop u b ++ joined chunks) h)
      ∙ ap lib.encode_base64 (
          sym (append_assoc (take u b) (drop u b) (joined chunks))
          ∙ ap (λ x. x ++ joined chunks) (take-append-drop u b)) in
    ap (behind_text lib (lib.encode_base64 (take u b))) (base64-chunked lib chunks (drop u b) law)
    ∙ ap some (t ∙ ap lib.encode_base64 (append_assoc p c (joined chunks)))
