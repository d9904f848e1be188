-- ===== src/Buffer/Text/Repeat.antt =====
-- What `fill` leaves in a new buffer.
use native.Mathlib.Nat.{mod-eq_of_lt, mul-add, mul-add-mod_self_left}
use goja_ext.Prelude.{
  ℕ, zero, suc, ◌+◌, ◌-◌, ◌*◌, ◌%◌, ◌<◌, ◌≤◌, true, false, [], ◌∷◌, none, some, ltb, leb,
  if◌then◌else◌, min, length, length-take, take, get_elem?, Bytes, ◌≡◌, refl, ap, ◌∙◌, sym, arith,
  inl, inr, ◌⊎◌, Bool-cases, if_split,
}
use goja_ext.Buffer.Access.{copy_at, copy_into, length-copy_at, get_elem?-copy_at}
use goja_ext.Buffer.Text.{StringCodec, repeat, fill_with, zeros}

pub get_elem?-take : (n : ℕ) (s : Bytes) (j : ℕ) → j < n → get_elem? (take n s) j ≡ get_elem? s j
get_elem?-take zero s j h = absurd (omega (arith, h))
get_elem?-take (suc n) [] j h = refl
get_elem?-take (suc n) (x ∷ s) zero h = refl
get_elem?-take (suc n) (x ∷ s) (suc j) h = get_elem?-take n s j (omega (arith, h))

copy_into-inside :
    (src dst : Bytes) (j : ℕ)
    → j < length src
    → j < length dst
    → get_elem? (copy_into src dst) j ≡ get_elem? src j
copy_into-inside [] dst j h l = absurd (omega (arith, h))
copy_into-inside (s ∷ src) [] j h l = absurd (omega (arith, l))
copy_into-inside (s ∷ src) (d ∷ dst) zero h l = refl
copy_into-inside (s ∷ src) (d ∷ dst) (suc j) h l =
    copy_into-inside src dst j (omega (arith, h)) (omega (arith, l))

-- Inside the place written to stand the bytes of the source.
pub copy_at-inside :
    (lo : ℕ) (src dst : Bytes) (j k : ℕ)
    → lo + j ≡ k
    → j < length src
    → k < length dst
    → get_elem? (copy_at lo src dst) k ≡ get_elem? src j
copy_at-inside zero src dst j k e h l =
    let same : k ≡ j = omega (arith, e) in
    ap (get_elem? (copy_into src dst)) same ∙ copy_into-inside src dst j h (omega (arith, l, e))
copy_at-inside (suc lo) src [] j k e h l = absurd (omega (arith, l))
copy_at-inside (suc lo) src (d ∷ dst) j zero e h l = absurd (omega (arith, e))
copy_at-inside (suc lo) src (d ∷ dst) j (suc k) e h l =
    copy_at-inside lo src dst j k (omega (arith, e)) h (omega (arith, l))

pub length-zeros : (n : ℕ) → length (zeros n) ≡ n
length-zeros zero = refl
length-zeros (suc n) = ap suc (length-zeros n)

-- The first bytes are those of the text, over and over.
abbrev pub Repeats : Bytes → ℕ → Bytes → Type 0
Repeats d upto buf = (k : ℕ) → k < upto → get_elem? buf k ≡ get_elem? d (k % length d)

module _ (d : Bytes) where
  -- One turn of the loop, behind whole rounds of the text.
  copy_turn :
      (i q : ℕ) (buf : Bytes)
      → i ≡ length d * q
      → i < length buf
      → Repeats d i buf
      → Repeats d (i + min (length buf - i) i) (copy_at i (take i buf) buf)
  copy_turn i q buf r h same k l = elim (le_total i k) [
    | inl above ↦ behind (k - i) (omega (arith, above))
    | inr below ↦ get_elem?-copy_at i (take i buf) buf k (inl below) ∙ same k below
  ]
    where
      le_total : (a b : ℕ) → (a ≤ b) ⊎ (b < a)
      le_total a b = omega arith

      size : length (take i buf) ≡ i
      size = length-take i buf ∙ omega (arith, h)

      behind :
          (j : ℕ)
          → i + j ≡ k
          → get_elem? (copy_at i (take i buf) buf) k ≡ get_elem? d (k % length d)
      behind j e =
          let short : j < i = omega (arith, e, l) in
          copy_at-inside i (take i buf) buf j k e (omega (arith, size, short))
            (omega (arith, e, l, h))
          ∙ get_elem?-take i buf j short
          ∙ same j short
          ∙ ap (get_elem? d) (
              sym (mul-add-mod_self_left (length d) q j)
              ∙ ap (λ m. m % length d) (omega (arith, r, e)))

  repeat_fills :
      (fuel i q : ℕ) (buf : Bytes)
      → 0 < i
      → (i ≡ length d * q) ⊎ (length buf ≤ i)
      → i ≤ length buf
      → length buf ≤ fuel + i
      → Repeats d i buf
      → (res : Bytes) × (repeat fuel i buf ≡ some res)
        × (length res ≡ length buf)
        × Repeats d (length buf) res
  unfolding repeat
  repeat_fills zero i q buf h r l f same =
      (buf, ground arith, refl, λ k small. same k (omega (arith, small, f)))
  repeat_fills (suc fuel) i q buf h (inr done) l f same =
      (buf, ground arith, refl, λ k small. same k (omega (arith, small, done)))
  repeat_fills (suc fuel) i q buf h (inl r) l f same = elim (Bool-cases (ltb i (length buf))) [
    | inr stop ↦
        let returned : repeat (suc fuel) i buf ≡ some buf = rw stop refl in
        (buf, returned, refl, λ k small. same k (ground (arith, stop, small)))
    | inl go ↦
        let below : i < length buf = ground arith in
        let buf' : Bytes = copy_at i (take i buf) buf in
        let i' : ℕ = i + min (length buf - i) i in
        let size : length buf' ≡ length buf = length-copy_at i (take i buf) buf in
        let more : Repeats d i' buf' = copy_turn i q buf r below same in
        let (res, e, n, reads) =
          repeat_fills fuel i' (q + q) buf' (omega (arith, h)) (whole r) (omega (arith, size, l))
            (omega (arith, size, h, f, below)) more in
        let returned : repeat (suc fuel) i buf ≡ some res = rw go e in
        (res, returned, n ∙ size, λ k small. reads k (omega (arith, small, size)))
  ]
    where
      whole :
          i ≡ length d * q
          → (i + min (length buf - i) i ≡ length d * (q + q))
            ⊎ (length (copy_at i (take i buf) buf) ≤ i + min (length buf - i) i)
      whole e = elim (Bool-cases (leb (i + i) (length buf))) [
        | inl t ↦ inl (ground (arith, t, e, mul-add (length d) q q))
        | inr t ↦ inr (ground (arith, t, length-copy_at i (take i buf) buf))
      ]

-- If the text decodes to some bytes, and the codec asks for no more space than the new buffer has or
-- decodes more bytes than it has, `fill` ends and every byte of the buffer is that of the text, over and
-- over.
pub fill_with-Repeats :
    (codec : StringCodec) (text : Bytes) (size : ℕ)
    → 0 < length (codec.decoded text)
    → (codec.space text ≤ size) ⊎ (size < length (codec.decoded text))
    → (res : Bytes) × (fill_with size codec text (zeros size) ≡ some res)
      × (length res ≡ size)
      × Repeats (codec.decoded text) size res
unfolding fill_with
fill_with-Repeats codec text size some_bytes room =
    let d = codec.decoded text in
    elim (Bool-cases (ltb (length (zeros size)) (length d))) [
      | inl more ↦
          let returned : fill_with size codec text (zeros size)
              ≡ some (take (length (zeros size)) d) =
            rw more refl in
          let long : size < length d = ground (arith, more, length-zeros size) in
          (
            take (length (zeros size)) d,
            returned,
            length-take (length (zeros size)) d ∙ omega (arith, length-zeros size, long),
            λ k small.
                get_elem?-take (length (zeros size)) d k (omega (arith, length-zeros size, small))
                ∙ ap (get_elem? d) (sym (mod-eq_of_lt (omega (arith, small, long)))),
          )
      | inr fits ↦ in_buffer room fits
    ]
  where
    placed : Bytes
    placed = copy_at 0 (codec.decoded text) (zeros size)

    placed_length : length placed ≡ size
    placed_length = length-copy_at 0 (codec.decoded text) (zeros size) ∙ length-zeros size

    first_round :
        length (codec.decoded text) ≤ size
        → Repeats (codec.decoded text) (length (codec.decoded text)) placed
    first_round h k l =
        copy_at-inside 0 (codec.decoded text) (zeros size) k k (omega arith) l
          (omega (arith, length-zeros size, h, l))
        ∙ ap (get_elem? (codec.decoded text)) (sym (mod-eq_of_lt l))

    in_buffer :
        (codec.space text ≤ size) ⊎ (size < length (codec.decoded text))
        → ltb (length (zeros size)) (length (codec.decoded text)) ≡ false
        → (res : Bytes) × (fill_with size codec text (zeros size) ≡ some res)
          × (length res ≡ size)
          × Repeats (codec.decoded text) size res
    in_buffer (inr long) fits = absurd (ground (arith, length-zeros size))
    in_buffer (inl room) fits =
        let short : length (codec.decoded text) ≤ size = ground (arith, length-zeros size) in
        let roomy : ltb (length (zeros size)) (codec.space text) ≡ false =
          ground (arith, length-zeros size) in
        let (res, e, n, reads) =
          repeat_fills (codec.decoded text) size (length (codec.decoded text)) 1 placed some_bytes
            (inl (omega arith)) (omega (arith, placed_length, short)) (omega (arith, placed_length))
            (first_round short) in
        let returned : fill_with size codec text (zeros size) ≡ some res = rw fits (rw roomy e) in
        (res, returned, n ∙ placed_length, λ k small. reads k (omega (arith, small, placed_length)))

repeat-zero : (fuel : ℕ) (buf : Bytes) → 0 < length buf → repeat fuel 0 buf ≡ none
unfolding repeat
repeat-zero zero buf h = ground arith
repeat-zero (suc fuel) buf h =
    let still : 0 + min (length buf - 0) 0 ≡ 0 = omega arith in
    let rest : repeat fuel (0 + min (length buf - 0) 0) buf ≡ none =
      ap (λ i. repeat fuel i buf) still ∙ repeat-zero fuel buf h in
    let go : ltb 0 (length buf) ≡ true = ground arith in rw go rest

-- Without a decoded byte it never ends, unless the buffer is empty.
pub fill_with-empty :
    (codec : StringCodec) (text : Bytes) (size fuel : ℕ)
    → codec.decoded text ≡ []
    → 0 < size
    → fill_with fuel codec text (zeros size) ≡ none
unfolding fill_with
fill_with-empty codec text size fuel h l =
    let same : (n : ℕ) → copy_at 0 [] (zeros n) ≡ zeros n = λ n. refl in
    let fits : ltb (length (zeros size)) 0 ≡ false = ground arith in
    let never : repeat fuel 0 (zeros size) ≡ none =
      repeat-zero fuel (zeros size) (omega (arith, l, length-zeros size)) in
    let whole : (if ltb (length (zeros size)) (codec.space text) then zeros size else zeros size)
        ≡ zeros size =
      if_split (λ b. b ≡ zeros size) (ltb (length (zeros size)) (codec.space text)) (zeros size)
        (zeros size) (λ _. refl) (λ _. refl) in
    rw h (rw fits (rw whole never))
