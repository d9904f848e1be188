-- ===== src/Kv/Reader/Filled.antt =====
-- What the cache gets from a body that is read to its end.
use goja_ext.Prelude.{
  ℕ, ◌+◌, ◌<◌, ◌≤◌, true, false, List, [], ◌∷◌, ◌++◌, Option, leb, length, length-append, Bytes,
  ◌≡◌, refl, ap, ◌∙◌, sym, arith, append_assoc, append-nil, Bool-cases, inl, inr,
}
use goja_ext.Kv.Cache.{LruCache, put}
use goja_ext.Kv.Reader.{CachingReader, fill, finish, read_record, read, read_body}

-- The bytes of the body.
abbrev pub body : List Bytes → Bytes → Bytes
body [] last = last
body (chunk ∷ chunks) last = chunk ++ body chunks last

-- The bytes that count against the maximum, with `b` in the buffer.
abbrev pub counted : Bytes → CachingReader → ℕ
counted b r = length b + length r.key + length r.metadata

fill_fits :
    (chunk : Bytes) (r : CachingReader)
    → counted (r.buffer ++ chunk) r ≤ r.maximum
    → r.cacheable ≡ true
    → fill chunk r ≡ record r { buffer = r.buffer ++ chunk }
unfolding fill
fill_fits [] r h c = ap (λ b. record r { buffer = b }) (sym (append-nil r.buffer))
fill_fits (x ∷ chunk) r h c = ground (arith, length-append r.buffer (x ∷ chunk))

fill_over : (chunk : Bytes) (r : CachingReader) → r.cacheable ≡ false → fill chunk r ≡ r
unfolding fill
fill_over chunk r c = ground arith

-- With a reader that still collects: a body that fits with the key and the metadata is put into the cache
-- as a whole when it ends.
pub read_body_fits :
    (now : ℕ) (chunks : List Bytes) (last : Bytes) (r : CachingReader) (c : Option LruCache)
    → counted (r.buffer ++ body chunks last) r ≤ r.maximum
    → r.cacheable ≡ true
    → r.done ≡ false
    → (read_body now chunks last r c).1
      ≡ put now r.key
          (read_record (record r { buffer = r.buffer ++ body chunks last }))
          true
          r.ttl
          c
unfolding read_body read
read_body_fits now [] last r c h k d =
    ap (λ f. (finish now true f c).1) (fill_fits last r h k) ∙ ground arith
read_body_fits now (chunk ∷ chunks) last r c h k d =
    let whole = body chunks last in
    let r' = record r { buffer = r.buffer ++ chunk } in
    let q : (r.buffer ++ chunk) ++ whole ≡ r.buffer ++ (chunk ++ whole) =
      append_assoc r.buffer chunk whole in
    let n = length-append (r.buffer ++ chunk) whole in
    let h' : counted ((r.buffer ++ chunk) ++ whole) r ≤ r.maximum = omega (arith, h, ap length q) in
    ap (λ (f : CachingReader). (read_body now chunks last f c).1)
      (fill_fits chunk r (omega (arith, h', n)) k)
    ∙ read_body_fits now chunks last r' c h' k d
    ∙ ap (λ b. put now r.key (read_record (record r { buffer = b })) true r.ttl c) q

read_body_stays :
    (now : ℕ) (chunks : List Bytes) (last : Bytes) (r : CachingReader) (c : Option LruCache)
    → r.cacheable ≡ false
    → (read_body now chunks last r c).1 ≡ c
unfolding read_body read
read_body_stays now [] last r c k =
    ap (λ f. (finish now true f c).1) (fill_over last r k) ∙ ground arith
read_body_stays now (chunk ∷ chunks) last r c k =
    ap (λ (f : CachingReader). (read_body now chunks last f c).1) (fill_over chunk r k)
    ∙ read_body_stays now chunks last r c k

fill_stops :
    (chunk : Bytes) (r : CachingReader)
    → r.maximum < counted (r.buffer ++ chunk) r
    → 0 < length chunk
    → r.cacheable ≡ true
    → fill chunk r ≡ record r { cacheable = false; buffer = [] }
unfolding fill
fill_stops chunk r h z k = ground (arith, length-append r.buffer chunk)

fill_empty : (r : CachingReader) → fill [] r ≡ r
unfolding fill
fill_empty r = refl

-- With a reader that still collects: a body that is not empty and does not fit leaves the cache as it was.
pub read_body_over :
    (now : ℕ) (chunks : List Bytes) (last : Bytes) (r : CachingReader) (c : Option LruCache)
    → r.maximum < counted (r.buffer ++ body chunks last) r
    → 0 < length (body chunks last)
    → r.cacheable ≡ true
    → (read_body now chunks last r c).1 ≡ c
unfolding read_body read
read_body_over now [] last r c h z k = ap (λ f. (finish now true f c).1) (fill_stops last r h z k)
read_body_over now ([] ∷ chunks) last r c h z k =
    ap (λ f. (read_body now chunks last f c).1) (fill_empty r)
    ∙ read_body_over now chunks last r c h z k
read_body_over now ((x ∷ xs) ∷ chunks) last r c h z k =
    let chunk = x ∷ xs in
    let whole = body chunks last in
    let r' = record r { buffer = r.buffer ++ chunk } in
    let q : (r.buffer ++ chunk) ++ whole ≡ r.buffer ++ (chunk ++ whole) =
      append_assoc r.buffer chunk whole in
    let n = length-append (r.buffer ++ chunk) whole in
    let m = length-append r.buffer chunk in
    let h' : r.maximum < counted ((r.buffer ++ chunk) ++ whole) r = omega (arith, h, ap length q) in
    elim (Bool-cases (leb (counted (r.buffer ++ chunk) r) r.maximum)) [
      | inl fits ↦
          let g : counted (r.buffer ++ chunk) r ≤ r.maximum = ground arith in
          ap (λ f. (read_body now chunks last f c).1) (fill_fits chunk r g k)
          ∙ read_body_over now chunks last r' c h' (omega (arith, h', n, g)) k
      | inr over ↦
          let g : r.maximum < counted (r.buffer ++ chunk) r = ground arith in
          ap (λ f. (read_body now chunks last f c).1) (fill_stops chunk r g (omega arith) k)
          ∙ read_body_stays now chunks last (record r { cacheable = false; buffer = [] }) c refl
    ]
