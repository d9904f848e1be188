-- ===== src/Streams/Chunks.antt =====
-- streams/reader.go: NewReadableStreamFromBytes, whose state is the offset of the next chunk.
use goja_ext.Prelude.{
  ℕ, zero, suc, ◌+◌, ◌-◌, ◌*◌, ◌<◌, ◌≤◌, false, List, [], ◌∷◌, ◌++◌, Option, none, some, ℤ, pos,
  negsuc, leb, if◌then◌else◌, min, length, length-take, length-drop, take, drop, take-append-drop,
  All, Bytes, ◌≡◌, refl, ap, ◌∙◌, sym, arith, inl, inr, Bool-cases,
}

-- `if config.chunkSize <= 0 { config.chunkSize = DefaultChunkSize }`
abbrev pub chunk_size : ℤ → ℕ
chunk_size (pos zero) = 64 * 1024
chunk_size (pos (suc n)) = suc n
chunk_size (negsuc n) = 64 * 1024

abbrev chunk_end : ℕ → Bytes → ℕ → ℕ
chunk_end size bytes offset = min (offset + size) (length bytes)

-- A pull: none if it closes the stream, otherwise the chunk and the next offset.
unfoldable pub pull_bytes : ℕ → Bytes → ℕ → Option (Bytes × ℕ)
pull_bytes size bytes offset =
    if leb (length bytes) offset
    then none
    else some (
      take (chunk_end size bytes offset - offset) (drop offset bytes),
      chunk_end size bytes offset,
    )

-- A cancellation: the offset behind the bytes.
unfoldable pub cancel_bytes : Bytes → ℕ
cancel_bytes bytes = length bytes

-- All chunks that pulls give until one closes the stream; none if the fuel is used up.
unfoldable pub chunks : ℕ → ℕ → Bytes → ℕ → Option (List Bytes)
unfolding pull_bytes
chunks zero size bytes offset = none
chunks (suc fuel) size bytes offset = elim (pull_bytes size bytes offset) [
  | none ↦ some []
  | some (chunk, next) ↦ elim (chunks fuel size bytes next) [
    | none ↦ none
    | some rest ↦ some (chunk ∷ rest)
  ]
]

abbrev pub together : List Bytes → Bytes
together [] = []
together (c ∷ cs) = c ++ together cs

abbrev pub IsChunk : ℕ → Bytes → Type 0
IsChunk size chunk = (0 < length chunk) × (length chunk ≤ size)

drop-drop : (o m k : ℕ) (s : Bytes) → o + m ≡ k → drop m (drop o s) ≡ drop k s
drop-drop zero m k s e = ap (λ n. drop n s) (omega (arith, e))
drop-drop (suc o) zero zero s e = absurd (omega (arith, e))
drop-drop (suc o) (suc m) zero s e = absurd (omega (arith, e))
drop-drop (suc o) zero (suc k) [] e = refl
drop-drop (suc o) (suc m) (suc k) [] e = refl
drop-drop (suc o) zero (suc k) (x ∷ s) e = drop-drop o zero k s (omega (arith, e))
drop-drop (suc o) (suc m) (suc k) (x ∷ s) e = drop-drop o (suc m) k s (omega (arith, e))

drop_all : (o : ℕ) (s : Bytes) → length s ≤ o → drop o s ≡ []
drop_all zero [] h = refl
drop_all zero (x ∷ s) h = absurd (omega (arith, h))
drop_all (suc o) [] h = refl
drop_all (suc o) (x ∷ s) h = drop_all o s (omega (arith, h))

module _ (size : ℕ) (bytes : Bytes) (room : 0 < size) where
  below : {offset : ℕ} → leb (length bytes) offset ≡ false → offset < chunk_end size bytes offset
  below h = ground (arith, h, room)

  chunks_from :
      (fuel offset : ℕ)
      → offset ≤ length bytes
      → length bytes < fuel + offset
      → (cs : List Bytes) × (chunks fuel size bytes offset ≡ some cs)
        × (together cs ≡ drop offset bytes)
        × All (IsChunk size) cs
  unfolding chunks
  chunks_from zero offset h f = absurd (omega (arith, h, f))
  chunks_from (suc fuel) offset h f = elim (Bool-cases (leb (length bytes) offset)) [
    | inl stop ↦
        let returned : chunks (suc fuel) size bytes offset ≡ some [] = rw (stop, chunks) refl in
        ([], returned, sym (drop_all offset bytes (ground (arith, stop))), tt)
    | inr go ↦
        let next : ℕ = chunk_end size bytes offset in
        let m : ℕ = next - offset in
        let forward : offset < next = below go in
        let (cs, e, whole, fine) =
          chunks_from fuel next (omega arith) (omega (arith, f, forward)) in
        let chunk : Bytes = take m (drop offset bytes) in
        let returned : chunks (suc fuel) size bytes offset ≡ some (chunk ∷ cs) =
          rw (go, chunks) (rw e refl) in
        let count : length chunk ≡ m =
          length-take m (drop offset bytes) ∙ omega (arith, length-drop offset bytes) in
        (
          chunk ∷ cs,
          returned,
          ap (λ r. chunk ++ r)
                (whole ∙ sym (drop-drop offset m next bytes (omega (arith, forward))))
              ∙ take-append-drop m (drop offset bytes),
          ((omega (arith, count, forward), omega (arith, count)), fine),
        )
  ]

  -- With a chunk size above 0, pulls give the bytes in chunks that are not empty and within the size, one
  -- after the other, and then close the stream; one pull more than there are bytes is enough.
  pub chunks-together :
      (cs : List Bytes) × (chunks (suc (length bytes)) size bytes 0 ≡ some cs)
      × (together cs ≡ bytes)
      × All (IsChunk size) cs
  chunks-together = chunks_from (suc (length bytes)) 0 (omega arith) (omega arith)
