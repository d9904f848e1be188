-- ===== src/Streams/Writer.antt =====
-- streams/writer.go: writeAll. The io.Writer is a parameter: what it does with some bytes, with its state.
use goja_ext.Prelude.{
  ℕ, zero, suc, ◌≤◌, false, [], ◌∷◌, ◌++◌, append_assoc, append-nil, Option, none, some, ℤ, pos,
  negsuc, ltb, if◌then◌else◌, length, length-drop, take, drop, take-append-drop, Bytes, ◌≡◌, ◌≢◌,
  refl, ap, ◌∙◌, sym, arith, inl, inr, ◌⊎◌,
}

-- How writeAll ends: without an error, with the writer's, with io.ErrShortWrite, or in a fault of the Go
-- runtime, if the writer claims more bytes than it was given.
pub data WriteEnd : Type 0 where
  written : WriteEnd
  refused : ℕ → WriteEnd
  short_write out_of_bounds : WriteEnd

-- What `Write` returns: the count, and the error if there is one.
abbrev pub Writer : Type 0 → Type 0
Writer W = W → Bytes → W × ℤ × Option ℕ

pos_injective : {m n : ℕ} → pos m ≡ pos n → m ≡ n
pos_injective h = cc

module _ {W : Type 0} (write : Writer W) where
  -- One turn of the loop: the end, or the bytes that remain.
  abbrev pub write_turn : Bytes → W × ℤ × Option ℕ → W × (WriteEnd ⊎ Bytes)
  write_turn bytes (w, n, some e) = (w, inl (refused e))
  write_turn bytes (w, negsuc n, none) = (w, inl short_write)
  write_turn bytes (w, pos zero, none) = (w, inl short_write)
  write_turn bytes (w, pos (suc n), none) =
      if ltb (length bytes) (suc n) then (w, inl out_of_bounds) else (w, inr (drop (suc n) bytes))

  abbrev pub after_turn :
      (W → Bytes → Option (W × WriteEnd)) → W × (WriteEnd ⊎ Bytes) → Option (W × WriteEnd)
  after_turn next (w, inl end) = some (w, end)
  after_turn next (w, inr rest) = next w rest

  -- The loop, with fuel; none if that is used up.
  unfoldable pub write_all : ℕ → W → Bytes → Option (W × WriteEnd)
  write_all fuel w [] = some (w, written)
  write_all zero w (b ∷ bytes) = none
  write_all (suc fuel) w (b ∷ bytes) =
      after_turn (write_all fuel) (write_turn (b ∷ bytes) (write w (b ∷ bytes)))

  -- What the documentation of io.Writer promises of `Write`, where a sink holds the bytes of a state: the
  -- count is at most that of the bytes, and the bytes counted go to the sink.
  pub record IsWriter (sink : W → Bytes) : Type 0 where
    pub counts :
        (w : W) (bytes : Bytes) (w' : W) (n : ℤ) (err : Option ℕ)
        → write w bytes ≡ (w', n, err)
        → (k : ℕ) × (n ≡ pos k) × (k ≤ length bytes) × (sink w' ≡ sink w ++ take k bytes)

  -- The loop ended; the sink got the first part of the bytes, and all if there was no error.
  pub record Ended (sink : W → Bytes) (fuel : ℕ) (w : W) (bytes : Bytes) : Type 0 where
    pub after : W
    pub end : WriteEnd
    pub returned : write_all fuel w bytes ≡ some (after, end)
    pub part : Bytes
    pub rest : Bytes
    pub parts : part ++ rest ≡ bytes
    pub sunk : sink after ≡ sink w ++ part
    pub whole : end ≡ written → rest ≡ []
    pub no_fault : end ≢ out_of_bounds

  module _ (sink : W → Bytes) (sound : IsWriter sink) where
    Ended-turn :
        (fuel : ℕ) (w : W) (b : ℕ) (bytes : Bytes) (w' : W) (n : ℤ) (err : Option ℕ)
        → write w (b ∷ bytes) ≡ (w', n, err)
        → ((w' : W) (rest : Bytes) → length rest ≤ fuel → Ended sink fuel w' rest)
        → length bytes ≤ fuel
        → Ended sink (suc fuel) w (b ∷ bytes)
    unfolding write_all
    Ended-turn fuel w b bytes w' n (some e) h next l =
        let (k, q, small, sunk) = IsWriter.counts sound w (b ∷ bytes) w' n (some e) h in
        let r : write_all (suc fuel) w (b ∷ bytes) ≡ some (w', refused e) =
          ap (λ t. after_turn (write_all fuel) (write_turn (b ∷ bytes) t)) h in
        record {
          after = w';
          end = refused e;
          returned = r;
          part = take k (b ∷ bytes);
          rest = drop k (b ∷ bytes);
          parts = take-append-drop k (b ∷ bytes);
          sunk = sunk;
          whole = λ x. cc;
          no_fault = λ x. cc;
        }
    Ended-turn fuel w b bytes w' (negsuc n) none h next l =
        let (k, q, small, sunk) = IsWriter.counts sound w (b ∷ bytes) w' (negsuc n) none h in cc
    Ended-turn fuel w b bytes w' (pos zero) none h next l =
        let (k, q, small, sunk) = IsWriter.counts sound w (b ∷ bytes) w' (pos zero) none h in
        let r : write_all (suc fuel) w (b ∷ bytes) ≡ some (w', short_write) =
          ap (λ t. after_turn (write_all fuel) (write_turn (b ∷ bytes) t)) h in
        record {
          after = w';
          end = short_write;
          returned = r;
          part = take k (b ∷ bytes);
          rest = drop k (b ∷ bytes);
          parts = take-append-drop k (b ∷ bytes);
          sunk = sunk;
          whole = λ x. cc;
          no_fault = λ x. cc;
        }
    Ended-turn fuel w b bytes w' (pos (suc n)) none h next l =
        let (k, q, small, sunk) = IsWriter.counts sound w (b ∷ bytes) w' (pos (suc n)) none h in
        let same : suc n ≡ k = pos_injective q in
        let e = next w' (drop n bytes) (omega (arith, length-drop n bytes, l)) in
        let fits : ltb (length (b ∷ bytes)) (suc n) ≡ false = ground (arith, same, small) in
        let r : write_all (suc fuel) w (b ∷ bytes) ≡ some (Ended.after e, Ended.end e) =
          ap (λ t. after_turn (write_all fuel) (write_turn (b ∷ bytes) t)) h
          ∙ rw fits (Ended.returned e) in
        record {
          after = e.after;
          end = e.end;
          returned = r;
          part = take (suc n) (b ∷ bytes) ++ e.part;
          rest = e.rest;
          parts =
              append_assoc (take (suc n) (b ∷ bytes)) e.part e.rest
              ∙ ap (λ r. take (suc n) (b ∷ bytes) ++ r) e.parts
              ∙ take-append-drop (suc n) (b ∷ bytes);
          sunk =
              e.sunk
              ∙ ap (λ x. x ++ e.part) (sunk ∙ ap (λ m. sink w ++ take m (b ∷ bytes)) (sym same))
              ∙ append_assoc (sink w) (take (suc n) (b ∷ bytes)) e.part;
          whole = e.whole;
          no_fault = e.no_fault;
        }

    -- For a writer that counts the bytes it takes, the loop ends within as many turns as there are bytes;
    -- the writer has got the first part of the bytes, and all if there is no error; and the slice is never
    -- out of bounds.
    pub write_all-Ended :
        (fuel : ℕ) (w : W) (bytes : Bytes) → length bytes ≤ fuel → Ended sink fuel w bytes
    unfolding write_all
    write_all-Ended fuel w [] h = record {
      after = w;
      end = written;
      returned = refl;
      part = [];
      rest = [];
      parts = refl;
      sunk = sym (append-nil (sink w));
      whole = λ x. refl;
      no_fault = λ x. cc;
    }
    write_all-Ended zero w (b ∷ bytes) h = absurd (omega (arith, h))
    write_all-Ended (suc fuel) w (b ∷ bytes) h =
        let (w', n, err) = write w (b ∷ bytes) in
        Ended-turn fuel w b bytes w' n err refl (write_all-Ended fuel) (omega (arith, h))
