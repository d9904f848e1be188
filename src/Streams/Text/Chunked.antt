-- ===== src/Streams/Text/Chunked.antt =====
-- streams/text.go: decoding chunk by chunk is decoding the whole.
use goja_ext.Prelude.{
  ℕ, zero, suc, ◌<◌, ◌≤◌, Bool, true, false, not, [], ◌∷◌, ◌++◌, append_assoc, Option, none, some,
  ltb, ◌==◌, if◌then◌else◌, length, length-append, length-drop, take, drop, Bytes, ◌≡◌, ◌≢◌, refl,
  ap, ◌∙◌, sym, arith, inl, inr, Bool-cases, if_split,
}
use goja_ext.Streams.Text.{
  Decoded, malformed, decoded, rune_error, utf8_sequence_length, prefixed, replaced_byte,
  decode_loop, decode_utf8_chunk,
}

-- Decoding on, with the bytes that waited.
abbrev pub and_then : Option Decoded → (Bytes → Option Decoded) → Option Decoded
and_then none next = none
and_then (some malformed) next = some malformed
and_then (some (decoded text pending)) next = prefixed text (next pending)

prefixed-nil : (r : Option Decoded) → prefixed [] r ≡ r
prefixed-nil none = refl
prefixed-nil (some malformed) = refl
prefixed-nil (some (decoded text pending)) = refl

prefixed-and_then :
    (text : Bytes) (r : Option Decoded) (next : Bytes → Option Decoded)
    → and_then (prefixed text r) next ≡ prefixed text (and_then r next)
prefixed-and_then text none next = refl
prefixed-and_then text (some malformed) next = refl
prefixed-and_then text (some (decoded more pending)) next = again (next pending)
  where
    again : (r : Option Decoded) → prefixed (text ++ more) r ≡ prefixed text (prefixed more r)
    again none = refl
    again (some malformed) = refl
    again (some (decoded last left)) = ap (λ t. some (decoded t left)) (append_assoc text more last)

replaced_byte-and_then :
    (fatal : Bool) (r : Option Decoded) (next : Bytes → Option Decoded)
    → and_then (replaced_byte fatal r) next ≡ replaced_byte fatal (and_then r next)
replaced_byte-and_then true r next = refl
replaced_byte-and_then false r next = prefixed-and_then rune_error r next

take-append_short : (n : ℕ) (s t : Bytes) → n ≤ length s → take n (s ++ t) ≡ take n s
take-append_short zero s t h = refl
take-append_short (suc n) [] t h = absurd (omega (arith, h))
take-append_short (suc n) (x ∷ s) t h = ap (λ r. x ∷ r) (take-append_short n s t (omega (arith, h)))

drop-append_short : (n : ℕ) (s t : Bytes) → n ≤ length s → drop n (s ++ t) ≡ drop n s ++ t
drop-append_short zero s t h = refl
drop-append_short (suc n) [] t h = absurd (omega (arith, h))
drop-append_short (suc n) (x ∷ s) t h = drop-append_short n s t (omega (arith, h))

if_ap {ℓ} :
    {A : Type ℓ} (b : Bool) (x x' y y' : A)
    → (b ≡ true → x ≡ x')
    → (b ≡ false → y ≡ y')
    → (if b then x else y) ≡ (if b then x' else y')
if_ap true x x' y y' p q = p refl
if_ap false x x' y y' p q = q refl

if_map {ℓ κ} :
    {A : Type ℓ} {B : Type κ} (f : B → A) (b : Bool) (x y : A) (u v : B)
    → (b ≡ true → x ≡ f u)
    → (b ≡ false → y ≡ f v)
    → (if b then x else y) ≡ f (if b then u else v)
if_map f true x y u v p q = p refl
if_map f false x y u v p q = q refl

if_no {ℓ} : {A : Type ℓ} (b : Bool) (x y : A) → b ≡ false → (if b then x else y) ≡ y
if_no true x y h = cc
if_no false x y h = refl

if_yes {ℓ} : {A : Type ℓ} (b : Bool) (x y : A) → b ≡ true → (if b then x else y) ≡ x
if_yes true x y h = refl
if_yes false x y h = cc

positive : (n : ℕ) → (n == 0) ≡ false → 0 < n
positive zero h = cc
positive (suc n) h = omega arith

module _ (valid : Bytes → Bool) (fatal : Bool) where
  -- More fuel than bytes changes nothing.
  decode_loop-fuel :
      (final : Bool) (f g : ℕ) (bytes : Bytes)
      → length bytes ≤ f
      → length bytes ≤ g
      → decode_loop valid final fatal f bytes ≡ decode_loop valid final fatal g bytes
  unfolding decode_loop
  decode_loop-fuel final f g [] h k = refl
  decode_loop-fuel final zero g (b ∷ bytes) h k = absurd (omega (arith, h))
  decode_loop-fuel final (suc f) zero (b ∷ bytes) h k = absurd (omega (arith, k))
  decode_loop-fuel final (suc f) (suc g) (b ∷ bytes) h k =
      let n = utf8_sequence_length b in
      let skipped =
        ap (replaced_byte fatal)
          (decode_loop-fuel final f g bytes (omega (arith, h)) (omega (arith, k))) in
      if_ap (n == 0) _ _ _ _ (λ _. skipped)
        (λ some_length.
          if_ap (ltb (length (b ∷ bytes)) n) _ _ _ _ (λ _. refl)
            (λ _.
              if_ap (valid (take n (b ∷ bytes))) _ _ _ _
                (λ _. ap (prefixed (take n (b ∷ bytes))) (
                  decode_loop-fuel final f g (drop n (b ∷ bytes))
                    (omega (arith, h, length-drop n (b ∷ bytes), positive n some_length))
                    (omega (arith, k, length-drop n (b ∷ bytes), positive n some_length))))
                (λ _. skipped)))

  decode_loop-append :
      (final : Bool) (a b : Bytes) (f g : ℕ)
      → length a ≤ f
      → length (a ++ b) ≤ g
      → decode_loop valid final fatal g (a ++ b)
        ≡ and_then
            (decode_loop valid false fatal f a)
            (λ pending. decode_utf8_chunk valid final fatal (pending ++ b))
  unfolding decode_loop decode_utf8_chunk
  decode_loop-append final [] b f g h k =
      decode_loop-fuel final g (length b) b k (omega arith)
      ∙ sym (prefixed-nil (decode_utf8_chunk valid final fatal b))
  decode_loop-append final (x ∷ a) b zero g h k = absurd (omega (arith, h))
  decode_loop-append final (x ∷ a) b (suc f) zero h k = absurd (omega (arith, k))
  decode_loop-append final (x ∷ a) b (suc f) (suc g) h k =
      elim (Bool-cases (ltb (length (x ∷ a)) (utf8_sequence_length x))) [
        | inl short ↦ cut_case short
        | inr enough ↦
            go_on enough (decode_loop-append final a b f g (omega (arith, h)) (omega (arith, k)))
              (λ some_length.
                decode_loop-append final (drop (utf8_sequence_length x) (x ∷ a)) b f g
                  (omega (
                    arith,
                    h,
                    length-drop (utf8_sequence_length x) (x ∷ a),
                    positive (utf8_sequence_length x) some_length,
                  ))
                  (omega (
                    arith,
                    k,
                    length-drop (utf8_sequence_length x) (x ∷ a),
                    positive (utf8_sequence_length x) some_length,
                    length-append a b,
                    length-append (drop (utf8_sequence_length x) (x ∷ a)) b,
                  )))
      ]
    where
      n : ℕ
      n = utf8_sequence_length x

      next : Bytes → Option Decoded
      next pending = decode_utf8_chunk valid final fatal (pending ++ b)

      cut_case :
          ltb (length (x ∷ a)) n ≡ true
          → decode_loop valid final fatal (suc g) (x ∷ a ++ b)
            ≡ and_then (decode_loop valid false fatal (suc f) (x ∷ a)) next
      cut_case short =
          let alone : decode_loop valid false fatal (suc f) (x ∷ a) ≡ some (decoded [] (x ∷ a)) =
            if_no (n == 0) _ _ (ground (arith, short))
            ∙ if_yes (ltb (length (x ∷ a)) n) _ _ short in
          decode_loop-fuel final (suc g) (length (x ∷ a ++ b)) (x ∷ a ++ b) k (omega arith)
          ∙ sym (prefixed-nil (next (x ∷ a)))
          ∙ ap (λ r. and_then r next) (sym alone)

      go_on :
          ltb (length (x ∷ a)) n ≡ false
          → decode_loop valid final fatal g (a ++ b)
            ≡ and_then (decode_loop valid false fatal f a) next
          → ((n == 0) ≡ false
              → decode_loop valid final fatal g (drop n (x ∷ a) ++ b)
                ≡ and_then (decode_loop valid false fatal f (drop n (x ∷ a))) next)
          → decode_loop valid final fatal (suc g) (x ∷ a ++ b)
            ≡ and_then (decode_loop valid false fatal (suc f) (x ∷ a)) next
      go_on enough ih_skip ih_behind =
          let skip : replaced_byte fatal (decode_loop valid final fatal g (a ++ b))
              ≡ and_then (replaced_byte fatal (decode_loop valid false fatal f a)) next =
            ap (replaced_byte fatal) ih_skip
            ∙ sym (replaced_byte-and_then fatal (decode_loop valid false fatal f a) next) in
          let within : n ≤ length (x ∷ a) = ground (arith, enough) in
          let same_take : take n (x ∷ a ++ b) ≡ take n (x ∷ a) =
            take-append_short n (x ∷ a) b within in
          let same_drop : drop n (x ∷ a ++ b) ≡ drop n (x ∷ a) ++ b =
            drop-append_short n (x ∷ a) b within in
          let fits : ltb (length (x ∷ a ++ b)) n ≡ false =
            ground (arith, within, length-append a b) in
          if_map (λ r. and_then r next) (n == 0) _ _ _ _ (λ _. skip)
            (λ some_length.
              if_no (ltb (length (x ∷ a ++ b)) n) _ _ fits
              ∙ ap
                  (λ t.
                    if valid t
                    then prefixed t (decode_loop valid final fatal g (drop n (x ∷ a ++ b)))
                    else replaced_byte fatal (decode_loop valid final fatal g (a ++ b)))
                  same_take
              ∙ if_map (λ r. and_then r next) (valid (take n (x ∷ a))) _ _ _ _
                  (λ _.
                    ap (λ d. prefixed (take n (x ∷ a)) (decode_loop valid final fatal g d))
                      same_drop
                    ∙ ap (prefixed (take n (x ∷ a))) (ih_behind some_length)
                    ∙ sym (
                        prefixed-and_then (take n (x ∷ a))
                          (decode_loop valid false fatal f (drop n (x ∷ a))) next))
                  (λ _. skip)
              ∙ ap (λ r. and_then r next) (sym (if_no (ltb (length (x ∷ a)) n) _ _ enough)))

  prefixed_some : (text : Bytes) (r : Option Decoded) → r ≢ none → prefixed text r ≢ none
  prefixed_some text none h e = h refl
  prefixed_some text (some malformed) h e = cc
  prefixed_some text (some (decoded more pending)) h e = cc

  replaced_byte_some : (r : Option Decoded) → r ≢ none → replaced_byte fatal r ≢ none
  replaced_byte_some r h =
      if_split (λ t. t ≢ none) fatal (some malformed) (prefixed rune_error r) (λ _ e. cc)
        (λ _. prefixed_some rune_error r h)

  decode_loop_some :
      (final : Bool) (f : ℕ) (bytes : Bytes)
      → length bytes ≤ f
      → decode_loop valid final fatal f bytes ≢ none
  unfolding decode_loop
  decode_loop_some final f [] h = λ e. cc
  decode_loop_some final zero (b ∷ bytes) h = absurd (omega (arith, h))
  decode_loop_some final (suc f) (b ∷ bytes) h =
      let n = utf8_sequence_length b in
      let skipped =
        replaced_byte_some (decode_loop valid final fatal f bytes)
          (decode_loop_some final f bytes (omega (arith, h))) in
      if_split (λ t. t ≢ none) (n == 0) _ _ (λ _. skipped)
        (λ some_length.
          if_split (λ t. t ≢ none) (ltb (length (b ∷ bytes)) n) _ _
            (λ _.
              if_split (λ t. t ≢ none) (not final) _ _ (λ _ e. cc)
                (λ _. if_split (λ t. t ≢ none) fatal _ _ (λ _ e. cc) (λ _ e. cc)))
            (λ _.
              if_split (λ t. t ≢ none) (valid (take n (b ∷ bytes))) _ _
                (λ _. prefixed_some (take n (b ∷ bytes)) _ (
                  decode_loop_some final f (drop n (b ∷ bytes))
                    (omega (arith, h, length-drop n (b ∷ bytes), positive n some_length))))
                (λ _. skipped)))

  -- Decoding some bytes, and then what waited with the bytes behind them, is decoding all of them at once,
  -- wherever the text is cut, also for the errors; and the loop always ends.
  pub decode_utf8_chunk-append :
      (final : Bool) (a b : Bytes)
      → (decode_utf8_chunk valid final fatal (a ++ b)
          ≡ and_then
              (decode_utf8_chunk valid false fatal a)
              (λ pending. decode_utf8_chunk valid final fatal (pending ++ b)))
        × (decode_utf8_chunk valid final fatal (a ++ b) ≢ none)
  unfolding decode_utf8_chunk
  decode_utf8_chunk-append final a b = (
    decode_loop-append final a b (length a) (length (a ++ b)) (omega arith) (omega arith),
    decode_loop_some final (length (a ++ b)) (a ++ b) (omega arith),
  )
