-- ===== src/Tests/StringDecoder.antt =====
-- string_decoder/: runs and instances.
use goja_ext.Prelude.{
  ℕ, ◌+◌, ◌*◌, ◌/◌, ◌%◌, true, List, [], ◌∷◌, ◌++◌, some, ◌≡◌, refl, ap, length, Bytes, codes,
  arith,
}
use goja_ext.StringDecoder.{ucs2, ascii, Library, units, write, end, chunked}
use goja_ext.StringDecoder.Chunks.{joined, ucs2-chunked}

-- Groups of three bytes as four numbers below 64, 64 for the padding.
unfoldable sextets : Bytes → List ℕ
sextets [] = []
sextets (a ∷ []) = (a / 4) ∷ ((a % 4) * 16) ∷ 64 ∷ 64 ∷ []
sextets (a ∷ b ∷ []) = (a / 4) ∷ ((a % 4) * 16 + (b / 16)) ∷ ((b % 16) * 4) ∷ 64 ∷ []
sextets (a ∷ b ∷ c ∷ s) =
    (a / 4) ∷ ((a % 4) * 16 + (b / 16)) ∷ ((b % 16) * 4 + (c / 64)) ∷ (c % 64) ∷ sextets s

sextets-append : (x y : Bytes) → length x % 3 ≡ 0 → sextets (x ++ y) ≡ sextets x ++ sextets y
unfolding sextets
sextets-append [] y h = refl
sextets-append (a ∷ []) y h = ground arith
sextets-append (a ∷ b ∷ []) y h = ground arith
sextets-append (a ∷ b ∷ c ∷ x) y h =
    ap (λ t. (a / 4) ∷ ((a % 4) * 16 + (b / 16)) ∷ ((b % 16) * 4 + (c / 64)) ∷ (c % 64) ∷ t)
      (sextets-append x y (omega (arith, h)))

-- A library that decodes single bytes.
abbrev bytewise : Library
bytewise = record {
  full_rune = λ s. true;
  decode_rune = λ s. (63, 1);
  encode_base64 = sextets;
  encode_hex = λ s. s;
}

-- The units U+D83D and U+DE00, cut after three bytes, and one unit more.
abbrev smile : List Bytes
smile = (61 ∷ 216 ∷ 0 ∷ []) ∷ (222 ∷ 65 ∷ 0 ∷ []) ∷ []

-- The high surrogate stays pending until its partner is there.
run_surrogate :
    write bytewise (61 ∷ 216 ∷ 0 ∷ []) (record { encoding = ucs2; pending = [] })
    ≡ some ([], record { encoding = ucs2; pending = 61 ∷ 216 ∷ 0 ∷ [] })
unfolding write
run_surrogate = refl

run_ascii :
    end bytewise (some (codes "hi")) (record { encoding = ascii; pending = [] })
    ≡ some (codes "hi", record { encoding = ascii; pending = [] })
unfolding end
run_ascii = refl

ucs2-chunked_example :
    chunked bytewise smile (record { encoding = ucs2; pending = [] })
    ≡ some (units ([] ++ joined smile))
ucs2-chunked_example = ucs2-chunked bytewise smile []
