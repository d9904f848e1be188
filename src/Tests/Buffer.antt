-- ===== src/Tests/Buffer.antt =====
-- buffer/: runs and instances.
use goja_ext.Prelude.{
  ◌-◌, ◌^◌, true, false, [], ◌∷◌, none, some, ℤ, pos, negsuc, map, length, Bytes, codes, ◌≡◌, refl,
  arith, inl,
}
use goja_ext.Args.{
  ok, fail, ◌>>=◌, go_fault, out_of_range, Arg, undefined, number, string,
  optional_integer_argument,
}
use goja_ext.Buffer.Access.{get_offset_argument}
use goja_ext.Buffer.Table.{int16_be, uint32_le, read_method, write_method, width}
use goja_ext.Buffer.Table.Laws.{Restores, write_method-Restores}
use goja_ext.Buffer.Table.Offsets.{status, offset_status, status-read_method}
use goja_ext.Buffer.Variable.{int_be, uint_le, read_variable, write_variable}
use goja_ext.Buffer.Variable.Values.{Returns, write_variable-Returns}
use goja_ext.Buffer.Text.{
  StringCodec, Codecs, get_string_codec, fill_with, zeros, concat, alloc, to_string, write_string,
  total_argument,
}
use goja_ext.Buffer.Text.Repeat.{Repeats, fill_with-Repeats}
use goja_ext.Buffer.Text.Ranges.{flat, Joined, concat-pad, Writes, write_string-Writes}

-- The number argument of an integer.
abbrev int : ℤ → Arg
int i = number (record {
  integer = i;
  as_int64 = i;
  whole = true;
  bits64 = 0;
  bits32 = 0;
  beyond_float32 = false;
})

abbrev four : Bytes
four = 1 ∷ 2 ∷ 3 ∷ 4 ∷ []

-- writeInt16BE(-2, 1)
abbrev after : Bytes
after = 1 ∷ 255 ∷ 254 ∷ 4 ∷ []

written_int16 : write_method int16_be (int (negsuc 1)) (int (pos 1)) four ≡ ok (after, 3)
unfolding write_method
written_int16 = refl

write_method-Restores_example : Restores int16_be (int (negsuc 1)) (int (pos 1)) four after 3
write_method-Restores_example =
    write_method-Restores int16_be (int (negsuc 1)) (int (pos 1)) four after 3 tt (omega arith)
      written_int16

-- An offset that does not fit into the bytes, and one whose sum with the width is 2^63.
late : status (read_method uint32_le (int (pos 1)) four) ≡ some out_of_range
unfolding read_method
late = refl

wraps : status (read_method uint32_le (int (pos (2 ^ 63 - 1))) four) ≡ some go_fault
unfolding read_method
wraps = refl

status-read_method_example :
    status (read_method uint32_le (int (pos (2 ^ 63 - 1))) four)
    ≡ offset_status
        (width uint32_le)
        (length four)
        (optional_integer_argument (int (pos (2 ^ 63 - 1))) (pos 0))
status-read_method_example =
    status-read_method uint32_le (int (pos (2 ^ 63 - 1))) four (omega arith)

-- writeUIntLE(0x010203, 0, 3)
abbrev after_three : Bytes
after_three = 3 ∷ 2 ∷ 1 ∷ 4 ∷ []

written_three :
    write_variable uint_le (int (pos 66051)) (int (pos 0)) (int (pos 3)) four ≡ ok (after_three, 3)
unfolding write_variable
written_three = refl

write_variable-Returns_example :
    Returns uint_le (int (pos 66051)) (int (pos 0)) (int (pos 3)) four after_three 3
write_variable-Returns_example =
    write_variable-Returns uint_le (int (pos 66051)) (int (pos 0)) (int (pos 3)) four after_three 3
      written_three (omega arith)

-- readIntBE(1, 2) of FE FF, and a value beyond the range.
read_negative :
    read_variable int_be (int (pos 1)) (int (pos 2)) (1 ∷ 254 ∷ 255 ∷ []) ≡ ok (negsuc 256)
unfolding read_variable
read_negative = refl

too_large :
    write_variable int_be (int (pos 128)) (int (pos 0)) (int (pos 1)) four ≡ fail out_of_range
unfolding write_variable
too_large = refl

-- A codec that takes a text as it is.
abbrev plain : StringCodec
plain = record { encode = λ b. b; decode = λ s. s; space = λ s. length s; decoded = λ s. s }

abbrev codecs : Codecs
codecs = record { hex = plain; utf8 = plain; base64 = plain; base64_url = plain }

-- Buffer.alloc(5, "ab")
filled : fill_with 5 plain (codes "ab") (zeros 5) ≡ some (codes "ababa")
unfolding fill_with
filled = refl

fill_with-Repeats_example :
    (res : Bytes) × (fill_with 5 plain (codes "ab") (zeros 5) ≡ some res)
    × (length res ≡ 5)
    × Repeats (codes "ab") 5 res
fill_with-Repeats_example = fill_with-Repeats plain (codes "ab") 5 (omega arith) (inl (omega arith))

concatenated :
    concat 1000 (some (codes "ab") ∷ some (codes "cd") ∷ []) (some (int (pos 3))) ≡ ok (codes "abc")
unfolding concat
concatenated = refl

-- Infinity, as amd64 converts it: the length is refused.
concat_infinite :
    concat 1000 (some (codes "ab") ∷ []) (
      some (
        number (record {
          integer = pos (2 ^ 63 - 1);
          as_int64 = negsuc (2 ^ 63 - 1);
          whole = true;
          bits64 = 0;
          bits32 = 0;
          beyond_float32 = true;
        })))
    ≡ fail out_of_range
unfolding concat
concat_infinite = refl

concat-pad_example : concat 1000 (map some (codes "ab" ∷ codes "cd" ∷ [])) (some (int (pos 3))) ≡ (
    total_argument (some (int (pos 3))) >>= λ given.
    Joined 1000 (flat (codes "ab" ∷ codes "cd" ∷ [])) given)
concat-pad_example =
    concat-pad 1000 (codes "ab") (codes "cd" ∷ []) (some (int (pos 3))) (omega arith)

-- write("xyz", 2), and a negative length.
written_string :
    write_string codecs
      (λ a. [])
      (λ a. none)
      (string (codes "xyz"))
      (int (pos 2))
      undefined
      undefined
      four
    ≡ ok (1 ∷ 2 ∷ codes "xy", 2)
unfolding write_string
written_string = refl

offset_two : get_offset_argument (int (pos 2)) four 0 ≡ ok 2
unfolding get_offset_argument
offset_two = refl

default_codec : get_string_codec codecs (λ a. []) undefined ≡ ok plain
unfolding get_string_codec
default_codec = refl

write_string-Writes_example : Writes (negsuc 0) (codes "xyz") 2 four (
    write_string codecs
      (λ a. [])
      (λ a. none)
      (string (codes "xyz"))
      (int (pos 2))
      (int (negsuc 0))
      undefined
      four)
write_string-Writes_example =
    write_string-Writes codecs (λ a. []) (λ a. none) (codes "xyz") (int (pos 2)) (int (negsuc 0))
      undefined four 2 (negsuc 0) plain offset_two (omega arith) refl default_codec

-- toString("utf8", 1, 3), and the buffers that alloc makes.
text_of :
    to_string codecs (λ a. []) (λ a. none) undefined (int (pos 1)) (int (pos 3)) (codes "abcd")
    ≡ ok (codes "bc")
unfolding to_string
text_of = refl

allocated :
    alloc 1000 codecs (λ a. []) (λ a. some (pos 258)) 2 (int (pos 2)) (int (pos 258)) undefined
    ≡ ok (some (2 ∷ 2 ∷ []))
unfolding alloc
allocated = refl

never_filled :
    alloc 1000 codecs (λ a. []) (λ a. none) 9 (int (pos 2)) (string []) undefined ≡ ok none
unfolding alloc
never_filled = refl
