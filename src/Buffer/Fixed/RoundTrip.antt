-- ===== src/Buffer/Fixed/RoundTrip.antt =====
-- What a writer of a fixed width leaves in the bytes, whatever it writes.
use goja_ext.Prelude.{
  ℕ, ◌+◌, ◌<◌, ◌≤◌, ◌^◌, Bool, false, pos, length, take, drop, Bytes, ◌≡◌, ap, ◌∙◌, sym, arith,
}
use goja_ext.Args.{
  Outcome, ok, ◌>>=◌, out_of_range, bind_ok, refuse_if_ok, Arg, optional_integer_argument,
}
use goja_ext.Buffer.Access.{
  get_offset_argument, check_offset, slice, put_at, copy_at, length-copy_at, take-drop-copy_at,
}
use goja_ext.Buffer.Fixed.{read_with, write_with}

-- An offset at which `n` bytes are there: what the argument is accepted as.
pub record IsOffset (arg : Arg) (bb : Bytes) (n o : ℕ) : Type 0 where
  pub accepted : get_offset_argument arg bb n ≡ ok o
  pub within : o + n ≤ length bb

pub slice_within :
    (o n : ℕ) (bb : Bytes)
    → o + n ≤ length bb
    → length bb < 2 ^ 63
    → slice o n bb ≡ ok (take n (drop o bb))
unfolding slice
slice_within o n bb h l = ground arith

pub slice_ok : (o n : ℕ) (bb place : Bytes) → slice o n bb ≡ ok place → o + n ≤ length bb
unfolding slice
slice_ok o n bb place h = ground arith

-- The accepted offset depends only on the length of the bytes.
get_offset_argument-length :
    (arg : Arg) (bb bb' : Bytes) (n : ℕ)
    → length bb ≡ length bb'
    → get_offset_argument arg bb n ≡ get_offset_argument arg bb' n
unfolding get_offset_argument
get_offset_argument-length arg bb bb' n e =
    ap (λ len. optional_integer_argument arg (pos 0) >>= λ v. check_offset v n len) e

-- A write that succeeds had a value, not refused, and an offset with `n` bytes behind it; it leaves the
-- value's bytes there and all others as they were.
pub record Written {ℓ} {V : Type ℓ} (value : Outcome V) (n : ℕ) (refuse : V → Bool)
    (encode : V → Bytes) (arg : Arg) (bb bb' : Bytes) (r : ℕ) : Type ℓ where
  pub v : V
  pub given : value ≡ ok v
  pub kept_range : refuse v ≡ false
  pub offset : ℕ
  pub at : IsOffset arg bb n offset
  pub bytes : bb' ≡ copy_at offset (encode v) bb
  pub behind : r ≡ offset + n

module _ {ℓ} {V : Type ℓ} (value : Outcome V) (n : ℕ) (refuse : V → Bool) (encode : V → Bytes) where
  pub write_with-Written :
      (arg : Arg) (bb bb' : Bytes) (r : ℕ)
      → write_with value n refuse encode arg bb ≡ ok (bb', r)
      → Written value n refuse encode arg bb bb' r
  unfolding write_with put_at
  write_with-Written arg bb bb' r h =
      let (v, hv, h₁) = bind_ok value _ h in
      let (o, ho, h₂) = bind_ok (get_offset_argument arg bb n) _ h₁ in
      let (hr, h₃) = refuse_if_ok (refuse v) out_of_range (put_at o n (encode v) bb) h₂ in
      let (place, hs, h₄) = bind_ok (slice o n bb) _ h₃ in
      record {
        v = v;
        given = hv;
        kept_range = hr;
        offset = o;
        at = record { accepted = ho; within = slice_ok o n bb place hs };
        bytes = ground arith;
        behind = ground arith;
      }

  -- Reading at the same offset gives what was encoded.
  pub read_with-Written {κ} :
      {A : Type κ} (decode : Bytes → A) (arg : Arg) (bb bb' : Bytes) (r : ℕ)
      → (w : Written value n refuse encode arg bb bb' r) → length (encode w.v) ≡ n
      → length bb < 2 ^ 63
      → read_with n decode arg bb' ≡ ok (decode (encode w.v))
  unfolding read_with
  read_with-Written decode arg bb bb' r w size small =
      let src = encode w.v in
      let o = w.offset in
      let same : length bb' ≡ length bb = ap length w.bytes ∙ length-copy_at o src bb in
      let q : get_offset_argument arg bb' n ≡ ok o =
        get_offset_argument-length arg bb' bb n same ∙ w.at.accepted in
      let t : take n (drop o bb') ≡ src =
        ap (λ b. take n (drop o b)) w.bytes
        ∙ ap (λ m. take m (drop o (copy_at o src bb))) (sym size)
        ∙ take-drop-copy_at o src bb (omega (arith, w.at.within, size)) in
      let s : slice o n bb' ≡ ok (take n (drop o bb')) =
        slice_within o n bb' (omega (arith, w.at.within, same)) (omega (arith, same)) in
      rw q (rw s (ap (λ b. ok (decode b)) t))
