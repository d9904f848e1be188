-- ===== src/Args.antt =====
-- goutil/: the checks of JavaScript arguments.
use goja_ext.Prelude.{ℕ, Bool, true, false, ℤ, Bytes, if◌then◌else◌, ◌≡◌, refl}

-- What a native function panics with: a JavaScript error by its code, or a fault of the Go runtime.
pub data Failure : Type 0 where
  invalid_arg_type out_of_range unknown_encoding : Failure
  go_fault : Failure

pub data Outcome {ℓ} (A : Type ℓ) : Type ℓ where
  ok : A → Outcome A
  fail : Failure → Outcome A

infixl 5 ◌>>=◌ ◌>>◌
abbrev pub ◌>>=◌ {ℓ κ} : {A : Type ℓ} {B : Type κ} → Outcome A → (A → Outcome B) → Outcome B
ok a >>= f = f a
fail e >>= f = fail e

abbrev pub ◌>>◌ {ℓ} : {B : Type ℓ} → Outcome (Unit {0}) → Outcome B → Outcome B
m >> k = m >>= λ _. k

abbrev pub refuse_if : Bool → Failure → Outcome (Unit {0})
refuse_if true e = fail e
refuse_if false e = ok tt

-- A JavaScript number, as the code reads it: `ToInteger`, Go's `int64(val)` of the double (the two differ
-- from 2^63 on, and at the infinities, where the conversion is the machine's), whether it equals its
-- truncation, its bits as a double and rounded to a float, and whether it lies beyond the range of a float.
pub record Number : Type 0 where
  pub integer : ℤ
  pub as_int64 : ℤ
  pub whole : Bool
  pub bits64 : ℕ
  pub bits32 : ℕ
  pub beyond_float32 : Bool

-- `call.Argument(i)`
pub data Arg : Type 0 where
  undefined other : Arg
  number : Number → Arg
  big_int : ℤ → Arg
  string : Bytes → Arg

abbrev pub required_integer_argument : Arg → Outcome ℤ
required_integer_argument (number n) = ok n.integer
required_integer_argument undefined = fail invalid_arg_type
required_integer_argument other = fail invalid_arg_type
required_integer_argument (big_int i) = fail invalid_arg_type
required_integer_argument (string s) = fail invalid_arg_type

abbrev pub required_strict_integer_argument : Arg → Outcome ℤ
required_strict_integer_argument (number n) = if n.whole then ok n.as_int64 else fail out_of_range
required_strict_integer_argument undefined = fail invalid_arg_type
required_strict_integer_argument other = fail invalid_arg_type
required_strict_integer_argument (big_int i) = fail invalid_arg_type
required_strict_integer_argument (string s) = fail invalid_arg_type

abbrev pub required_float_argument : Arg → Outcome Number
required_float_argument (number n) = ok n
required_float_argument undefined = fail invalid_arg_type
required_float_argument other = fail invalid_arg_type
required_float_argument (big_int i) = fail invalid_arg_type
required_float_argument (string s) = fail invalid_arg_type

abbrev pub coerced_integer_argument : Arg → ℤ → ℤ → ℤ
coerced_integer_argument (number n) default mismatch = n.integer
coerced_integer_argument undefined default mismatch = default
coerced_integer_argument other default mismatch = mismatch
coerced_integer_argument (big_int i) default mismatch = mismatch
coerced_integer_argument (string s) default mismatch = mismatch

abbrev pub optional_integer_argument : Arg → ℤ → Outcome ℤ
optional_integer_argument (number n) default = ok n.integer
optional_integer_argument undefined default = ok default
optional_integer_argument other default = fail invalid_arg_type
optional_integer_argument (big_int i) default = fail invalid_arg_type
optional_integer_argument (string s) default = fail invalid_arg_type

abbrev pub required_big_int_argument : Arg → Outcome ℤ
required_big_int_argument (big_int i) = ok i
required_big_int_argument undefined = fail invalid_arg_type
required_big_int_argument other = fail invalid_arg_type
required_big_int_argument (number n) = fail invalid_arg_type
required_big_int_argument (string s) = fail invalid_arg_type

abbrev pub required_string_argument : Arg → Outcome Bytes
required_string_argument (string s) = ok s
required_string_argument undefined = fail invalid_arg_type
required_string_argument other = fail invalid_arg_type
required_string_argument (number n) = fail invalid_arg_type
required_string_argument (big_int i) = fail invalid_arg_type

-- Inversion of a chain that succeeds.
pub bind_ok {ℓ κ} :
    {A : Type ℓ} {B : Type κ} (m : Outcome A) (f : A → Outcome B) {b : B}
    → (m >>= f) ≡ ok b
    → (a : A) × (m ≡ ok a) × (f a ≡ ok b)
bind_ok (ok a) f h = (a, refl, h)
bind_ok (fail e) f h = cc

pub refuse_if_ok {ℓ} :
    {B : Type ℓ} (t : Bool) (e : Failure) (k : Outcome B) {b : B}
    → (refuse_if t e >>= λ _. k) ≡ ok b
    → (t ≡ false) × (k ≡ ok b)
refuse_if_ok true e k h = cc
refuse_if_ok false e k h = (refl, h)
