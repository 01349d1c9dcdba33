-- ===== src/Json/Sample.antt =====
-- A `SerdeJson` that computes, for the tests: a number is an integer or the bits of a float.
use koc_core.Common.{ℕ, ◌^◌, ◌<◌, ◌≡◌, Bool, Option, none, some, [], ltb, if◌then◌else◌, arith}
use koc_core.Common.Int.{ℤ, pos, negsuc}
use koc_core.Json.{SerdeJson, IsSerdeJson, IsI64}

pub data Num : Type 0 where
  whole : ℤ → Num
  real : ℕ → Num

abbrev in_i64 : ℤ → Bool
in_i64 (pos n) = ltb n (2 ^ 63)
in_i64 (negsuc n) = ltb n (2 ^ 63)

abbrev num_as_i64 : Num → Option ℤ
num_as_i64 (whole i) = if in_i64 i then some i else none
num_as_i64 (real f) = none

abbrev num_as_u64 : Num → Option ℕ
num_as_u64 (whole (pos n)) = some n
num_as_u64 n = none

abbrev num_as_f64 : Num → Option ℕ
num_as_f64 (real f) = if ltb f (2 ^ 64) then some f else none
num_as_f64 (whole i) = none

abbrev pub sample_lib : SerdeJson Num
sample_lib = record {
  as_i64 = num_as_i64;
  as_u64 = num_as_u64;
  as_f64 = num_as_f64;
  from_i64 = whole;
  from_u64 = λ n. whole (pos n);
  from_f64 = λ f. if ltb f (2 ^ 64) then some (real f) else none;
  widen_f32 = λ f. f;
  to_string = λ v. [];
}

num_as_i64-IsI64 : (n : Num) (i : ℤ) → num_as_i64 n ≡ some i → IsI64 i
num_as_i64-IsI64 (whole (pos n)) i h = ground arith
num_as_i64-IsI64 (whole (negsuc n)) i h = ground arith
num_as_i64-IsI64 (real f) i h = cc

whole-as_i64 : (n : Num) (i : ℤ) → num_as_i64 n ≡ some i → whole i ≡ n
whole-as_i64 (whole (pos n)) i h = ground arith
whole-as_i64 (whole (negsuc n)) i h = ground arith
whole-as_i64 (real f) i h = cc

as_i64-whole : (i : ℤ) → IsI64 i → num_as_i64 (whole i) ≡ some i
as_i64-whole (pos n) h = ground arith
as_i64-whole (negsuc n) h = ground arith

num_as_f64-lt : (n : Num) (f : ℕ) → num_as_f64 n ≡ some f → f < 2 ^ 64
num_as_f64-lt (whole i) f h = cc
num_as_f64-lt (real g) f h = ground arith

pub sample_laws : IsSerdeJson sample_lib
sample_laws = record {
  as_i64-IsI64 = num_as_i64-IsI64;
  from_i64-as_i64 = whole-as_i64;
  as_i64-from_i64 = as_i64-whole;
  as_f64-lt = num_as_f64-lt;
}
