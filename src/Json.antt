-- ===== src/Json.antt =====
-- The `serde_json` values that bon.rs, protocol.rs and the rest of the program pass around.
-- `serde_json` is not part of the repository: `Number` is an abstract type with the methods that
-- the source calls, and `Map` is, as in its default build, a `BTreeMap` from strings to values.
pub mod Maps
pub mod Sample
use koc_core.Common.{ℕ, ◌-◌, ◌^◌, ◌<◌, ◌≡◌, Bool, Option, some, List}
use koc_core.Common.Int.{ℤ, pos, negsuc, ◌≤ℤ◌}

-- A `String` is its UTF-8 bytes.
abbrev pub Text : Type 0
Text = List ℕ

mutual
  pub data Value (N : Type 0) : Type 0 where
    null : Value N
    bool : Bool → Value N
    number : N → Value N
    string : Text → Value N
    array : Items N → Value N
    object : JsonMap N → Value N

  pub data Items (N : Type 0) : Type 0 where
    no_items : Items N
    item : Value N → Items N → Items N

  -- The entries of a map, in the order of their keys.
  pub data JsonMap (N : Type 0) : Type 0 where
    no_entries : JsonMap N
    entry : Text → Value N → JsonMap N → JsonMap N

-- The range of `i64`.
abbrev pub IsI64 : ℤ → Type 0
IsI64 v = (negsuc (2 ^ 63 - 1) ≤ℤ v) × (v ≤ℤ pos (2 ^ 63 - 1))

-- What the source calls on a `Number`, and two operations on floats. A float is its bit pattern.
pub record SerdeJson (N : Type 0) : Type 0 where
  pub as_i64 : N → Option ℤ
  pub as_u64 : N → Option ℕ
  pub as_f64 : N → Option ℕ
  pub from_i64 : ℤ → N
  pub from_u64 : ℕ → N
  pub from_f64 : ℕ → Option N
  -- `v as f64` for an `f32`
  pub widen_f32 : ℕ → ℕ
  -- `format!("{}", value)`
  pub to_string : Value N → Text

-- The documented behaviour that the theorems rely on.
pub record IsSerdeJson {N : Type 0} (lib : SerdeJson N) : Type 0 where
  -- a number with an `i64` reading is that integer, and is rebuilt from it
  pub as_i64-IsI64 : (n : N) (i : ℤ) → lib.as_i64 n ≡ some i → IsI64 i
  pub from_i64-as_i64 : (n : N) (i : ℤ) → lib.as_i64 n ≡ some i → lib.from_i64 i ≡ n
  pub as_i64-from_i64 : (i : ℤ) → IsI64 i → lib.as_i64 (lib.from_i64 i) ≡ some i
  -- an `f64` has 64 bits
  pub as_f64-lt : (n : N) (f : ℕ) → lib.as_f64 n ≡ some f → f < 2 ^ 64
