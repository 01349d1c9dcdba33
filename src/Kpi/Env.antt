-- ===== src/Kpi/Env.antt =====
-- What the methods of src/kpi.rs call, and how they read JSON values.
use koc_core.Common.{ℕ, ◌-◌, ◌%◌, ◌^◌, Option, none, some}
use koc_core.Common.Int.{ℤ, pos, negsuc}
use koc_core.Json.{Text, Value, number, SerdeJson}
use koc_core.Json.Maps.{get}
use koc_core.Protocol.Message.{and_then, as_object}
use koc_core.State.Periodic.{F64}

-- What the methods call: `serde_json` with its `Value::pointer`, the operations on `f64`, whose
-- values are bit patterns, and the clock, which stands still during one run.
pub record Env (N : Type 0) : Type 0 where
  pub json : SerdeJson N
  pub pointer : Text → Value N → Option (Value N)
  pub float : F64 ℕ
  -- `f as i64`
  pub truncate : ℕ → ℤ
  -- the local day of a timestamp
  pub local_date : ℤ → Option ℕ
  pub today : ℕ
  -- today as `%Y-%m-%d`, the day of the week, the hour, and the seconds since 1970
  pub date : Text
  pub days_from_sunday : ℕ
  pub hour : ℕ
  pub now : ℕ
  -- the milliseconds since 1970, `now_secs`, and the second at which the local day began
  pub now_ms : ℕ
  pub now_secs : ℕ
  pub today_start : ℕ
  -- `n as f64`, `+` and `/`
  pub from_nat : ℕ → ℕ
  pub plus : ℕ → ℕ → ℕ
  pub divide : ℕ → ℕ → ℕ

-- `v as u32` for an `i64`.
abbrev pub to_u32 : ℤ → ℕ
to_u32 (pos n) = n % 2 ^ 32
to_u32 (negsuc n) = 2 ^ 32 - 1 - n % 2 ^ 32

-- `a.or_else(|| b)`
abbrev pub or_else : {A : Type 0} → Option A → Option A → Option A
or_else (some a) b = some a
or_else none b = b

module _ {N : Type 0} where
  -- `Value::get` on a string
  abbrev pub field : Text → Value N → Option (Value N)
  field k v = and_then (as_object v) (get k)

module _ {N : Type 0} (env : Env N) where
  abbrev pub as_i64 : Value N → Option ℤ
  as_i64 (number n) = env.json.as_i64 n
  as_i64 v = none

  abbrev pub as_u64 : Value N → Option ℕ
  as_u64 (number n) = env.json.as_u64 n
  as_u64 v = none

  abbrev pub as_f64 : Value N → Option ℕ
  as_f64 (number n) = env.json.as_f64 n
  as_f64 v = none

  -- `v.pointer(a).or_else(|| v.pointer(b))`
  abbrev pub pointer_or : Text → Text → Value N → Option (Value N)
  pointer_or a b v = or_else (env.pointer a v) (env.pointer b v)
