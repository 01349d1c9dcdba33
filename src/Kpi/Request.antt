-- ===== src/Kpi/Request.antt =====
-- `GameClient` of src/kpi.rs, and the three ways in which its methods send a command.
use koc_core.Common.{ℕ, Option, some, List, [], ◌∷◌}
use koc_core.Common.Codes.{codes}
use koc_core.Common.Int.{ℤ}
use koc_core.Json.{Text, Value, number, object, JsonMap, no_entries, SerdeJson}
use koc_core.Json.Maps.{insert}

-- The connection `ws` is left out: a request is what is handed to it.
pub record GameClient (N : Type 0) : Type 0 where
  pub role_info : Option (Value N)
  pub battle_version : Option ℤ

-- The arguments of `ws.send_with_response`.
pub record Request (N : Type 0) : Type 0 where
  pub name : Text
  pub params : Value N
  pub timeout_ms : ℕ

abbrev t_default : ℕ
t_default = 8000

abbrev t_fight : ℕ
t_fight = 12000

module _ {N : Type 0} where
  -- `json!({…})`
  abbrev entries_of : List (Text × Value N) → JsonMap N → JsonMap N
  entries_of [] m = m
  entries_of ((k, v) ∷ es) m = entries_of es (insert k v m)

  abbrev pub json : List (Text × Value N) → Value N
  json es = object (entries_of es no_entries)

  unfoldable pub cmd_with_timeout : Text → Value N → ℕ → Request N
  cmd_with_timeout name params timeout_ms = record {
    name = name;
    params = params;
    timeout_ms = timeout_ms;
  }

  unfoldable pub cmd : Text → Value N → Request N
  unfolding cmd_with_timeout
  cmd name params = cmd_with_timeout name params t_default

module _ {N : Type 0} (lib : SerdeJson N) where
  -- An integer literal in `json!`, and a `u64` or `u32`.
  abbrev pub int : ℤ → Value N
  int i = number (lib.from_i64 i)

  abbrev pub nat : ℕ → Value N
  nat n = number (lib.from_u64 n)

  -- `params.as_object_mut()` and the `insert`
  abbrev with_version : Option ℤ → Value N → Value N
  with_version (some bv) (object m) = object (insert (codes "battleVersion") (int bv) m)
  with_version version params = params

  unfoldable pub cmd_fight : GameClient N → Text → Value N → Request N
  cmd_fight self name params = record {
    name = name;
    params = with_version self.battle_version params;
    timeout_ms = t_fight;
  }
