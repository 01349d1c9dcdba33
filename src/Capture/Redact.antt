-- ===== src/Capture/Redact.antt =====
-- `redact_value` and `is_sensitive_key` of src/proxy_capture.rs.
use koc_core.Common.{
  ◌≡◌, refl, ap, ap₂, subst, ◌↔◌, Bool, true, false, ◌||◌, List, [], ◌∷◌, ◌==◌, if◌then◌else◌,
  Bool-cases, inl, inr,
}
use koc_core.Common.Codes.{codes}
use koc_core.Json.{
  Text, Value, null, bool, number, string, array, object, Items, no_items, item, JsonMap,
  no_entries, entry,
}
use koc_core.Config.Times.{to_ascii_lowercase, one_of}

-- `replace(['_', '-'], "")`
unfoldable pub drop_marks : Text → Text
drop_marks [] = []
drop_marks (c ∷ s) =
    let rest = drop_marks s in if (c == b'_') || (c == b'-') then rest else c ∷ rest

-- The alternatives of the `matches!`.
abbrev pub sensitive_keys : List Text
sensitive_keys =
    codes "token"
    ∷ codes "accesstoken"
    ∷ codes "refreshtoken"
    ∷ codes "session"
    ∷ codes "sessionid"
    ∷ codes "sessid"
    ∷ codes "connid"
    ∷ codes "connectionid"
    ∷ codes "openid"
    ∷ codes "unionid"
    ∷ codes "roleid"
    ∷ codes "userid"
    ∷ codes "accountid"
    ∷ codes "deviceid"
    ∷ codes "uid"
    ∷ codes "name"
    ∷ codes "nickname"
    ∷ codes "sessionkey"
    ∷ codes "sessiontoken"
    ∷ codes "authtoken"
    ∷ codes "credential"
    ∷ codes "authorization"
    ∷ codes "password"
    ∷ codes "secret"
    ∷ []

unfoldable pub is_sensitive_key : Text → Bool
is_sensitive_key key = one_of key sensitive_keys

-- A key as it is compared.
unfoldable pub hides : Text → Bool
unfolding drop_marks is_sensitive_key
hides key = is_sensitive_key (drop_marks (to_ascii_lowercase key))

module _ {N : Type 0} where
  abbrev pub redacted : Value N
  redacted = string (codes "[REDACTED]")

  -- An entry's new value: the recursive call has been made.
  abbrev pub redact_under : Text → Value N → Value N
  redact_under key redacted_value = if hides key then redacted else redacted_value

  unfoldable mutual
    pub redact_value : Value N → Value N
    redact_value null = null
    redact_value (bool b) = bool b
    redact_value (number n) = number n
    redact_value (string s) = string s
    redact_value (array vs) = array (redact_items vs)
    redact_value (object m) = object (redact_entries m)

    pub redact_items : Items N → Items N
    redact_items no_items = no_items
    redact_items (item v vs) = item (redact_value v) (redact_items vs)

    pub redact_entries : JsonMap N → JsonMap N
    redact_entries no_entries = no_entries
    redact_entries (entry key v m) =
        entry key (redact_under key (redact_value v)) (redact_entries m)

  -- Under each sensitive key, at any depth, stands the mark and nothing else.
  mutual
    pub data IsRedacted : Value N → Type 0 where
      no_keys_null : IsRedacted null
      no_keys_bool : (b : Bool) → IsRedacted (bool b)
      no_keys_number : (n : N) → IsRedacted (number n)
      no_keys_string : (s : Text) → IsRedacted (string s)
      in_array : {vs : Items N} → AllRedacted vs → IsRedacted (array vs)
      in_object : {m : JsonMap N} → HidesAll m → IsRedacted (object m)

    pub data AllRedacted : Items N → Type 0 where
      no_more : AllRedacted no_items
      also : {v : Value N} {vs : Items N} → IsRedacted v → AllRedacted vs → AllRedacted (item v vs)

    pub data HidesAll : JsonMap N → Type 0 where
      no_keys : HidesAll no_entries
      hidden :
          {m : JsonMap N} (key : Text) (v : Value N)
          → hides key ≡ true
          → v ≡ redacted
          → HidesAll m
          → HidesAll (entry key v m)
      shown :
          {m : JsonMap N} {v : Value N} (key : Text)
          → hides key ≡ false
          → IsRedacted v
          → HidesAll m
          → HidesAll (entry key v m)

  mutual
    unfolding redact_value

    redact_value-IsRedacted : (v : Value N) → IsRedacted (redact_value v)
    redact_value-IsRedacted null = no_keys_null
    redact_value-IsRedacted (bool b) = no_keys_bool b
    redact_value-IsRedacted (number n) = no_keys_number n
    redact_value-IsRedacted (string s) = no_keys_string s
    redact_value-IsRedacted (array vs) = in_array (redact_items-AllRedacted vs)
    redact_value-IsRedacted (object m) = in_object (redact_entries-HidesAll m)

    redact_items-AllRedacted : (vs : Items N) → AllRedacted (redact_items vs)
    redact_items-AllRedacted no_items = no_more
    redact_items-AllRedacted (item v vs) =
        also (redact_value-IsRedacted v) (redact_items-AllRedacted vs)

    redact_entries-HidesAll : (m : JsonMap N) → HidesAll (redact_entries m)
    redact_entries-HidesAll no_entries = no_keys
    redact_entries-HidesAll (entry key v m) =
        let rest = redact_entries-HidesAll m in
        let inside = redact_value-IsRedacted v in
        elim (Bool-cases (hides key)) [
          | inl sensitive ↦ hidden key _ sensitive (rw sensitive refl) rest
          | inr plain ↦ rw plain (shown key plain inside rest)
        ]

  -- What is redacted already is left as it is.
  mutual
    unfolding redact_value

    redact_value-same : {v : Value N} → IsRedacted v → redact_value v ≡ v
    redact_value-same no_keys_null = refl
    redact_value-same (no_keys_bool b) = refl
    redact_value-same (no_keys_number n) = refl
    redact_value-same (no_keys_string s) = refl
    redact_value-same (in_array h) = ap array (redact_items-same h)
    redact_value-same (in_object h) = ap object (redact_entries-same h)

    redact_items-same : {vs : Items N} → AllRedacted vs → redact_items vs ≡ vs
    redact_items-same no_more = refl
    redact_items-same (also h hs) = ap₂ item (redact_value-same h) (redact_items-same hs)

    redact_entries-same : {m : JsonMap N} → HidesAll m → redact_entries m ≡ m
    redact_entries-same no_keys = refl
    redact_entries-same (hidden key v sensitive e hs) =
        rw (sensitive, redact_entries-same hs, e) refl
    redact_entries-same (shown key plain h hs) =
        rw (plain, redact_value-same h, redact_entries-same hs) refl

  -- A value is left as it is exactly if each sensitive key in it, at any depth, holds the mark; and
  -- so it is after redaction.
  pub redact_value_iff :
      (v : Value N) → IsRedacted (redact_value v) × ((redact_value v ≡ v) ↔ IsRedacted v)
  redact_value_iff v = (
    redact_value-IsRedacted v,
    ((λ e. subst IsRedacted e (redact_value-IsRedacted v)), redact_value-same),
  )
