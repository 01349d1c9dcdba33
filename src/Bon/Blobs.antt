-- ===== src/Bon/Blobs.antt =====
-- Runs of bytes: the methods of `DataReader` and `DataWriter` for text, blobs and floats.
use native.Mathlib.Nat.{add-zero}
use koc_core.Common.{
  ℕ, zero, suc, ◌/◌, ◌^◌, ◌<◌, ◌≡◌, refl, List, [], ◌∷◌, ◌++◌, append_assoc, append-nil, length,
  arith,
}
use koc_core.Common.State.{◌>>=◌}
use koc_core.Json.{Text}
use koc_core.Utf8.{IsUtf8, from_utf8_lossy-IsUtf8}
use koc_core.Bon.Reader.{
  DataReader, advance, read_utf_bytes, read_bytes, read_f64, read_utf, from_le_bytes,
}
use koc_core.Bon.Reader.Rest.{
  Rest, Reads, validate-Rest, window-Rest, advance-Rest, advance-advance,
}
use koc_core.Bon.Writer.{DataWriter, extend, write_utf, write_f64, to_le_bytes}
use koc_core.Bon.Varint.{varint, write_7bit_int-varint, read_7bit_int-Reads}

pub advance-zero : (r : DataReader) → advance r 0 ≡ r
advance-zero r = rw (add-zero r.position)

-- Well-formed text of known length is read as it is.
pub read_utf_bytes-Reads : (s : Text) → IsUtf8 s → Reads (read_utf_bytes (length s)) s s
unfolding read_utf_bytes
read_utf_bytes-Reads [] u r ts h = rw (advance-zero r)
read_utf_bytes-Reads (b ∷ s) u r ts h =
    rw
      (
        validate-Rest r (b ∷ s) ts h (omega arith),
        window-Rest r (b ∷ s) ts h,
        from_utf8_lossy-IsUtf8 (b ∷ s) u,
      )
      (ground arith)

pub read_bytes-Reads : (bs : List ℕ) → 0 < length bs → Reads (read_bytes (length bs)) bs bs
unfolding read_bytes
read_bytes-Reads bs k r ts h = rw (validate-Rest r bs ts h k, window-Rest r bs ts h)

from_to_le_bytes : (n v : ℕ) → v < 256 ^ n → from_le_bytes (to_le_bytes n v) ≡ v
from_to_le_bytes zero v h = omega arith
from_to_le_bytes (suc n) v h = omega (arith, from_to_le_bytes n (v / 256) (omega arith))

pub write_f64-bytes : (w : DataWriter) (v : ℕ) → write_f64 w v ≡ extend w (to_le_bytes 8 v)
unfolding write_f64
write_f64-bytes w v = refl

pub read_f64-Reads : (v : ℕ) → v < 2 ^ 64 → Reads read_f64 (to_le_bytes 8 v) v
unfolding read_f64
read_f64-Reads v k r ts h = rw (
  validate-Rest r (to_le_bytes 8 v) ts h (omega arith),
  window-Rest r (to_le_bytes 8 v) ts h,
  from_to_le_bytes 8 v k,
)

-- A length and the bytes that it counts.
abbrev pub counted : List ℕ → List ℕ
counted bs = varint (length bs) ++ bs

pub write_utf-counted :
    (w : DataWriter) (s : Text) → length s < 2 ^ 32 → write_utf w s ≡ extend w (counted s)
unfolding write_utf
write_utf-counted w [] h = rw (write_7bit_int-varint w 0 h, append-nil)
write_utf-counted w (b ∷ s) h = rw (write_7bit_int-varint w (length (b ∷ s)) h, append_assoc)

-- Text that was written is read back.
pub read_utf-Reads : (s : Text) → IsUtf8 s → length s < 2 ^ 32 → Reads read_utf (counted s) s
unfolding read_utf
read_utf-Reads s u h r ts k =
    let k' : Rest r (varint (length s) ++ (s ++ ts)) = rw append_assoc at k in
    rw (
      read_7bit_int-Reads (length s) h r (s ++ ts) k',
      ◌>>=◌,
      read_utf_bytes-Reads s u (advance r (length (varint (length s)))) ts
          (advance-Rest r (varint (length s)) (s ++ ts) k'),
      advance-advance r (varint (length s)) s,
    )
