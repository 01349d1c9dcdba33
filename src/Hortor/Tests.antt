-- ===== src/Hortor/Tests.antt =====
-- The theorem about src/hortor_crypto.rs at a concrete input, and unit tests of the source.
use koc_core.Common.{◌≡◌, refl, some, List, ℕ, length, arith}
use koc_core.Common.Codes.{codes}
use koc_core.Capture.Tests.{plain_engine, plain_engine_laws}
use koc_core.Hortor.{trans_code, get_code_key, deal_with_string, payload_key, encode_payload}
use koc_core.Hortor.RoundTrip.{encode_payload-decodes}

trans_code_tests :
    (trans_code (codes "ABCDEFGH") 0 ≡ codes "ABCDEFGH")
    × (trans_code (codes "ABCDEFGH") 1 ≡ codes "EFGHABCD")
    × (trans_code (codes "ABCDEFGH") 2 ≡ codes "GHEFCDAB")
unfolding trans_code
trans_code_tests = (refl, refl, refl)

get_code_key_tests :
    (get_code_key (codes "ABCDEFGHI") 3 ≡ codes "ADG")
    × (get_code_key (codes "123456789") 3 ≡ codes "147")
unfolding get_code_key
get_code_key_tests = (refl, refl)

deal_with_string_test :
    deal_with_string
      (deal_with_string (codes "Hello, World!") (codes "secret") 1)
      (codes "secret")
      1
    ≡ codes "Hello, World!"
unfolding deal_with_string
deal_with_string_test = refl

encode_payload-decodes_example :
    (raw : List ℕ) × (plain_engine.decode (encode_payload plain_engine (codes "{}")) ≡ some raw)
    × (plain_engine.decode (deal_with_string raw payload_key 1) ≡ some (codes "{}"))
    × (length payload_key ≡ 1365)
encode_payload-decodes_example =
    encode_payload-decodes plain_engine (codes "{}") plain_engine_laws
      (omega arith, (omega arith, tt))
