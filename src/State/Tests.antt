-- ===== src/State/Tests.antt =====
-- The theorems about src/state.rs at concrete inputs; a float is its bit pattern.
use koc_core.Common.{ℕ, ◌≡◌, refl, none, some, List, [], ◌∷◌, if◌then◌else◌, arith}
use koc_core.Common.Codes.{codes}
use koc_core.Json.{Text}
use koc_core.State.{AppState, default_role, find, has, sync_with_roles}
use koc_core.State.Sync.{kept_or_default, find-sync_with_roles}
use koc_core.State.Migration.{normalize_role_keys, normalize_role_keys_twice}
use koc_core.State.Rounds.{rounds, rounds-count}

-- A state of an earlier day, with one role.
abbrev earlier : AppState ℕ
earlier = record {
  round_date = some (codes "2026-01-01");
  round_count = 7;
  roles = (codes "a.bin:1", record (default_role 0) { role_name = codes "A" }) ∷ [];
}

abbrev new_keys : List Text
new_keys = codes "b.bin:1" ∷ codes "a.bin:1" ∷ []

find-sync_with_roles_example :
    find (codes "a.bin:1") (sync_with_roles 0 new_keys earlier).1.roles ≡ (
      if has (codes "a.bin:1") new_keys
      then some (kept_or_default 0 (find (codes "a.bin:1") earlier.roles))
      else none)
find-sync_with_roles_example = find-sync_with_roles 0 (codes "a.bin:1") new_keys earlier

rounds-count_example :
    rounds 3 (codes "2026-01-02") earlier
    ≡ record earlier { round_date = some (codes "2026-01-02"); round_count = 3 }
rounds-count_example = rounds-count 2 (codes "2026-01-02") earlier refl (omega arith)

abbrev unmigrated : AppState ℕ
unmigrated = record earlier {
  roles = (codes "./a.bin:1", default_role 0) ∷ (codes "a.bin:1", default_role 0) ∷ [];
}

normalize_role_keys_test : (normalize_role_keys unmigrated).0 ≡ 1
unfolding normalize_role_keys
normalize_role_keys_test = refl

normalize_role_keys_twice_example : (normalize_role_keys (normalize_role_keys unmigrated).1).0 ≡ 0
normalize_role_keys_twice_example = normalize_role_keys_twice unmigrated
