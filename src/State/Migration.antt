-- ===== src/State/Migration.antt =====
-- `normalize_role_keys` of src/state.rs: keys of roles are migrated to normalized paths.
use koc_core.Common.{
  ℕ, ◌+◌, ◌-◌, ◌^◌, ◌≡◌, refl, ◌∙◌, ap, true, Option, none, some, List, [], ◌∷◌, ◌++◌, ◌==◌,
  if◌then◌else◌, Bool-cases, Option-cases, inl, inr,
}
use koc_core.Common.Results.{All}
use koc_core.Json.{Text}
use koc_core.Bon.Encoder.{text_eq}
use koc_core.Bon.Table.{text_eq_refl}
use koc_core.ErrorCodes.{parse_magnitude, parse_digits}
use koc_core.Config.Paths.{normalize_path_for_id, normalize_path_for_id_twice}
use koc_core.State.{AppState, RoleState}

-- `key.rsplit_once(':')`: the parts around the last colon.
unfoldable pub rsplit_once : Text → Option (Text × Text)
rsplit_once [] = none
rsplit_once (c ∷ cs) =
    let rest = rsplit_once cs in
    elim rest [
      | some (path, sid) ↦ some (c ∷ path, sid)
      | none ↦ if c == 58 then some ([], cs) else none
    ]

-- `sid_part.parse::<u64>()`
abbrev pub parse_u64 : Text → Option ℕ
parse_u64 [] = none
parse_u64 (c ∷ cs) = parse_magnitude (2 ^ 64 - 1) (if c == 43 then cs else c ∷ cs)

unfoldable pub normalize_key : Text → Text
unfolding rsplit_once normalize_path_for_id parse_digits
normalize_key key = elim (rsplit_once key) [
  | none ↦ key
  | some (path_part, sid_part) ↦ elim (parse_u64 sid_part) [
    | none ↦ key
    | some sid ↦ normalize_path_for_id path_part ++ 58 ∷ sid_part
  ]
]

module _ {F : Type 0} where
  -- `new_roles.entry(normalized_key).or_insert(state)`
  unfoldable pub or_insert :
      Text → RoleState F → List (Text × RoleState F) → List (Text × RoleState F)
  or_insert k v [] = (k, v) ∷ []
  or_insert k v ((j, r) ∷ m) =
      let rest = or_insert k v m in if text_eq j k then (j, r) ∷ m else (j, r) ∷ rest

  -- The loop over the old roles, with the count of the keys that changed.
  unfoldable pub migrate :
      List (Text × RoleState F) → ℕ × List (Text × RoleState F) → ℕ × List (Text × RoleState F)
  unfolding normalize_key or_insert
  migrate [] (count, m) = (count, m)
  migrate ((k, r) ∷ old) (count, m) =
      migrate old
        (if text_eq (normalize_key k) k then count else count + 1, or_insert (normalize_key k) r m)

  unfoldable pub normalize_role_keys : AppState F → ℕ × AppState F
  unfolding migrate
  normalize_role_keys s =
      let done = migrate s.roles (0, []) in (done.0, record s { roles = done.1 })

-- The part after the last colon has no colon.
rsplit_once-last : (s path sid : Text) → rsplit_once s ≡ some (path, sid) → rsplit_once sid ≡ none
unfolding rsplit_once
rsplit_once-last [] path sid h = absurd (cc h)
rsplit_once-last (c ∷ cs) path sid h = elim (Option-cases (rsplit_once cs)) [
  | inr ((p, q), found) ↦
      let same : q ≡ sid = cc (rw found at h) in rw (← same) (rsplit_once-last cs p q found)
  | inl missing ↦ elim (Bool-cases (c == 58)) [
    | inl colon ↦ let same : cs ≡ sid = cc (rw (missing, colon) at h) in rw (← same) missing
    | inr other ↦ absurd (cc (rw (missing, other) at h))
  ]
]

rsplit_once-join :
    (path sid : Text) → rsplit_once sid ≡ none → rsplit_once (path ++ 58 ∷ sid) ≡ some (path, sid)
unfolding rsplit_once
rsplit_once-join [] sid h = rw h refl
rsplit_once-join (c ∷ path) sid h = rw (rsplit_once-join path sid h) refl

-- A normalized key is normal.
normalize_key_twice : (k : Text) → normalize_key (normalize_key k) ≡ normalize_key k
unfolding normalize_key
normalize_key_twice k = elim (Option-cases (rsplit_once k)) [
  | inl whole ↦
      let same : normalize_key k ≡ k = rw (whole, normalize_key) refl in ap normalize_key same
  | inr ((path, sid), parts) ↦ elim (Option-cases (parse_u64 sid)) [
    | inl bad ↦
        let same : normalize_key k ≡ k = rw (parts, normalize_key, bad) refl in
        ap normalize_key same
    | inr (n, good) ↦
        rw
          (
            parts,
            normalize_key,
            good,
            rsplit_once-join (normalize_path_for_id path) sid (rsplit_once-last k path sid parts),
            good,
            normalize_path_for_id_twice path,
          )
          refl
  ]
]

module _ {F : Type 0} where
  AllNormal : List (Text × RoleState F) → Type 0
  AllNormal m = All (λ kr. normalize_key kr.0 ≡ kr.0) m

  or_insert-AllNormal :
      (k : Text) (r : RoleState F) (m : List (Text × RoleState F))
      → normalize_key k ≡ k
      → AllNormal m
      → AllNormal (or_insert k r m)
  unfolding or_insert AllNormal
  or_insert-AllNormal k r [] h a = (h, tt)
  or_insert-AllNormal k r ((j, q) ∷ m) h (b, a) = elim (Bool-cases (text_eq j k)) [
    | inl present ↦ rw present (b, a)
    | inr other ↦ rw other (b, or_insert-AllNormal k r m h a)
  ]

  migrate-AllNormal :
      (old : List (Text × RoleState F)) (count : ℕ) (m : List (Text × RoleState F))
      → AllNormal m
      → AllNormal (migrate old (count, m)).1
  unfolding migrate
  migrate-AllNormal [] count m a = a
  migrate-AllNormal ((k, r) ∷ old) count m a =
      migrate-AllNormal old _ (or_insert (normalize_key k) r m)
        (or_insert-AllNormal (normalize_key k) r m (normalize_key_twice k) a)

  migrate-normal :
      (old : List (Text × RoleState F)) (count : ℕ) (m : List (Text × RoleState F))
      → AllNormal old
      → (migrate old (count, m)).0 ≡ count
  unfolding migrate AllNormal
  migrate-normal [] count m a = refl
  migrate-normal ((k, r) ∷ old) count m (b, a) =
      let kept : text_eq (normalize_key k) k ≡ true = rw b (text_eq_refl k) in
      let same : (if text_eq (normalize_key k) k then count else count + 1) ≡ count =
        rw kept refl in
      let m' = or_insert (normalize_key k) r m in
      ap (λ c. (migrate old (c, m')).0) same ∙ migrate-normal old count m' a

  -- A second migration of the keys changes none.
  pub normalize_role_keys_twice :
      (s : AppState F) → (normalize_role_keys (normalize_role_keys s).1).0 ≡ 0
  unfolding normalize_role_keys AllNormal
  normalize_role_keys_twice s =
      migrate-normal (migrate s.roles (0, [])).1 0 [] (migrate-AllNormal s.roles 0 [] tt)
