-- ===== src/Config/Paths.antt =====
-- `normalize_path_for_id` of src/config.rs.
use koc_core.Common.{
  ℕ, ◌≡◌, refl, [], ◌∷◌, map, ◌==◌, ◌&&◌, if◌then◌else◌, Bool-cases, inl, inr, arith,
}
use koc_core.Common.Results.{All}
use koc_core.Json.{Text}

-- `path.replace('\\', "/")`, on a character.
abbrev pub to_slash : ℕ → ℕ
to_slash c = if c == 92 then 47 else c

-- `while s.starts_with("./")`
unfoldable pub strip_here : Text → Text
strip_here [] = []
strip_here (c ∷ []) = c ∷ []
strip_here (c ∷ d ∷ cs) =
    let rest = strip_here cs in if (c == 46) && (d == 47) then rest else c ∷ d ∷ cs

unfoldable pub normalize_path_for_id : Text → Text
unfolding strip_here
normalize_path_for_id path = strip_here (map to_slash path)

-- A character that is no backslash.
abbrev IsSlashed : ℕ → Type 0
IsSlashed c = to_slash c ≡ c

to_slash_twice : (c : ℕ) → to_slash (to_slash c) ≡ to_slash c
to_slash_twice c = ground arith

map-IsSlashed : (s : Text) → All IsSlashed (map to_slash s)
map-IsSlashed [] = tt
map-IsSlashed (c ∷ s) = (to_slash_twice c, map-IsSlashed s)

map_same : (s : Text) → All IsSlashed s → map to_slash s ≡ s
map_same [] h = refl
map_same (c ∷ s) (hc, h) = rw (hc, map_same s h)

strip_here-IsSlashed : (s : Text) → All IsSlashed s → All IsSlashed (strip_here s)
unfolding strip_here
strip_here-IsSlashed [] h = tt
strip_here-IsSlashed (c ∷ []) h = h
strip_here-IsSlashed (c ∷ d ∷ cs) (hc, (hd, h)) = elim (Bool-cases ((c == 46) && (d == 47))) [
  | inl here ↦ rw here (strip_here-IsSlashed cs h)
  | inr other ↦ rw other (hc, (hd, h))
]

strip_here_twice : (s : Text) → strip_here (strip_here s) ≡ strip_here s
unfolding strip_here
strip_here_twice [] = refl
strip_here_twice (c ∷ []) = refl
strip_here_twice (c ∷ d ∷ cs) = elim (Bool-cases ((c == 46) && (d == 47))) [
  | inl here ↦ rw here (strip_here_twice cs)
  | inr other ↦ rw (other, other) refl
]

-- A normalized path is normal.
pub normalize_path_for_id_twice :
    (path : Text) → normalize_path_for_id (normalize_path_for_id path) ≡ normalize_path_for_id path
unfolding normalize_path_for_id
normalize_path_for_id_twice path =
    let slashed = strip_here-IsSlashed (map to_slash path) (map-IsSlashed path) in
    rw (map_same (strip_here (map to_slash path)) slashed) (strip_here_twice (map to_slash path))
