-- ===== src/Config/Formations.antt =====
-- The formations of src/config.rs: what is configured for a role goes before the defaults.
use koc_core.Common.{ℕ, Option, none, some, List, [], ◌∷◌, ◌==◌, if◌then◌else◌}
use koc_core.Json.{Text}
use koc_core.Bon.Encoder.{text_eq}

pub data FormationContext : Type 0 where
  arena tower evotower boss_daily boss_legion : FormationContext

pub record FormationDefaults : Type 0 where
  pub arena_team : ℕ
  pub tower_team : ℕ
  pub evotower_team : ℕ
  pub boss_daily_team : ℕ
  pub boss_legion_team : ℕ

pub record FormationOverride : Type 0 where
  pub arena_override : Option ℕ
  pub tower_override : Option ℕ
  pub evotower_override : Option ℕ
  pub boss_daily_override : Option ℕ
  pub boss_legion_override : Option ℕ

-- The labels "role" and "default".
pub data FormationSource : Type 0 where
  from_role from_default : FormationSource

unfoldable pub resolve_default : FormationDefaults → FormationContext → ℕ
resolve_default d arena = d.arena_team
resolve_default d tower = d.tower_team
resolve_default d evotower = d.evotower_team
resolve_default d boss_daily = d.boss_daily_team
resolve_default d boss_legion = d.boss_legion_team

unfoldable pub resolve_override : FormationOverride → FormationContext → Option ℕ
resolve_override o arena = o.arena_override
resolve_override o tower = o.tower_override
resolve_override o evotower = o.evotower_override
resolve_override o boss_daily = o.boss_daily_override
resolve_override o boss_legion = o.boss_legion_override

-- `HashMap::get`, for texts and for numbers.
unfoldable pub get_bin {ℓ} : {A : Type ℓ} → Text → List (Text × A) → Option A
get_bin k [] = none
get_bin k ((j, v) ∷ m) = let rest = get_bin k m in if text_eq j k then some v else rest

unfoldable pub get_role {ℓ} : {A : Type ℓ} → ℕ → List (ℕ × A) → Option A
get_role k [] = none
get_role k ((j, v) ∷ m) = let rest = get_role k m in if j == k then some v else rest

-- The fields of `BatchConfig` that are read here.
pub record Formations : Type 0 where
  pub formation_defaults : FormationDefaults
  pub role_formations : List (Text × List (ℕ × FormationOverride))

-- The override of a role in a context, if each step finds one.
unfoldable pub role_override : Formations → Text → ℕ → FormationContext → Option ℕ
unfolding get_bin get_role resolve_override
role_override config bin_name server_id context = elim (get_bin bin_name config.role_formations) [
  | none ↦ none
  | some role_map ↦ elim (get_role server_id role_map) [
    | none ↦ none
    | some override_cfg ↦ resolve_override override_cfg context
  ]
]

-- `bin_name_from_path`, on the platform's paths, is an argument.
module _ (bin_name_from_path : Text → Text) where
  unfoldable pub resolve_formation_with_source :
      Formations → Text → ℕ → FormationContext → ℕ × FormationSource
  unfolding role_override resolve_default
  resolve_formation_with_source config bin_path server_id context =
      elim (role_override config (bin_name_from_path bin_path) server_id context) [
        | some team_id ↦ (team_id, from_role)
        | none ↦ (resolve_default config.formation_defaults context, from_default)
      ]

  unfoldable pub resolve_formation : Formations → Text → ℕ → FormationContext → ℕ
  unfolding resolve_formation_with_source
  resolve_formation config bin_path server_id context =
      (resolve_formation_with_source config bin_path server_id context).0
