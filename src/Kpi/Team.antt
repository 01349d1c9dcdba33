-- ===== src/Kpi/Team.antt =====
-- Reading and switching the team in use: `current_team_id`, `switch_team` and the two functions
-- around a fight in src/kpi.rs.
use koc_core.Common.{ℕ, ◌==◌, Bool, true, false, Option, none, some}
use koc_core.Common.Codes.{codes}
use koc_core.Common.Results.{Result, ok}
use koc_core.Json.{
  Text, Value, null, bool, number, string, array, object, Items, no_items, item, JsonMap,
  no_entries, entry,
}
use koc_core.Json.Maps.{get}
use koc_core.Protocol.Message.{and_then, unwrap_or}
use koc_core.Kpi.Env.{Env, or_else, field, as_u64}
use koc_core.Kpi.Session.{if◌then◌else◌, Server, M, ◌>>=◌, pure, call, try}
use koc_core.Kpi.Commands.Event.{presetteam_getinfo, presetteam_saveteam}

module _ {N : Type 0} (env : Env N) where
  -- The search for `useTeamId` in a value, in the items of an array, and in the values of a map.
  unfoldable mutual
    pub find_use_team_id_rec : Value N → Option ℕ
    find_use_team_id_rec (object m) =
        or_else (and_then (get (codes "useTeamId") m) (as_u64 env)) (find_in_map m)
    find_use_team_id_rec (array vs) = find_in_items vs
    find_use_team_id_rec null = none
    find_use_team_id_rec (bool b) = none
    find_use_team_id_rec (number n) = none
    find_use_team_id_rec (string s) = none

    pub find_in_items : Items N → Option ℕ
    find_in_items no_items = none
    find_in_items (item v vs) = or_else (find_use_team_id_rec v) (find_in_items vs)

    pub find_in_map : JsonMap N → Option ℕ
    find_in_map no_entries = none
    find_in_map (entry k v m) = or_else (find_use_team_id_rec v) (find_in_map m)

  unfoldable pub team_id_of : Value N → ℕ
  unfolding find_use_team_id_rec
  team_id_of info =
      let root = unwrap_or (field (codes "presetTeamInfo") info) info in
      let direct =
        or_else (field (codes "useTeamId") root)
          (env.pointer (codes "/presetTeamInfo/useTeamId") root) in
      unwrap_or (or_else (and_then direct (as_u64 env)) (find_use_team_id_rec root)) 1

  module _ {S : Type 0} (server : Server N) where
    unfoldable pub current_team_id : M N S (Result ℕ Text)
    current_team_id = do
      answer ← call server presetteam_getinfo
      try answer (λ info. pure (ok (team_id_of info)))

    -- The answer's value is dropped.
    unfoldable pub switch_team : ℕ → M N S (Result (Unit {0}) Text)
    switch_team team_id = do
      answer ← call server (presetteam_saveteam env.json team_id)
      try answer (λ info. pure (ok tt))

    unfoldable pub switch_to_context_formation : ℕ → Option ℕ → M N S (Result Bool Text)
    switch_to_context_formation target_team none = pure (ok false)
    switch_to_context_formation target_team (some original_team) =
        if original_team == target_team
        then pure (ok false)
        else do switched ← switch_team target_team; try switched (λ _. pure (ok true))

    unfoldable pub restore_context_formation : Bool → Option ℕ → M N S (Result (Unit {0}) Text)
    restore_context_formation false original = pure (ok tt)
    restore_context_formation true none = pure (ok tt)
    restore_context_formation true (some original_team) = do
      current ← current_team_id
      try current (λ current_team.
          if current_team == original_team
          then pure (ok tt)
          else do switched ← switch_team original_team; try switched (λ _. pure (ok tt)))
