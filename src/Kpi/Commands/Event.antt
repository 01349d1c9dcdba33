-- ===== src/Kpi/Commands/Event.antt =====
-- Methods of `GameClient` in src/kpi.rs that send one command: the towers, teams, ranks and dungeons, vehicles, legacies, equipment and activities.
use koc_core.Common.{ℕ, false, [], ◌∷◌}
use koc_core.Common.Codes.{codes}
use koc_core.Json.{Text, Value, bool, string, SerdeJson}
use koc_core.Kpi.Request.{Request, json, nat, cmd}

module _ {N : Type 0} where
  unfoldable pub tower_getinfo : Request N
  unfolding cmd
  tower_getinfo = cmd (codes "tower_getinfo") (json [])

  unfoldable pub evotower_getinfo : Request N
  unfolding cmd
  evotower_getinfo = cmd (codes "evotower_getinfo") (json [])

  unfoldable pub evotower_fight : Value N → Request N
  unfolding cmd
  evotower_fight params = cmd (codes "evotower_fight") params

  unfoldable pub evotower_getlegionjoinmembers : Request N
  unfolding cmd
  evotower_getlegionjoinmembers = cmd (codes "evotower_getlegionjoinmembers") (json [])

  unfoldable pub evotower_readyfight : Value N → Request N
  unfolding cmd
  evotower_readyfight params = cmd (codes "evotower_readyfight") params

  unfoldable pub evotower_claimreward : Value N → Request N
  unfolding cmd
  evotower_claimreward params = cmd (codes "evotower_claimreward") params

  unfoldable pub bosstower_getinfo : Request N
  unfolding cmd
  bosstower_getinfo = cmd (codes "bosstower_getinfo") (json [])

  unfoldable pub bosstower_startboss : Value N → Request N
  unfolding cmd
  bosstower_startboss params = cmd (codes "bosstower_startboss") params

  unfoldable pub bosstower_startbox : Value N → Request N
  unfolding cmd
  bosstower_startbox params = cmd (codes "bosstower_startbox") params

  unfoldable pub bosstower_gethelprank : Request N
  unfolding cmd
  bosstower_gethelprank = cmd (codes "bosstower_gethelprank") (json [])

  unfoldable pub mergebox_openbox : Value N → Request N
  unfolding cmd
  mergebox_openbox params = cmd (codes "mergebox_openbox") params

  unfoldable pub mergebox_mergeitem : Value N → Request N
  unfolding cmd
  mergebox_mergeitem params = cmd (codes "mergebox_mergeitem") params

  unfoldable pub presetteam_getinfo : Request N
  unfolding cmd
  presetteam_getinfo = cmd (codes "presetteam_getinfo") (json [])

  unfoldable pub presetteam_setteam : Value N → Request N
  unfolding cmd
  presetteam_setteam params = cmd (codes "presetteam_setteam") params

  unfoldable pub rank_getserverrank : Request N
  unfolding cmd
  rank_getserverrank = cmd (codes "rank_getserverrank") (json [])

  unfoldable pub rank_getroleinfo : Value N → Request N
  unfolding cmd
  rank_getroleinfo params = cmd (codes "rank_getroleinfo") params

  unfoldable pub role_gettargetteam : Value N → Request N
  unfolding cmd
  role_gettargetteam params = cmd (codes "role_gettargetteam") params

  unfoldable pub nightmare_getroleinfo : Request N
  unfolding cmd
  nightmare_getroleinfo = cmd (codes "nightmare_getroleinfo") (json [])

  unfoldable pub dungeon_selecthero : Value N → Request N
  unfolding cmd
  dungeon_selecthero params = cmd (codes "dungeon_selecthero") params

  unfoldable pub dungeon_buymerchant : Value N → Request N
  unfolding cmd
  dungeon_buymerchant params = cmd (codes "dungeon_buymerchant") params

  unfoldable pub car_getrolecar : Request N
  unfolding cmd
  car_getrolecar = cmd (codes "car_getrolecar") (json [])

  unfoldable pub car_refresh : Text → Request N
  unfolding cmd
  car_refresh car_id = cmd (codes "car_refresh") (json ((codes "carId", string car_id) ∷ []))

  unfoldable pub car_claim : Text → Request N
  unfolding cmd
  car_claim car_id = cmd (codes "car_claim") (json ((codes "carId", string car_id) ∷ []))

  unfoldable pub car_getmemberhelpingcnt : Request N
  unfolding cmd
  car_getmemberhelpingcnt = cmd (codes "car_getmemberhelpingcnt") (json [])

  unfoldable pub car_getmemberrank : Request N
  unfolding cmd
  car_getmemberrank = cmd (codes "car_getmemberrank") (json [])

  unfoldable pub car_research : Value N → Request N
  unfolding cmd
  car_research params = cmd (codes "car_research") params

  unfoldable pub car_claimpartconsumereward : Request N
  unfolding cmd
  car_claimpartconsumereward = cmd (codes "car_claimpartconsumereward") (json [])

  unfoldable pub legacy_getinfo : Request N
  unfolding cmd
  legacy_getinfo = cmd (codes "legacy_getinfo") (json [])

  unfoldable pub legacy_claimhangup : Request N
  unfolding cmd
  legacy_claimhangup = cmd (codes "legacy_claimhangup") (json [])

  unfoldable pub legacy_gift_getlist : Request N
  unfolding cmd
  legacy_gift_getlist = cmd (codes "legacy_gift_getlist") (json [])

  unfoldable pub legacy_gift_received : Request N
  unfolding cmd
  legacy_gift_received = cmd (codes "legacy_gift_received") (json [])

  unfoldable pub legacy_sendgift : Value N → Request N
  unfolding cmd
  legacy_sendgift params = cmd (codes "legacy_sendgift") params

  unfoldable pub equipment_confirm : Value N → Request N
  unfolding cmd
  equipment_confirm params = cmd (codes "equipment_confirm") params

  unfoldable pub equipment_quench : Value N → Request N
  unfolding cmd
  equipment_quench params = cmd (codes "equipment_quench") params

  unfoldable pub equipment_updatequenchlock : Value N → Request N
  unfolding cmd
  equipment_updatequenchlock params = cmd (codes "equipment_updatequenchlock") params

  unfoldable pub pearl_replaceskill : Value N → Request N
  unfolding cmd
  pearl_replaceskill params = cmd (codes "pearl_replaceskill") params

  unfoldable pub pearl_exchangeskill : Value N → Request N
  unfolding cmd
  pearl_exchangeskill params = cmd (codes "pearl_exchangeskill") params

  unfoldable pub pearl_unloadskill : Value N → Request N
  unfolding cmd
  pearl_unloadskill params = cmd (codes "pearl_unloadskill") params

  unfoldable pub book_upgrade : Value N → Request N
  unfolding cmd
  book_upgrade params = cmd (codes "book_upgrade") params

  unfoldable pub book_claimpointreward : Value N → Request N
  unfolding cmd
  book_claimpointreward params = cmd (codes "book_claimpointreward") params

  unfoldable pub lordweapon_changedefaultweapon : Value N → Request N
  unfolding cmd
  lordweapon_changedefaultweapon params = cmd (codes "lordweapon_changedefaultweapon") params

  unfoldable pub matchteam_getroleteaminfo : Request N
  unfolding cmd
  matchteam_getroleteaminfo = cmd (codes "matchteam_getroleteaminfo") (json [])

  unfoldable pub activity_get : Request N
  unfolding cmd
  activity_get = cmd (codes "activity_get") (json [])

  unfoldable pub activity_recyclewarorderrewardclaim : Request N
  unfolding cmd
  activity_recyclewarorderrewardclaim = cmd (codes "activity_recyclewarorderrewardclaim") (json [])

  unfoldable pub warguess_getrank : Request N
  unfolding cmd
  warguess_getrank = cmd (codes "warguess_getrank") (json [])

  unfoldable pub warguess_startguess : Value N → Request N
  unfolding cmd
  warguess_startguess params = cmd (codes "warguess_startguess") params

  unfoldable pub warguess_getguesscoinreward : Request N
  unfolding cmd
  warguess_getguesscoinreward = cmd (codes "warguess_getguesscoinreward") (json [])

module _ {N : Type 0} (lib : SerdeJson N) where
  unfoldable pub tower_claimreward : ℕ → Request N
  unfolding cmd
  tower_claimreward reward_id =
      cmd (codes "tower_claimreward") (json ((codes "rewardId", nat lib reward_id) ∷ []))

  unfoldable pub evotower_claimtask : ℕ → Request N
  unfolding cmd
  evotower_claimtask task_id =
      cmd (codes "evotower_claimtask") (json ((codes "taskId", nat lib task_id) ∷ []))

  unfoldable pub mergebox_getinfo : ℕ → Request N
  unfolding cmd
  mergebox_getinfo act_type =
      cmd (codes "mergebox_getinfo") (json ((codes "actType", nat lib act_type) ∷ []))

  unfoldable pub mergebox_claimfreeenergy : ℕ → Request N
  unfolding cmd
  mergebox_claimfreeenergy act_type =
      cmd (codes "mergebox_claimfreeenergy") (json ((codes "actType", nat lib act_type) ∷ []))

  unfoldable pub mergebox_automergeitem : ℕ → Request N
  unfolding cmd
  mergebox_automergeitem act_type =
      cmd (codes "mergebox_automergeitem") (json ((codes "actType", nat lib act_type) ∷ []))

  unfoldable pub mergebox_claimcostprogress : ℕ → Request N
  unfolding cmd
  mergebox_claimcostprogress act_type =
      cmd (codes "mergebox_claimcostprogress") (json ((codes "actType", nat lib act_type) ∷ []))

  unfoldable pub mergebox_claimmergeprogress : ℕ → ℕ → Request N
  unfolding cmd
  mergebox_claimmergeprogress act_type task_id =
      cmd (codes "mergebox_claimmergeprogress")
        (json ((codes "actType", nat lib act_type) ∷ (codes "taskId", nat lib task_id) ∷ []))

  unfoldable pub presetteam_saveteam : ℕ → Request N
  unfolding cmd
  presetteam_saveteam team_id =
      cmd (codes "presetteam_saveteam") (json ((codes "teamId", nat lib team_id) ∷ []))

  unfoldable pub car_send : Text → ℕ → Text → Request N
  unfolding cmd
  car_send car_id helper_id text = cmd (codes "car_send") (
      json (
        (codes "carId", string car_id)
        ∷ (codes "helperId", nat lib helper_id)
        ∷ (codes "text", string text)
        ∷ (codes "isUpgrade", bool false)
        ∷ []))

  unfoldable pub legacy_gift_send : ℕ → ℕ → ℕ → Request N
  unfolding cmd
  legacy_gift_send recipient_id item_id quantity = cmd (codes "legacy_gift_send") (
      json (
        (codes "recipientId", nat lib recipient_id)
        ∷ (codes "itemId", nat lib item_id)
        ∷ (codes "quantity", nat lib quantity)
        ∷ []))
