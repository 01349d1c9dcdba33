-- ===== src/Kpi/Commands/Account.antt =====
-- Methods of `GameClient` in src/kpi.rs that send one command: lines 285 to 530: the account, heroes, items, the arena, fights, tasks and stores.
use koc_core.Common.{ℕ, true, false, [], ◌∷◌}
use koc_core.Common.Codes.{codes}
use koc_core.Common.Int.{ℤ, pos}
use koc_core.Json.{Text, Value, bool, string, SerdeJson}
use koc_core.Kpi.Request.{GameClient, Request, json, int, nat, cmd, cmd_fight}

module _ {N : Type 0} where
  unfoldable pub system_getdatabundlever : Request N
  unfolding cmd
  system_getdatabundlever =
      cmd (codes "system_getdatabundlever") (json ((codes "isAudit", bool false) ∷ []))

  unfoldable pub system_custom : Text → Value N → Request N
  unfolding cmd
  system_custom key value =
      cmd (codes "system_custom") (json ((codes "key", string key) ∷ (codes "value", value) ∷ []))

  unfoldable pub system_signinreward : Request N
  unfolding cmd
  system_signinreward = cmd (codes "system_signinreward") (json [])

  unfoldable pub system_claimhangupreward : Request N
  unfolding cmd
  system_claimhangupreward = cmd (codes "system_claimhangupreward") (json [])

  unfoldable pub system_sendchatmessage : Value N → Request N
  unfolding cmd
  system_sendchatmessage params = cmd (codes "system_sendchatmessage") params

  unfoldable pub hero_exchange : Value N → Request N
  unfolding cmd
  hero_exchange params = cmd (codes "hero_exchange") params

  unfoldable pub hero_gointobattle : Value N → Request N
  unfolding cmd
  hero_gointobattle params = cmd (codes "hero_gointobattle") params

  unfoldable pub hero_gobackbattle : Value N → Request N
  unfolding cmd
  hero_gobackbattle params = cmd (codes "hero_gobackbattle") params

  unfoldable pub hero_heroupgradelevel : Value N → Request N
  unfolding cmd
  hero_heroupgradelevel params = cmd (codes "hero_heroupgradelevel") params

  unfoldable pub hero_heroupgradeorder : Value N → Request N
  unfolding cmd
  hero_heroupgradeorder params = cmd (codes "hero_heroupgradeorder") params

  unfoldable pub hero_heroupgradestar : Value N → Request N
  unfolding cmd
  hero_heroupgradestar params = cmd (codes "hero_heroupgradestar") params

  unfoldable pub hero_rebirth : Value N → Request N
  unfolding cmd
  hero_rebirth params = cmd (codes "hero_rebirth") params

  unfoldable pub item_batchclaimboxpointreward : Request N
  unfolding cmd
  item_batchclaimboxpointreward = cmd (codes "item_batchclaimboxpointreward") (json [])

  unfoldable pub item_openpack : Value N → Request N
  unfolding cmd
  item_openpack params = cmd (codes "item_openpack") params

  unfoldable pub arena_startarea : Request N
  unfolding cmd
  arena_startarea = cmd (codes "arena_startarea") (json [])

  unfoldable pub arena_getareatarget : Request N
  unfolding cmd
  arena_getareatarget =
      cmd (codes "arena_getareatarget") (json ((codes "refresh", bool false) ∷ []))

  unfoldable pub arena_getarearank : Request N
  unfolding cmd
  arena_getarearank = cmd (codes "arena_getarearank") (json [])

module _ {N : Type 0} (lib : SerdeJson N) where
  unfoldable pub role_getroleinfo : Request N
  unfolding cmd
  role_getroleinfo = cmd (codes "role_getroleinfo") (
      json (
        (codes "clientVersion", string (codes "2.21.2-fa918e1997301834-wx"))
        ∷ (codes "inviteUid", int lib (pos 0))
        ∷ (codes "platform", string (codes "hortor"))
        ∷ (codes "platformExt", string (codes "mix"))
        ∷ (codes "scene", string [])
        ∷ []))

  unfoldable pub system_buygold : Request N
  unfolding cmd
  system_buygold = cmd (codes "system_buygold") (json ((codes "buyNum", int lib (pos 1)) ∷ []))

  unfoldable pub system_mysharecallback : Request N
  unfolding cmd
  system_mysharecallback =
      cmd (codes "system_mysharecallback")
        (json ((codes "isSkipShareCard", bool true) ∷ (codes "type", int lib (pos 2)) ∷ []))

  unfoldable pub role_commitpassword : Text → ℤ → Request N
  unfolding cmd
  role_commitpassword password password_type = cmd (codes "role_commitpassword") (
      json
        ((codes "password", string password) ∷ (codes "passwordType", int lib password_type) ∷ []))

  unfoldable pub friend_batch : Request N
  unfolding cmd
  friend_batch = cmd (codes "friend_batch") (json ((codes "friendId", int lib (pos 0)) ∷ []))

  unfoldable pub hero_recruit : ℕ → ℕ → Request N
  unfolding cmd
  hero_recruit recruit_type recruit_number = cmd (codes "hero_recruit") (
      json (
        (codes "byClub", bool false)
        ∷ (codes "recruitNumber", nat lib recruit_number)
        ∷ (codes "recruitType", nat lib recruit_type)
        ∷ []))

  unfoldable pub item_openbox : ℕ → ℕ → Request N
  unfolding cmd
  item_openbox item_id number =
      cmd (codes "item_openbox")
        (json ((codes "itemId", nat lib item_id) ∷ (codes "number", nat lib number) ∷ []))

  unfoldable pub fight_startareaarena : GameClient N → ℕ → Request N
  unfolding cmd_fight
  fight_startareaarena self target_id =
      cmd_fight lib self (codes "fight_startareaarena")
        (json ((codes "targetId", nat lib target_id) ∷ []))

  unfoldable pub fight_startboss : GameClient N → ℕ → Request N
  unfolding cmd_fight
  fight_startboss self boss_id =
      cmd_fight lib self (codes "fight_startboss") (json ((codes "bossId", nat lib boss_id) ∷ []))

  unfoldable pub fight_startlegionboss : GameClient N → Request N
  unfolding cmd_fight
  fight_startlegionboss self = cmd_fight lib self (codes "fight_startlegionboss") (json [])

  unfoldable pub fight_startpvp : GameClient N → Value N → Request N
  unfolding cmd_fight
  fight_startpvp self params = cmd_fight lib self (codes "fight_startpvp") params

  unfoldable pub fight_starttower : GameClient N → Request N
  unfolding cmd_fight
  fight_starttower self = cmd_fight lib self (codes "fight_starttower") (json [])

  unfoldable pub fight_startdungeon : GameClient N → Value N → Request N
  unfolding cmd_fight
  fight_startdungeon self params = cmd_fight lib self (codes "fight_startdungeon") params

  unfoldable pub fight_startlevel : GameClient N → Value N → Request N
  unfolding cmd_fight
  fight_startlevel self params = cmd_fight lib self (codes "fight_startlevel") params

  unfoldable pub task_claimdailypoint : ℕ → Request N
  unfolding cmd
  task_claimdailypoint task_id =
      cmd (codes "task_claimdailypoint") (json ((codes "taskId", nat lib task_id) ∷ []))

  unfoldable pub task_claimdailyreward : Request N
  unfolding cmd
  task_claimdailyreward =
      cmd (codes "task_claimdailyreward") (json ((codes "rewardId", int lib (pos 0)) ∷ []))

  unfoldable pub task_claimweekreward : Request N
  unfolding cmd
  task_claimweekreward =
      cmd (codes "task_claimweekreward") (json ((codes "rewardId", int lib (pos 0)) ∷ []))

  unfoldable pub store_goodslist : ℕ → Request N
  unfolding cmd
  store_goodslist store_id =
      cmd (codes "store_goodslist") (json ((codes "storeId", nat lib store_id) ∷ []))

  unfoldable pub store_buy : ℕ → Request N
  unfolding cmd
  store_buy goods_id = cmd (codes "store_buy") (json ((codes "goodsId", nat lib goods_id) ∷ []))

  unfoldable pub store_purchase : ℕ → Request N
  unfolding cmd
  store_purchase goods_id =
      cmd (codes "store_purchase") (json ((codes "goodsId", nat lib goods_id) ∷ []))

  unfoldable pub store_refresh : ℕ → Request N
  unfolding cmd
  store_refresh store_id =
      cmd (codes "store_refresh") (json ((codes "storeId", nat lib store_id) ∷ []))
