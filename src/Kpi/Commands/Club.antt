-- ===== src/Kpi/Commands/Club.antt =====
-- Methods of `GameClient` in src/kpi.rs that send one command: the club, its wars and the mail; study, fishing, sweeps, cards and the bottle.
use koc_core.Common.{ℕ, true, false, [], ◌∷◌}
use koc_core.Common.Codes.{codes}
use koc_core.Common.Int.{ℤ, pos, negsuc}
use koc_core.Json.{Value, bool, array, no_items, item, SerdeJson}
use koc_core.Kpi.Request.{Request, json, int, nat, cmd}

module _ {N : Type 0} where
  unfoldable pub legion_signin : Request N
  unfolding cmd
  legion_signin = cmd (codes "legion_signin") (json [])

  unfoldable pub legion_getinfo : Request N
  unfolding cmd
  legion_getinfo = cmd (codes "legion_getinfo") (json [])

  unfoldable pub legion_getinfobyid : Value N → Request N
  unfolding cmd
  legion_getinfobyid params = cmd (codes "legion_getinfobyid") params

  unfoldable pub legion_getwarrank : Request N
  unfolding cmd
  legion_getwarrank = cmd (codes "legion_getwarrank") (json [])

  unfoldable pub legionwar_getdetails : Request N
  unfolding cmd
  legionwar_getdetails = cmd (codes "legionwar_getdetails") (json [])

  unfoldable pub legion_storebuygoods : Value N → Request N
  unfolding cmd
  legion_storebuygoods params = cmd (codes "legion_storebuygoods") params

  unfoldable pub legion_kickout : Value N → Request N
  unfolding cmd
  legion_kickout params = cmd (codes "legion_kickout") params

  unfoldable pub legion_applylist : Request N
  unfolding cmd
  legion_applylist = cmd (codes "legion_applylist") (json [])

  unfoldable pub legion_approveapply : Value N → Request N
  unfolding cmd
  legion_approveapply params = cmd (codes "legion_approveapply") params

  unfoldable pub legion_refuseapply : Value N → Request N
  unfolding cmd
  legion_refuseapply params = cmd (codes "legion_refuseapply") params

  unfoldable pub legion_agree : Value N → Request N
  unfolding cmd
  legion_agree params = cmd (codes "legion_agree") params

  unfoldable pub legion_ignore : Value N → Request N
  unfolding cmd
  legion_ignore params = cmd (codes "legion_ignore") params

  unfoldable pub legion_research : Value N → Request N
  unfolding cmd
  legion_research params = cmd (codes "legion_research") params

  unfoldable pub legion_resetresearch : Value N → Request N
  unfolding cmd
  legion_resetresearch params = cmd (codes "legion_resetresearch") params

  unfoldable pub legion_getarearank : Request N
  unfolding cmd
  legion_getarearank = cmd (codes "legion_getarearank") (json [])

  unfoldable pub legion_getopponent : Request N
  unfolding cmd
  legion_getopponent = cmd (codes "legion_getopponent") (json [])

  unfoldable pub legion_getbattlefield : Request N
  unfolding cmd
  legion_getbattlefield = cmd (codes "legion_getbattlefield") (json [])

  unfoldable pub legion_signup : Request N
  unfolding cmd
  legion_signup = cmd (codes "legion_signup") (json [])

  unfoldable pub legionwar_getgoldmonthwarrank : Request N
  unfolding cmd
  legionwar_getgoldmonthwarrank = cmd (codes "legionwar_getgoldmonthwarrank") (json [])

  unfoldable pub legionmatch_rolesignup : Request N
  unfolding cmd
  legionmatch_rolesignup = cmd (codes "legionmatch_rolesignup") (json [])

  unfoldable pub legion_claimpayloadtask : Value N → Request N
  unfolding cmd
  legion_claimpayloadtask params = cmd (codes "legion_claimpayloadtask") params

  unfoldable pub legion_claimpayloadtaskprogress : Value N → Request N
  unfolding cmd
  legion_claimpayloadtaskprogress params = cmd (codes "legion_claimpayloadtaskprogress") params

  unfoldable pub legion_getpayloadtask : Request N
  unfolding cmd
  legion_getpayloadtask = cmd (codes "legion_getpayloadtask") (json [])

  unfoldable pub legion_getpayloadkillrecord : Request N
  unfolding cmd
  legion_getpayloadkillrecord = cmd (codes "legion_getpayloadkillrecord") (json [])

  unfoldable pub legion_getpayloadbf : Request N
  unfolding cmd
  legion_getpayloadbf = cmd (codes "legion_getpayloadbf") (json [])

  unfoldable pub legion_getpayloadrecord : Request N
  unfolding cmd
  legion_getpayloadrecord = cmd (codes "legion_getpayloadrecord") (json [])

  unfoldable pub legion_payloadsignup : Request N
  unfolding cmd
  legion_payloadsignup = cmd (codes "legion_payloadsignup") (json [])

  unfoldable pub saltroad_getsaltroadwartotalrank : Request N
  unfolding cmd
  saltroad_getsaltroadwartotalrank = cmd (codes "saltroad_getsaltroadwartotalrank") (json [])

  unfoldable pub saltroad_getsaltroadwargrouprank : Request N
  unfolding cmd
  saltroad_getsaltroadwargrouprank = cmd (codes "saltroad_getsaltroadwargrouprank") (json [])

  unfoldable pub saltroad_getwartype : Request N
  unfolding cmd
  saltroad_getwartype = cmd (codes "saltroad_getwartype") (json [])

  unfoldable pub league_getbattlefield : Request N
  unfolding cmd
  league_getbattlefield = cmd (codes "league_getbattlefield") (json [])

  unfoldable pub league_getgroupopponent : Request N
  unfolding cmd
  league_getgroupopponent = cmd (codes "league_getgroupopponent") (json [])

  unfoldable pub mail_getmtlinfo : Request N
  unfolding cmd
  mail_getmtlinfo = cmd (codes "mail_getmtlinfo") (json [])

  unfoldable pub mail_getmtlshortinfo : Request N
  unfolding cmd
  mail_getmtlshortinfo = cmd (codes "mail_getmtlshortinfo") (json [])

  unfoldable pub study_startgame : Request N
  unfolding cmd
  study_startgame = cmd (codes "study_startgame") (json [])

  unfoldable pub study_answer : Value N → Request N
  unfolding cmd
  study_answer params = cmd (codes "study_answer") params

  unfoldable pub artifact_exchange : Value N → Request N
  unfolding cmd
  artifact_exchange params = cmd (codes "artifact_exchange") params

  unfoldable pub artifact_load : Value N → Request N
  unfolding cmd
  artifact_load params = cmd (codes "artifact_load") params

  unfoldable pub artifact_unload : Value N → Request N
  unfolding cmd
  artifact_unload params = cmd (codes "artifact_unload") params

  unfoldable pub genie_buysweep : Request N
  unfolding cmd
  genie_buysweep = cmd (codes "genie_buysweep") (json [])

  unfoldable pub discount_getdiscountinfo : Request N
  unfolding cmd
  discount_getdiscountinfo = cmd (codes "discount_getdiscountinfo") (json [])

  unfoldable pub collection_claimfreereward : Request N
  unfolding cmd
  collection_claimfreereward = cmd (codes "collection_claimfreereward") (json [])

  unfoldable pub collection_goodslist : Request N
  unfolding cmd
  collection_goodslist = cmd (codes "collection_goodslist") (json [])

  unfoldable pub bottlehelper_claim : Request N
  unfolding cmd
  bottlehelper_claim = cmd (codes "bottlehelper_claim") (json [])

module _ {N : Type 0} (lib : SerdeJson N) where
  unfoldable pub mail_getlist : Request N
  unfolding cmd
  mail_getlist = cmd (codes "mail_getlist") (
      json (
        (
          codes "category",
          array (item (int lib (pos 0)) (item (int lib (pos 4)) (item (int lib (pos 5)) no_items))),
        )
        ∷ (codes "lastId", int lib (pos 0))
        ∷ (codes "size", int lib (pos 60))
        ∷ []))

  unfoldable pub mail_claimallattachment : ℤ → Request N
  unfolding cmd
  mail_claimallattachment category =
      cmd (codes "mail_claimallattachment") (json ((codes "category", int lib category) ∷ []))

  unfoldable pub study_claimreward : ℕ → Request N
  unfolding cmd
  study_claimreward reward_id =
      cmd (codes "study_claimreward") (json ((codes "rewardId", nat lib reward_id) ∷ []))

  unfoldable pub artifact_lottery : Request N
  unfolding cmd
  artifact_lottery = cmd (codes "artifact_lottery") (
      json (
        (codes "lotteryNumber", int lib (pos 1))
        ∷ (codes "newFree", bool true)
        ∷ (codes "type", int lib (pos 1))
        ∷ []))

  unfoldable pub genie_sweep : ℕ → Request N
  unfolding cmd
  genie_sweep genie_id = cmd (codes "genie_sweep") (json ((codes "genieId", nat lib genie_id) ∷ []))

  unfoldable pub gacha_drawreward : Request N
  unfolding cmd
  gacha_drawreward =
      cmd (codes "gacha_drawreward")
        (json ((codes "num", int lib (pos 1)) ∷ (codes "isGroup", bool false) ∷ []))

  unfoldable pub discount_claimreward : Request N
  unfolding cmd
  discount_claimreward =
      cmd (codes "discount_claimreward") (json ((codes "discountId", int lib (pos 1)) ∷ []))

  unfoldable pub card_claimfree : Request N
  unfolding cmd
  card_claimfree = cmd (codes "card_claimreward") (json ((codes "cardId", int lib (pos 1)) ∷ []))

  unfoldable pub card_claimreward : ℕ → Request N
  unfolding cmd
  card_claimreward card_id =
      cmd (codes "card_claimreward") (json ((codes "cardId", nat lib card_id) ∷ []))

  unfoldable pub bottlehelper_start : Request N
  unfolding cmd
  bottlehelper_start =
      cmd (codes "bottlehelper_start") (json ((codes "bottleType", int lib (negsuc 0)) ∷ []))

  unfoldable pub bottlehelper_stop : Request N
  unfolding cmd
  bottlehelper_stop =
      cmd (codes "bottlehelper_stop") (json ((codes "bottleType", int lib (negsuc 0)) ∷ []))
