-- ===== src/ErrorCodes/Table.antt =====
-- The table of src/error_codes.rs: the codes of the server and their descriptions.
use koc_core.Common.{List, [], ◌∷◌}
use koc_core.Common.Codes.{codes}
use koc_core.Common.Int.{ℤ, pos, negsuc}
use koc_core.Json.{Text}

-- The calls of `m.insert`, in their order.
abbrev pub error_code_map : List (ℤ × Text)
error_code_map =
    (pos 200_020, codes "Something went wrong; try restarting the client")
    ∷ (pos 200_160, codes "Feature not unlocked")
    ∷ (pos 200_330, codes "Invalid ID")
    ∷ (pos 200_400, codes "Action performed too quickly; try again later")
    ∷ (pos 200_750, codes "Arena battle attempts exhausted")
    ∷ (pos 200_760, codes "Interface state changed; log in again")
    ∷ (pos 400_000, codes "Item does not exist")
    ∷ (pos 400_010, codes "Insufficient item quantity")
    ∷ (pos 400_030, codes "Daily free attempts exhausted")
    ∷ (pos 400_190, codes "No check-in rewards available to claim")
    ∷ (pos 400_340, codes "Attempts exhausted")
    ∷ (pos 700_010, codes "Task completion conditions not met")
    ∷ (pos 700_020, codes "Task already claimed")
    ∷ (pos 1_000_020, codes "Today's reward already claimed")
    ∷ (pos 1_300_040, codes "No Black Market purchase option is configured")
    ∷ (pos 1_300_050, codes "Adjust the purchase quantity")
    ∷ (pos 1_400_010, codes "No monthly card purchased; cannot claim daily rewards")
    ∷ (pos 2_600_040, codes "Salted-Fish King Dreamscape challenge attempts exhausted")
    ∷ (pos 2_600_050, codes "Salted-Fish King Dreamscape cleared or needs no further action")
    ∷ (pos 2_600_080, codes "Salted-Fish King Dreamscape cleared or needs no further action")
    ∷ (pos 1_500_010, codes "All floors cleared")
    ∷ (pos 1_500_020, codes "Insufficient energy")
    ∷ (pos 1_500_040, codes "Previous tower reward has not been claimed")
    ∷ (pos 2_100_010, codes "Evo Tower event is not active or has ended")
    ∷ (pos 12_200_020, codes "Evo Tower has pending chapter rewards or challenge state")
    ∷ (pos 12_200_040, codes "Evo Tower task conditions are not met; cannot claim yet")
    ∷ (pos 12_200_050, codes "Evo Tower task already claimed; cannot claim again")
    ∷ (pos 2_300_070, codes "Not a club member")
    ∷ (pos 2_300_190, codes "Already checked in today")
    ∷ (pos 2_300_250, codes "Today's Club Boss attempts exhausted")
    ∷ (pos 2_300_370, codes "Club purchase limit exceeded")
    ∷ (pos 3_300_050, codes "Purchase limit exceeded")
    ∷ (pos 3_300_060, codes "Sweep conditions not met")
    ∷ (pos 3_500_020, codes "No rewards available to claim")
    ∷ (pos 7_500_100, codes "Incorrect password")
    ∷ (pos 7_500_120, codes "Password attempt limit reached")
    ∷ (pos 7_500_140, codes "Enter the password first")
    ∷ (pos 7_900_023, codes "Usage limit reached")
    ∷ (negsuc 10_005, codes "Today's reward already claimed or attempts exhausted")
    ∷ (pos 12_000_050, codes "Daily vehicle dispatch limit reached")
    ∷ (pos 12_000_060, codes "Outside the vehicle dispatch window")
    ∷ (pos 12_000_116, codes "Today's free reward already claimed")
    ∷ (pos 200_120, codes "Reward does not exist or cannot be claimed")
    ∷ (pos 12_300_040, codes "No empty slots remain")
    ∷ (pos 12_300_080, codes "Unlock conditions not met")
    ∷ (pos 12_400_000, codes "Hangup rewards are being claimed too frequently")
    ∷ []

-- The codes after which no further attempt is made.
abbrev pub done_error_codes : List ℤ
done_error_codes =
    pos 400_030
    ∷ pos 400_190
    ∷ pos 400_340
    ∷ pos 700_020
    ∷ pos 1_000_020
    ∷ pos 2_300_190
    ∷ pos 2_300_250
    ∷ pos 3_300_050
    ∷ pos 3_500_020
    ∷ pos 7_900_023
    ∷ negsuc 10_005
    ∷ pos 12_000_116
    ∷ pos 200_750
    ∷ pos 12_400_000
    ∷ pos 200_020
    ∷ pos 200_120
    ∷ pos 200_160
    ∷ pos 2_100_010
    ∷ pos 12_200_050
    ∷ pos 400_000
    ∷ pos 400_010
    ∷ pos 1_300_040
    ∷ pos 1_300_050
    ∷ pos 1_400_010
    ∷ pos 2_600_040
    ∷ pos 2_600_050
    ∷ pos 2_600_080
    ∷ pos 2_300_070
    ∷ pos 2_300_370
    ∷ pos 3_300_060
    ∷ []
