-- ===== src/Client/Tests.antt =====
-- Runs of the client operations, with the buckets over whole numbers.
use owop_server_for_heroku_g.Base.{ℕ, ◌≡◌, refl, true, false, [], ◌∷◌, arith, leb}
use owop_server_for_heroku_g.Limiter.Whole.{whole}
use owop_server_for_heroku_g.Database.Handles.{Os}
use owop_server_for_heroku_g.Database.Storage.{Disk}
use owop_server_for_heroku_g.World.Props.{world}
use owop_server_for_heroku_g.Client.{Client, client, is_admin, promote, warn}
use owop_server_for_heroku_g.Client.Rank
use owop_server_for_heroku_g.Client.Rights.{draws, draws-promote, warned, warn-warned}

abbrev os : Os
os = record { mkdir = λ dir. true; opens = λ path. true }

abbrev disk : Disk
disk = record { files = []; dirs = [] }

abbrev guest : Client ℕ
guest = (client 1 5 [] false).0

draws-promote_example :
    ((draws os []
        (record { x = 1; y = 2; clr = record { r = 9; g = 8; b = 7 }; now = 5_000_000_000 } ∷ [])
        (promote guest Rank.none 32).0
        (world [] [] disk)
        disk).1
      ≡ world [] [] disk)
    × ((draws os []
          (record { x = 1; y = 2; clr = record { r = 9; g = 8; b = 7 }; now = 5_000_000_000 } ∷ [])
          (promote guest Rank.none 32).0
          (world [] [] disk)
          disk).2
        ≡ disk)
draws-promote_example =
    draws-promote os []
      (record { x = 1; y = 2; clr = record { r = 9; g = 8; b = 7 }; now = 5_000_000_000 } ∷ [])
      guest 32 (world [] [] disk) disk

no_penalty : guest.penalty ≡ 0
unfolding client
no_penalty = refl

warn-warned_example :
    (is_admin guest ≡ false → (warn (warned 128 guest)).1 ≡ leb 128 128)
    × (is_admin guest ≡ true → (warn (warned 128 guest)).1 ≡ false)
warn-warned_example = warn-warned 128 guest no_penalty (omega arith)
