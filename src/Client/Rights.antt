-- ===== src/Client/Rights.antt =====
-- What the rank of a client lets it do, and when warnings end its stay.
use owop_server_for_heroku_g.Base.{
  ℕ, zero, suc, ◌≡◌, refl, ap, ◌∙◌, ◌+◌, ◌%◌, ◌^◌, ◌<◌, true, false, List, [], ◌∷◌, ltb, leb, arith,
}
use owop_server_for_heroku_g.Base.Words.{Bytes}
use owop_server_for_heroku_g.Chunk.{Rgb}
use owop_server_for_heroku_g.Limiter.{Float, Bucket, set_rate, can_spend}
use owop_server_for_heroku_g.Limiter.Bounds.{can_spend_above_rate}
use owop_server_for_heroku_g.Database.Storage.{Disk}
use owop_server_for_heroku_g.Database.Handles.{Os}
use owop_server_for_heroku_g.World.{World}
use owop_server_for_heroku_g.Client.{
  Client, is_admin, warn, can_edit, set_pbucket, grant, promote, put_px,
}
use owop_server_for_heroku_g.Client.Rank

-- A client that draws at the given places, in the given colours and at the given times.
pub record Draw : Type 0 where
  pub x : ℕ
  pub y : ℕ
  pub clr : Rgb
  pub now : ℕ

module _ {F : Type 0} ⦃fl : Float F⦄ where
  -- Without rights: no administrator, and a rate of zero.
  record IsBarred (cl : Client F) : Type 0 where
    common : is_admin cl ≡ false
    no_rate : cl.pixupdlimit.rate ≡ 0

  promote-IsBarred : (cl : Client F) (prate : ℕ) → IsBarred (promote cl Rank.none prate).0
  unfolding promote grant set_pbucket set_rate
  promote-IsBarred cl prate = record { common = refl; no_rate = refl }

  rate-can_spend : (b : Bucket F) (now count : ℕ) → (can_spend b now count).0.rate ≡ b.rate
  unfolding can_spend
  rate-can_spend b now count = ground arith

  pub draws : Os → Bytes → List Draw → Client F → World → Disk → Client F × World × Disk
  draws os junk [] cl w disk = (cl, w, disk)
  draws os junk (d ∷ ds) cl w disk =
      let (cl', did) = put_px os junk cl d.x d.y d.clr d.now w disk in
      draws os junk ds cl' did.world did.disk

  put_px-IsBarred :
      (os : Os) (junk : Bytes) (cl : Client F) (x y : ℕ) (clr : Rgb) (now : ℕ) (w : World)
      (disk : Disk)
      → IsBarred cl
      → IsBarred (put_px os junk cl x y clr now w disk).0
        × ((put_px os junk cl x y clr now w disk).1
            ≡ record { world = w; disk = disk; sent = []; changed = false })
  unfolding put_px can_edit
  put_px-IsBarred os junk cl x y clr now w disk v =
      let refused = can_spend_above_rate cl.pixupdlimit now 1 (omega (arith, v.no_rate)) in
      let rate = rate-can_spend cl.pixupdlimit now 1 ∙ v.no_rate in
      rw (v.common, refused, put_px, can_edit) (record { common = v.common; no_rate = rate }, refl)

  draws-IsBarred :
      (os : Os) (junk : Bytes) (ds : List Draw) (cl : Client F) (w : World) (disk : Disk)
      → IsBarred cl
      → ((draws os junk ds cl w disk).1 ≡ w) × ((draws os junk ds cl w disk).2 ≡ disk)
  unfolding draws
  draws-IsBarred os junk [] cl w disk v = (refl, refl)
  draws-IsBarred os junk (d ∷ ds) cl w disk v =
      let (barred, same) = put_px-IsBarred os junk cl d.x d.y d.clr d.now w disk v in
      let cl' = (put_px os junk cl d.x d.y d.clr d.now w disk).0 in
      let (same_world, same_disk) = draws-IsBarred os junk ds cl' w disk barred in
      (
        ap (λ did. (draws os junk ds cl' did.world did.disk).1) same ∙ same_world,
        ap (λ did. (draws os junk ds cl' did.world did.disk).2) same ∙ same_disk,
      )

  -- A client that has been given the rank NONE changes nothing of the world or the disk, whatever
  -- it was before, wherever it draws, how often and when.
  pub draws-promote :
      (os : Os) (junk : Bytes) (ds : List Draw) (cl : Client F) (prate : ℕ) (w : World)
      (disk : Disk)
      → ((draws os junk ds (promote cl Rank.none prate).0 w disk).1 ≡ w)
        × ((draws os junk ds (promote cl Rank.none prate).0 w disk).2 ≡ disk)
  draws-promote os junk ds cl prate w disk =
      draws-IsBarred os junk ds (promote cl Rank.none prate).0 w disk (promote-IsBarred cl prate)

module _ {F : Type 0} where
  -- n warnings in a row.
  pub warned : ℕ → Client F → Client F
  warned zero cl = cl
  warned (suc n) cl = warned n (warn cl).0

  warn-penalty :
      (cl : Client F)
      → is_admin cl ≡ false
      → cl.penalty + 1 < 2 ^ 16
      → ((warn cl).0.penalty ≡ cl.penalty + 1)
        × (is_admin (warn cl).0 ≡ false)
        × ((warn cl).1 ≡ ltb 128 (cl.penalty + 1))
  unfolding warn
  warn-penalty cl h room =
      let small : (cl.penalty + 1) % 2 ^ 16 ≡ cl.penalty + 1 = omega arith in
      rw (h, warn) (small, h, ap (ltb 128) small)

  warned-penalty :
      (n : ℕ) (cl : Client F)
      → is_admin cl ≡ false
      → cl.penalty + n < 2 ^ 16
      → ((warned n cl).penalty ≡ cl.penalty + n) × (is_admin (warned n cl) ≡ false)
  unfolding warned
  warned-penalty zero cl h room = (omega arith, h)
  warned-penalty (suc n) cl h room =
      let (more, common, closes) = warn-penalty cl h (omega arith) in
      let (total, still) = warned-penalty n (warn cl).0 common (omega (arith, more)) in
      (omega (arith, total, more), still)

  warned-admin : (n : ℕ) (cl : Client F) → is_admin cl ≡ true → warned n cl ≡ cl
  unfolding warned warn
  warned-admin zero cl h = refl
  warned-admin (suc n) cl h = ap (warned n) (rw (h, warn) refl) ∙ warned-admin n cl h

  -- Of fewer than 2 ^ 16 warnings to a client without penalty and without the rank of an
  -- administrator, the 129th and every later one closes it, and none before. An administrator is
  -- closed by none of them.
  pub warn-warned :
      (n : ℕ) (cl : Client F)
      → cl.penalty ≡ 0
      → n + 1 < 2 ^ 16
      → (is_admin cl ≡ false → (warn (warned n cl)).1 ≡ leb 128 n)
        × (is_admin cl ≡ true → (warn (warned n cl)).1 ≡ false)
  unfolding warn
  warn-warned n cl fresh room = (
    λ common.
        let (total, still) = warned-penalty n cl common (omega (arith, fresh)) in
        let (_, _, closes) = warn-penalty (warned n cl) still (omega (arith, total, fresh)) in
        closes ∙ ap (λ m. ltb 128 (m + 1)) total ∙ ground arith,
    λ admin. rw (warned-admin n cl admin, admin, warn) refl,
  )
