-- ===== src/Server/Stop/Restart.antt =====
-- The lists of addresses outlive the server.
use owop_server_for_heroku_g.Base.{◌≡◌, refl, ap, ◌∙◌, [], All, map, subst, sym}
use owop_server_for_heroku_g.Base.Words.{Bytes}
use owop_server_for_heroku_g.Base.Eq.{nat_eq, bytes_eq}
use owop_server_for_heroku_g.Base.Assoc.{contains}
use owop_server_for_heroku_g.Limiter.{Float}
use owop_server_for_heroku_g.Database.Handles.{Os}
use owop_server_for_heroku_g.Server.{Server}
use owop_server_for_heroku_g.Server.Apart.{close-Apart}
use owop_server_for_heroku_g.Server.Close.{delete_worlds}
use owop_server_for_heroku_g.Server.Files.Kept.{IsLine, contains-readfiles}
use owop_server_for_heroku_g.Server.Stop.Lost.{each-Apart}
use owop_server_for_heroku_g.Server.Stop.{close_all, destroy, start}

module _ {F : Type 0} where
  -- The three lists of a server, as one server has them and another.
  record SameLists (one other : Server F) : Type 0 where
    bans : one.ipban ≡ other.ipban
    whites : one.ipwhitelist ≡ other.ipwhitelist
    blacks : one.ipblacklist ≡ other.ipblacklist

  close_all-SameLists : (srv : Server F) → SameLists (close_all srv) srv
  unfolding close_all
  close_all-SameLists srv =
      let Same : Server F → Type 0 = λ s. SameLists s srv in
      each-Apart Same
        (close-Apart Same (λ s worlds socks conns closing lockdown sent v. record {
          bans = v.bans;
          whites = v.whites;
          blacks = v.blacks;
        }))
        srv.socks srv (record { bans = refl; whites = refl; blacks = refl })

-- A server that starts on the disk that the destructor of another one left bans, whitelists and blacklists
-- the same addresses as that did before, whatever its passwords and its path, if none of these addresses
-- is empty or has an end of line in it.
pub contains-start :
    {F : Type 0} ⦃fl : Float F⦄ (os : Os) (junk modpw adminpw devpw path ip : Bytes)
    (srv : Server F)
    → All IsLine srv.ipban
    → All IsLine srv.ipwhitelist
    → All IsLine srv.ipblacklist
    → (contains ip (start {F = F} modpw adminpw devpw path (destroy os junk srv).disk).ipban
        ≡ contains ip srv.ipban)
      × (contains ip (start {F = F} modpw adminpw devpw path (destroy os junk srv).disk).ipwhitelist
          ≡ contains ip srv.ipwhitelist)
      × (contains ip (start {F = F} modpw adminpw devpw path (destroy os junk srv).disk).ipblacklist
          ≡ contains ip srv.ipblacklist)
unfolding start destroy
contains-start os junk modpw adminpw devpw path ip srv hb hw hl =
    let same = close_all-SameLists srv in
    let (b, w, l) =
      contains-readfiles
        (record (close_all srv) {
          worlds = [];
          disk =
              delete_worlds os junk (map (λ named. named.1) (close_all srv).worlds)
                (close_all srv).disk;
        })
        _ ip (subst (All IsLine) (sym same.bans) hb) (subst (All IsLine) (sym same.whites) hw)
        (subst (All IsLine) (sym same.blacks) hl) refl refl refl refl in
    (
      b ∙ ap (contains ip) same.bans,
      w ∙ ap (contains ip) same.whites,
      l ∙ ap (contains ip) same.blacks,
    )
