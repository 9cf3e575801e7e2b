-- ===== src/Server/Join.antt =====
-- Joining a world: `Server::join_world`, with `World::add_cli` of world.cpp and what it tells a client.
use owop_server_for_heroku_g.Base.{
  ℕ, Bool, true, not, ◌&&◌, ◌||◌, none, some, List, [], ◌∷◌, ◌++◌, ltb, ◌==◌, if◌then◌else◌,
}
use owop_server_for_heroku_g.Base.Words.{Bytes, codes}
use owop_server_for_heroku_g.Base.Eq.{nat_eq, bytes_eq, eq_bytes}
use owop_server_for_heroku_g.Base.Assoc.{lookup, insert}
use owop_server_for_heroku_g.Limiter.{Float}
use owop_server_for_heroku_g.Net.{Out}
use owop_server_for_heroku_g.World.{World}
use owop_server_for_heroku_g.World.Props.{world}
use owop_server_for_heroku_g.World.Clients
use owop_server_for_heroku_g.World.Clients.{get_id}
use owop_server_for_heroku_g.World.Updates.{is_empty}
use owop_server_for_heroku_g.Client.{Client, client, promote, tell}
use owop_server_for_heroku_g.Client.Rank
use owop_server_for_heroku_g.Server.{Server, SocketInfo, send, put_player, put_world}
use owop_server_for_heroku_g.Server.Close.{close}

-- a..z, 0..9, '_' and '.'. A `char` is signed: bytes from 128 on are below all of these.
unfoldable pub is_name_char : ℕ → Bool
is_name_char c = (ltb 96 c && ltb c 123) || (ltb 47 c && ltb c 58) || c == 95 || c == 46

unfoldable pub is_name : Bytes → Bool
is_name [] = true
is_name (c ∷ cs) = is_name_char c && is_name cs

-- What `add_cli` tells everyone who joins.
unfoldable pub rules : Bytes
rules =
    codes "<h1 style=\"text-align:center; color: #66ffcc;\">mathias377 OWOP</h1>"
    ++ (codes "<h2 style=\"text-align:center; color: #66ffcc;\">Rules:</h2>"
        ++ (codes "<ol style=\"color: #80b3ff;\">"
            ++ (codes "  <li>Do not cheat</li>"
                ++ (codes "  <li>Do not spoil/destroy the work of others</li>"
                    ++ (codes "  <li>Do not use scripts/bugs</li>"
                        ++ (codes "  <li>There is owop to discord bot</li>"
                            ++ (codes
                                  "  <li>Bots allowed but for Owners unlimited, Admins 20, Mods 15 and for Players 10</li>"
                                ++ (codes
                                      "  <li>(For admins) Dont clear images and dont fuck mathias377</li>"
                                    ++ (codes "  <li>Hackers and fukcers will be banned</li>"
                                        ++ (codes "  <li>For more rules go to my discord</li>"
                                            ++ (codes "</ol>"
                                                ++ (codes "<br>"
                                                    ++ (codes
                                                          "<li style=\"color: #ff0000;\">My discord mathias377#3326</li>"
                                                        ++ (codes "<br>"
                                                            ++ (codes
                                                            "<a class=\"btn btn-primary\" href=https://discord.gg/eBtPYp7 target=_blank>my cursors io hack discord server</a>"
                                                            ++ (codes "<br>"
                                                            ++ (codes
                                                            "<a class=\"btn btn-primary\" href=https://discord.gg/p6UuZCq target=_blank>my owop discord server</a>"
                                                            ++ (codes "<br>"
                                                            ++ (codes
                                                            "<a class=\"btn btn-primary\" href=https://owoppa.netlify.com/changelog target=_blank>my owop changelog</a>"
                                                            ++ (codes "<br>"))))))))))))))))))))

module _ {F : Type 0} ⦃fl : Float F⦄ where
  -- `World::add_cli`: the client, the world and what is sent.
  unfoldable pub add_cli : Client F → World → Client F × World × List Out
  add_cli cl w =
      let (cl', sent) =
        if is_empty w.pass
        then promote cl w.default_rank w.paintrate
        else (let (cl', sent) = promote cl Rank.none w.paintrate in
            (
              cl',
              tell cl (
                    codes
                      "[Server] This world has a password set. Use '/pass PASSWORD' to unlock drawing.")
                  ++ sent,
            )) in
      (cl', Clients.add_cli cl.ws w, tell cl rules ++ sent)

  -- The world that is found, or made from its files.
  unfoldable pub find_world : Bytes → Server F → World × Server F
  find_world name srv = elim (lookup name srv.worlds) [
    | none ↦
        let w = world srv.path name srv.disk in
        (w, record srv { worlds = insert name w srv.worlds })
    | some w ↦ (w, srv)
  ]

  -- A client enters a world. `origin` is what its suspicion is about.
  unfoldable pub enter : ℕ → SocketInfo F → World → Server F → Server F
  enter ws si w srv =
      let (id, w1) = get_id w in
      let (cl, hello) =
        client id ws w.name (not (eq_bytes si.origin (codes "https://owoppa.netlify.com"))) in
      let (cl', w2, welcome) = add_cli cl w1 in
      send (hello ++ welcome) (put_world w2 (put_player ws si cl' srv))

  unfoldable pub join_world : ℕ → Bytes → Server F → Server F
  join_world ws worldname srv =
      if not (is_name worldname) then close ws srv else elim (lookup ws srv.socks) [
        | none ↦ srv
        | some si ↦ let (w, srv') = find_world worldname srv in enter ws si w srv'
      ]
