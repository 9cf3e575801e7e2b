-- ===== src/Commands/Kept/Rights.antt =====
-- The commands that change a client.
use owop_server_for_heroku_g.Base.{
  ℕ, ◌≡◌, refl, sym, subst, ◌≤◌, true, not, ◌&&◌, List, [], ◌∷◌, ◌++◌, either, maybe, decide,
  and_right, ltb, leb, length, All, arith,
}
use owop_server_for_heroku_g.Base.Words.{Bytes, codes, to_string}
use owop_server_for_heroku_g.Base.Eq.{nat_eq}
use owop_server_for_heroku_g.Limiter.{Float}
use owop_server_for_heroku_g.Utf8.{get_utf8_strlen}
use owop_server_for_heroku_g.Args.{join_args}
use owop_server_for_heroku_g.Args.Numbers.{read_u32}
use owop_server_for_heroku_g.World.Props.{is_pass}
use owop_server_for_heroku_g.World.Clients.{set_default_rank}
use owop_server_for_heroku_g.Client.{
  Client, is_admin, is_mod, promote, grant, set_pbucket, enable_html_chat, set_nick, set_stealth,
}
use owop_server_for_heroku_g.Client.Rank
use owop_server_for_heroku_g.Server.{Server, SocketInfo, put_player, admintell}
use owop_server_for_heroku_g.Net.{Out}
use owop_server_for_heroku_g.Server.Close.{kick}
use owop_server_for_heroku_g.Server.Kept.{Kept, admintell-Kept}
use owop_server_for_heroku_g.Commands.Caller.{Caller}
use owop_server_for_heroku_g.Commands.Speech.{is_adminpw, is_modpw}
use owop_server_for_heroku_g.Commands.Rights
use owop_server_for_heroku_g.Commands.Rights.{
  did_player, set_target_rank, set_target_bucket, mute_target, named, no_newlines, is_true,
}
use owop_server_for_heroku_g.Commands.Kept.{Known, with_target-Kept}

-- Of a word that is a password, the property allows the rank that it gives.
abbrev pub Opens : {F : Type 0} → (ℕ → Type 0) → Server F → Bytes → Type 0
Opens D srv w =
    (is_modpw w srv ≡ true → D Rank.moderator) × (is_adminpw w srv ≡ true → D Rank.admin)

module _ {F : Type 0} ⦃fl : Float F⦄ where
  pub rank-promote : (cl : Client F) (n prate : ℕ) → (promote cl n prate).0.rank ≡ n
  unfolding promote grant set_pbucket
  rank-promote cl n prate = ground arith

  pub handledelete-promote :
      (cl : Client F) (n prate : ℕ) → (promote cl n prate).0.handledelete ≡ cl.handledelete
  unfolding promote grant set_pbucket
  handledelete-promote cl n prate = ground arith

module _ {F : Type 0} (P : Server F → Type 0) (A : Client F → Type 0) (D : ℕ → Type 0)
    (k : Kept P A D) (c : Caller F) (v : Known P A D k c) where
  pub restrict-Kept : (args : List Bytes) (srv : Server F) → P srv → P (Rights.restrict c args srv)
  unfolding Rights.restrict set_default_rank
  restrict-Kept (cmd ∷ arg ∷ []) srv p = k.rest _ _ refl refl refl refl (
      k.put_world_kept _ srv
        (either D (is_true arg) Rank.none Rank.user (k.lower _ _ (omega arith) k.user) k.user) p)
  restrict-Kept args srv p = k.rest srv _ refl refl refl refl p

  set_kept :
      (cl : Client F) (srv : Server F)
      → cl.rank ≡ c.cl.rank
      → cl.handledelete ≡ c.cl.handledelete
      → P srv
      → P (put_player c.ws c.si cl srv)
  set_kept cl srv r h p = k.put_player_kept c.ws c.si cl srv (k.same_client c.cl cl r h v.client) p

  pub stealth-Kept : (args : List Bytes) (srv : Server F) → P srv → P (Rights.stealth c args srv)
  unfolding Rights.stealth set_stealth
  stealth-Kept (cmd ∷ arg ∷ []) srv p = k.rest _ _ refl refl refl refl (set_kept _ srv refl refl p)
  stealth-Kept args srv p = k.rest srv _ refl refl refl refl p

  named-Kept : (nick name : Bytes) (srv : Server F) → P srv → P (named c nick name srv)
  unfolding named set_nick
  named-Kept nick name srv p = k.rest _ _ refl refl refl refl (set_kept _ srv refl refl p)

  pub nick-Kept : (args : List Bytes) (srv : Server F) → P srv → P (Rights.nick c args srv)
  unfolding Rights.nick set_nick
  nick-Kept (cmd ∷ n ∷ args) srv p =
      let name = no_newlines (join_args (n ∷ args)) in
      let named_so = named-Kept name name srv p in
      either P (ltb (length name) 1) _ _ p (
        either P (is_admin c.cl) _ _ named_so (
          either P (is_mod c.cl && leb (get_utf8_strlen name) 40) _ _ named_so (
            either P (ltb 0 (get_utf8_strlen name)) _ _ (named-Kept _ name srv p)
              (k.rest srv _ refl refl refl refl p))))
  nick-Kept args srv p = k.rest _ _ refl refl refl refl (set_kept _ srv refl refl p)

  pub mute-Kept : (args : List Bytes) (srv : Server F) → P srv → P (Rights.mute c args srv)
  unfolding Rights.mute mute_target
  mute-Kept (cmd ∷ id ∷ arg ∷ []) srv p = with_target-Kept P A D k c id srv srv _ p p (λ n t a.
      either P (leb c.cl.rank t.cl.rank) _ _ (k.rest srv _ refl refl refl refl p) (
        k.rest _ _ refl refl refl refl
          (k.put_player_kept t.ws t.si _ srv (k.same_client t.cl _ refl refl a) p)))
  mute-Kept args srv p = k.rest srv _ refl refl refl refl p

module _ {F : Type 0} ⦃fl : Float F⦄ (P : Server F → Type 0) (A : Client F → Type 0)
    (D : ℕ → Type 0) (k : Kept P A D) (c : Caller F) (v : Known P A D k c) where
  below : {m n : ℕ} → ltb m n ≡ true → m ≤ n
  below h = ground arith

  promoted : (cl : Client F) (n prate : ℕ) → A cl → D n → A (promote cl n prate).0
  promoted cl n prate a d =
      k.new_rank cl _ (handledelete-promote cl n prate) (subst D (sym (rank-promote cl n prate)) d)
        a

  did_player_kept :
      (ws : ℕ) (si : SocketInfo F) (cl : Client F) (sent : List Out) (srv : Server F)
      → A cl
      → P srv
      → P (did_player ws si (cl, sent) srv)
  unfolding did_player
  did_player_kept ws si cl sent srv a p =
      k.rest (put_player ws si cl srv) _ refl refl refl refl (k.put_player_kept ws si cl srv a p)

  pub pass-Kept : (args : List Bytes) (srv : Server F) → P srv → P (Rights.pass c args srv)
  unfolding Rights.pass
  pass-Kept (cmd ∷ a ∷ args) srv p =
      let did = promote c.cl c.w.default_rank c.w.paintrate in
      either P (is_pass c.w (join_args (a ∷ args))) (did_player c.ws c.si did srv) (kick c.ws srv)
        (did_player_kept c.ws c.si did.0 did.1 srv
          (promoted c.cl c.w.default_rank c.w.paintrate v.client v.default) p)
        (k.kick_kept c.ws srv p)
  pass-Kept args srv p = k.rest srv _ refl refl refl refl p

  pub modlogin-Kept :
      (args : List Bytes) (srv : Server F)
      → All (Opens D srv) args
      → P srv
      → P (Rights.modlogin c args srv)
  unfolding Rights.modlogin
  modlogin-Kept (cmd ∷ pw ∷ []) srv (o, ((mod_, adm), u)) p =
      let told =
        admintell
          (codes "DEV"
            ++ (to_string c.cl.id
                ++ (codes " (" ++ (c.w.name ++ (codes ", " ++ (c.si.ip ++ codes ") Got mod"))))))
          srv in
      decide P (not (is_mod c.cl) && is_modpw pw srv) _ srv
        (λ good.
          did_player_kept c.ws c.si _ _ told
            (promoted c.cl Rank.moderator c.w.paintrate v.client (mod_ (and_right _ _ good)))
            (admintell-Kept P A D k _ srv p))
        (λ bad. p)
  modlogin-Kept args srv o p = p

  pub adminlogin-Kept :
      (args : List Bytes) (srv : Server F)
      → All (Opens D srv) args
      → P srv
      → P (Rights.adminlogin c args srv)
  unfolding Rights.adminlogin enable_html_chat
  adminlogin-Kept (cmd ∷ pw ∷ []) srv (o, ((mod_, adm), u)) p =
      let cl = (promote c.cl Rank.admin c.w.paintrate).0 in
      decide P (is_adminpw pw srv) _ _
        (λ good.
          did_player_kept c.ws c.si (record cl { chathtml = true }) _ srv
            (k.same_client cl _ refl refl
              (promoted c.cl Rank.admin c.w.paintrate v.client (adm good)))
            p)
        (λ bad. k.rest srv _ refl refl refl refl p)
  adminlogin-Kept args srv o p = p

  pub setrank-Kept : (args : List Bytes) (srv : Server F) → P srv → P (Rights.setrank c args srv)
  unfolding Rights.setrank set_target_rank
  setrank-Kept (cmd ∷ id ∷ arg ∷ []) srv p = maybe P (read_u32 arg) _ _ p (λ rank e.
      with_target-Kept P A D k c id srv _ _ p (k.rest srv _ refl refl refl refl p) (λ n t a.
        decide P (ltb t.cl.rank c.cl.rank && ltb rank c.cl.rank) _ _
          (λ good. k.rest _ _ refl refl refl refl (
            did_player_kept t.ws t.si _ _ srv
              (promoted t.cl rank c.w.paintrate a
                (k.lower _ _ (below (and_right _ _ good)) (k.rank_of c.cl v.client)))
              p))
          (λ bad.
            either P (leb c.cl.rank t.cl.rank) _ _ (k.rest srv _ refl refl refl refl p)
              (k.rest srv _ refl refl refl refl p))))
  setrank-Kept args srv p = k.rest srv _ refl refl refl refl p

  pub setpbucket-Kept :
      (args : List Bytes) (srv : Server F) → P srv → P (Rights.setpbucket c args srv)
  unfolding Rights.setpbucket set_target_bucket set_pbucket
  setpbucket-Kept (cmd ∷ id ∷ r ∷ q ∷ []) srv p = maybe P (read_u32 r) _ _ p (λ rate e.
      maybe P (read_u32 q) _ _ p (λ per e'.
        with_target-Kept P A D k c id srv _ _ p (k.rest srv _ refl refl refl refl p) (λ n t a.
          k.rest _ _ refl refl refl refl
            (did_player_kept t.ws t.si _ _ srv (k.same_client t.cl _ refl refl a) p))))
  setpbucket-Kept args srv p = k.rest srv _ refl refl refl refl p
