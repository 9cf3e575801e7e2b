-- ===== src/Commands/Reach/Ranked.antt =====
-- The commands against single clients stop at those of the caller's rank.
use owop_server_for_heroku_g.Base.{
  ℕ, ◌≡◌, refl, sym, ap, subst, ◌∙◌, ◌≤◌, Bool, true, false, ◌&&◌, Option, none, some, List, [],
  ◌∷◌, ◌==◌, ltb, leb, either, maybe, decide, arith, Bool-cases, inl, inr, ==_iff,
}
use owop_server_for_heroku_g.Base.Words.{Bytes}
use owop_server_for_heroku_g.Base.Eq.{nat_eq}
use owop_server_for_heroku_g.Base.Assoc.{lookup}
use owop_server_for_heroku_g.Limiter.{Float}
use owop_server_for_heroku_g.Args.Numbers.{read_u32}
use owop_server_for_heroku_g.Client.{Client}
use owop_server_for_heroku_g.Server.{Server, SocketInfo}
use owop_server_for_heroku_g.Server.Find.{Found, client_at, first_client, get_cli}
use owop_server_for_heroku_g.Commands.Caller.{Caller, with_target}
use owop_server_for_heroku_g.Commands.Rights
use owop_server_for_heroku_g.Commands.Rights.{did_player, mute_target, set_target_rank}
use owop_server_for_heroku_g.Commands.Moves
use owop_server_for_heroku_g.Commands.Moves.{kick_target, send_to}
use owop_server_for_heroku_g.Commands.Reach.{
  Untouched, put_player-Untouched, kick-Untouched, send_to-Untouched,
}

module _ {F : Type 0} (srv : Server F) where
  -- A pointer to a client that is there.
  record IsAt (t : Found F) : Type 0 where
    there : lookup t.ws srv.socks ≡ some t.si
    plays : t.si.player ≡ some t.cl

  abbrev WellFound : Option (Found F) → Type 0
  WellFound none = Unit
  WellFound (some t) = IsAt t

  client_at-WellFound : (ws : ℕ) → WellFound (client_at ws srv.socks)
  unfolding client_at
  client_at-WellFound ws = maybe WellFound (lookup ws srv.socks) _ _ tt (λ si there.
      maybe WellFound si.player _ _ tt (λ cl plays. record { there = there; plays = plays }))

  first_client-WellFound :
      (test : Client F → Bool) (clients : List ℕ) → WellFound (first_client test clients srv.socks)
  unfolding first_client
  first_client-WellFound test [] = tt
  first_client-WellFound test (ws ∷ clients) =
      let rest = first_client-WellFound test clients in
      maybe WellFound (client_at ws srv.socks) _ _ rest (λ t e.
        either WellFound (test t.cl) (some t) _ (subst WellFound e (client_at-WellFound ws)) rest)

  module _ (c : Caller F) (other : ℕ) (si : SocketInfo F) (cl : Client F)
      (there : lookup other srv.socks ≡ some si) (plays : si.player ≡ some cl)
      (higher : c.cl.rank ≤ cl.rank) where
    abbrev Same : Server F → Type 0
    Same = Untouched other srv

    -- A target that is lower than the caller is another one.
    apart : (t : Found F) → IsAt t → ltb t.cl.rank c.cl.rank ≡ true → (t.ws == other) ≡ false
    apart t v low = elim (Bool-cases (t.ws == other)) [
      | inl same ↦
          let here = (==_iff t.ws other).0 same in
          let same_si : some t.si ≡ some si =
            sym v.there ∙ ap (λ w. lookup w srv.socks) here ∙ there in
          let same_player : some t.cl ≡ some cl =
            sym v.plays
            ∙ ap
                (λ (o : Option (SocketInfo F)). elim o as (λ x. Option (Client F)) [
                  | none ↦ none
                  | some s ↦ s.player
                ])
                same_si
            ∙ plays in
          let same_rank : t.cl.rank ≡ cl.rank =
            ap (λ (o : Option (Client F)). elim o as (λ x. ℕ) [ none ↦ 0 | some x ↦ x.rank ])
              same_player in
          absurd (ground (arith, same_rank, higher, low))
      | inr ne ↦ ne
    ]

    with_target-Same :
        (arg : Bytes) (missing : Server F) (act : ℕ → Found F → Server F)
        → Same missing
        → ((n : ℕ) (t : Found F) → IsAt t → Same (act n t))
        → Same (with_target c arg srv missing act)
    unfolding with_target get_cli
    with_target-Same arg missing act m h = maybe Same (read_u32 arg) _ _ refl (λ n e.
        maybe Same (get_cli n c.w srv) _ _ m (λ t found.
          h n t (subst WellFound found (first_client-WellFound (λ cl. n == cl.id) c.w.clients))))

    kick-Same : (args : List Bytes) → Same (Moves.kick c args srv)
    unfolding Moves.kick kick_target
    kick-Same (cmd ∷ id ∷ []) = with_target-Same id _ _ refl (λ n t v.
        decide Same (ltb t.cl.rank c.cl.rank) _ _
          (λ low.
            let ne = apart t v low in
            kick-Untouched other srv t.ws (send_to t.ws t.si t.cl 0 0 srv) ne
              (send_to-Untouched other srv t.ws t.si t.cl 0 0 srv ne refl))
          (λ high. refl))
    kick-Same args = refl

    mute-Same : (args : List Bytes) → Same (Rights.mute c args srv)
    unfolding Rights.mute mute_target
    mute-Same (cmd ∷ id ∷ arg ∷ []) = with_target-Same id _ _ refl (λ n t v.
        decide Same (leb c.cl.rank t.cl.rank) _ _ (λ high. refl)
          (λ low. put_player-Untouched other srv t.ws t.si _ srv (apart t v (ground arith)) refl))
    mute-Same args = refl

module _ {F : Type 0} ⦃fl : Float F⦄ where
  setrank-Same :
      (srv : Server F) (c : Caller F) (other : ℕ) (si : SocketInfo F) (cl : Client F)
      → lookup other srv.socks ≡ some si
      → si.player ≡ some cl
      → c.cl.rank ≤ cl.rank
      → (args : List Bytes) → Untouched other srv (Rights.setrank c args srv)
  unfolding Rights.setrank set_target_rank did_player
  setrank-Same srv c other si cl there plays higher (cmd ∷ id ∷ arg ∷ []) =
      maybe (Untouched other srv) (read_u32 arg) _ _ refl (λ rank e.
        with_target-Same srv c other si cl there plays higher id _ _ refl (λ n t v.
          decide (Untouched other srv) (ltb t.cl.rank c.cl.rank && ltb rank c.cl.rank) _ _
            (λ low.
              put_player-Untouched other srv t.ws t.si _ srv
                (apart srv c other si cl there plays higher t v (ground arith)) refl)
            (λ high. either (Untouched other srv) (leb c.cl.rank t.cl.rank) _ _ refl refl)))
  setrank-Same srv c other si cl there plays higher args = refl

  -- Kicking, muting and setting ranks, whatever the arguments, leave a client whose rank is the
  -- caller's or above connected and as it was, the caller's own included.
  pub higher-Untouched :
      (srv : Server F) (c : Caller F) (args : List Bytes) (other : ℕ) (si : SocketInfo F)
      (cl : Client F)
      → lookup other srv.socks ≡ some si
      → si.player ≡ some cl
      → c.cl.rank ≤ cl.rank
      → (lookup other (Moves.kick c args srv).socks ≡ lookup other srv.socks)
        × (lookup other (Rights.mute c args srv).socks ≡ lookup other srv.socks)
        × (lookup other (Rights.setrank c args srv).socks ≡ lookup other srv.socks)
  higher-Untouched srv c args other si cl there plays higher = (
    kick-Same srv c other si cl there plays higher args,
    mute-Same srv c other si cl there plays higher args,
    setrank-Same srv c other si cl there plays higher args,
  )
