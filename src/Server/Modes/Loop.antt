-- ===== src/Server/Modes/Loop.antt =====
-- The loop that enforces the limit of connections per address.
use owop_server_for_heroku_g.Base.{
  refl, ℕ, zero, suc, ◌≡◌, sym, ap, subst, ◌≤◌, ◌<◌, Bool, true, false, if◌then◌else◌, length,
  arith, inl, inr,
}
use owop_server_for_heroku_g.Base.Eq.{nat_eq, bytes_eq}
use owop_server_for_heroku_g.Base.Assoc.{
  AllValues, erase-AllValues, length-erase_lt, ListedIn, erase-ListedIn,
}
use owop_server_for_heroku_g.Server.{Server}
use owop_server_for_heroku_g.Server.Modes.{limit_pass, limit_loop, set_max_ip_conns}
use owop_server_for_heroku_g.Server.Modes.Limit.{IsStaying, IsWithin, Cut, Pass, limit_pass-cases}

module _ {F : Type 0} where
  -- The `while` loop of the code, which has no bound: it goes through so many passes from one server to
  -- another. The last of them finds no connection to end
  -- and changes nothing; each of the others ends one, of an address above
  -- the limit and not an administrator's, and no other.
  pub data Passes (max : ℕ) : ℕ → Server F → Server F → Type 0 where
    last :
        (srv : Server F) → limit_pass max srv.socks false srv ≡ (srv, false) → Passes max 1 srv srv
    again :
        (n : ℕ) (srv mid srv' : Server F)
        → limit_pass max srv.socks false srv ≡ (mid, true)
        → Cut max srv (mid, true)
        → Passes max n mid srv'
        → Passes max (suc n) srv srv'

  -- The loop ends within a number of passes, in a server that is within the limit.
  pub record Ends (max bound : ℕ) (srv srv' : Server F) : Type 0 where
    pub count : ℕ
    pub few : count ≤ bound
    pub passes : Passes max count srv srv'
    pub within : AllValues (IsWithin max srv') srv'.socks

  -- One round of the loop, by what its pass did.
  limit_loop-last :
      (fuel max : ℕ) (srv : Server F)
      → limit_pass max srv.socks false srv ≡ (srv, false)
      → limit_loop (suc fuel) max srv ≡ srv
  unfolding limit_loop
  limit_loop-last fuel max srv e =
      ap (λ (d : Server F × Bool). if d.1 then limit_loop fuel max d.0 else d.0) e

  limit_loop-again :
      (fuel max : ℕ) (srv : Server F)
      → (limit_pass max srv.socks false srv).1 ≡ true
      → limit_loop (suc fuel) max srv ≡ limit_loop fuel max (limit_pass max srv.socks false srv).0
  unfolding limit_loop
  limit_loop-again fuel max srv more =
      let did = limit_pass max srv.socks false srv in
      ap (λ b. if b then limit_loop fuel max did.0 else did.0) more

  -- A pass that asks for another one leaves a server with one socket less.
  record Shorter (srv mid : Server F) : Type 0 where
    fewer : length mid.socks < length srv.socks
    once : ListedIn mid.socks mid.socks
    stay : AllValues IsStaying mid.socks

  Cut-Shorter :
      (max : ℕ) (srv : Server F) (did : Server F × Bool)
      → Cut max srv did
      → ListedIn srv.socks srv.socks
      → AllValues IsStaying srv.socks
      → Shorter srv did.0
  Cut-Shorter max srv did c l v = record {
    fewer = omega (arith, ap length c.cut, length-erase_lt c.ws c.si srv.socks c.there);
    once = subst (λ m. ListedIn m m) (sym c.cut) (erase-ListedIn c.ws srv.socks srv.socks l);
    stay = subst (AllValues IsStaying) (sym c.cut) (erase-AllValues IsStaying c.ws srv.socks v);
  }

  -- The fuel is enough for the loop to end as it does in the code.
  limit_loop-Ends :
      (fuel max : ℕ) (srv : Server F)
      → length srv.socks < fuel
      → ListedIn srv.socks srv.socks
      → AllValues IsStaying srv.socks
      → Ends max fuel srv (limit_loop fuel max srv)
  unfolding Pass
  limit_loop-Ends zero max srv h l v = absurd (omega arith)
  limit_loop-Ends (suc fuel) max srv h l v =
      let did = limit_pass max srv.socks false srv in
      elim (limit_pass-cases max srv.socks srv l v) [
        | inl (e, within) ↦
            subst (Ends max (suc fuel) srv) (sym (limit_loop-last fuel max srv e))
              (record { count = 1; few = omega arith; passes = Passes.last srv e; within = within })
        | inr c ↦
            let s = Cut-Shorter max srv did c l v in
            let rest = limit_loop-Ends fuel max did.0 (omega (arith, s.fewer, h)) s.once s.stay in
            subst (Ends max (suc fuel) srv) (sym (limit_loop-again fuel max srv c.more)) (record {
              count = suc rest.count;
              few = omega (arith, rest.few);
              passes =
                  Passes.again rest.count srv did.0 (limit_loop fuel max did.0)
                    (ap (λ b. (did.0, b)) c.more)
                    (record {
                      more = refl;
                      ws = c.ws;
                      si = c.si;
                      there = c.there;
                      over = c.over;
                      common = c.common;
                      cut = c.cut;
                    })
                    rest.passes;
              within = rest.within;
            })
      ]

  -- When the limit of connections per address is set, the `while` loop, which has no bound in the code,
  -- ends after at most one pass more than there are sockets, in the server that is given here. Each pass
  -- but the last ends one connection and no other, whose address is above the limit then and whose client,
  -- if it has one, is no administrator. At last the address of every socket is within the limit, whether or
  -- not the socket has a client, unless its client is an administrator. Each socket is listed once and no
  -- client has left before.
  pub set_max_ip_conns-Ends :
      (max : ℕ) (srv : Server F)
      → ListedIn srv.socks srv.socks
      → AllValues IsStaying srv.socks
      → Ends max (suc (length srv.socks)) (record srv { maxconns = max }) (set_max_ip_conns max srv)
  unfolding set_max_ip_conns
  set_max_ip_conns-Ends max srv l v =
      limit_loop-Ends (suc (length srv.socks)) max (record srv { maxconns = max }) (omega arith) l v
