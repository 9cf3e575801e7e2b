-- ===== src/Server/Gates.antt =====
-- Who is let in, and what is kept from those without rights.
use owop_server_for_heroku_g.Base.{
  ℕ, ◌≡◌, refl, ap, ◌∙◌, true, false, not, ◌&&◌, ◌||◌, none, some, ◌++◌, arith, inl, inr, length,
  ◌⊎◌,
}
use owop_server_for_heroku_g.Base.Words.{Bytes, codes}
use owop_server_for_heroku_g.Base.Eq.{nat_eq, bytes_eq}
use owop_server_for_heroku_g.Base.Assoc.{lookup, contains}
use owop_server_for_heroku_g.Limiter.{Float}
use owop_server_for_heroku_g.Database.Handles.{Os}
use owop_server_for_heroku_g.Client.{Client, is_admin, is_mod, tell}
use owop_server_for_heroku_g.Server.{Server, SocketInfo, send, admintell}
use owop_server_for_heroku_g.Server.Close.{close}
use owop_server_for_heroku_g.Server.Connect.{plain_ip, refuse, on_connection}
use owop_server_for_heroku_g.Server.Message.{
  OpCode, binary_code, on_message, on_stranger, on_client, on_binary, on_paste, is_staff,
}
use owop_server_for_heroku_g.Server.Gone.{lookup-close}

module _ {F : Type 0} ⦃fl : Float F⦄ where
  -- Whoever connects from a banned address, or during a lockdown from one that is not on the whitelist,
  -- is no longer connected when the handler is done, whatever the other settings of the server.
  pub on_connection-refused :
      (ws : ℕ) (address : Bytes) (now : ℕ) (srv : Server F)
      → (contains (plain_ip address) srv.ipban ≡ true)
        ⊎ ((srv.lockdown ≡ true) × (contains (plain_ip address) srv.ipwhitelist ≡ false))
      → lookup ws (on_connection ws address now srv).socks ≡ none
  unfolding on_connection refuse
  on_connection-refused ws address now srv h =
      let refused : ((srv.lockdown && not (contains (plain_ip address) srv.ipwhitelist))
            || contains (plain_ip address) srv.ipban)
          ≡ true =
        elim h [ inl banned ↦ ground arith | inr locked ↦ ground arith ] in
      rw (refused, on_connection, refuse) (lookup-close ws _)

  module _ (os : Os) (junk : Bytes) where
    on_message-player :
        (ws : ℕ) (oc : OpCode) (msg : Bytes) (now : ℕ) (srv : Server F) (si : SocketInfo F)
        (cl : Client F)
        → lookup ws srv.socks ≡ some si
        → si.player ≡ some cl
        → on_message os junk ws oc msg now srv ≡ on_client os junk ws si cl oc msg now srv
    unfolding on_message
    on_message-player ws oc msg now srv si cl there plays =
        rw (there, on_message)
          (ap
            (λ o. elim o as (λ x. Server F) [
              | none ↦ on_stranger ws si oc msg srv
              | some c ↦ on_client os junk ws si c oc msg now srv
            ])
            plays)

    -- A client that is neither moderator nor administrator and sends the message for pasting a chunk,
    -- of 776 bytes, loses its connection.
    pub on_message-paste :
        (ws : ℕ) (msg : Bytes) (now : ℕ) (srv : Server F) (si : SocketInfo F) (cl : Client F)
        → lookup ws srv.socks ≡ some si
        → si.player ≡ some cl
        → length msg ≡ 776
        → is_admin cl ≡ false
        → is_mod cl ≡ false
        → lookup ws (on_message os junk ws binary_code msg now srv).socks ≡ none
    unfolding on_client on_binary on_paste is_staff
    on_message-paste ws msg now srv si cl there plays size admin mod_ =
        let told = send (tell cl (codes "You cheating? I don't like hackers!!!")) srv in
        let e : on_message os junk ws binary_code msg now srv
            ≡ close ws (admintell (codes "Cheating admin/mod tools IP: " ++ si.ip) told) =
          on_message-player ws binary_code msg now srv si cl there plays
          ∙ rw (size, admin, mod_, on_client, on_binary, on_paste, is_staff) refl in
        ap (λ s. lookup ws s.socks) e
        ∙ lookup-close ws (admintell (codes "Cheating admin/mod tools IP: " ++ si.ip) told)
