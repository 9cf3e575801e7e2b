-- ===== src/Server/Bans.antt =====
-- What kicking and banning an address come to.
use owop_server_for_heroku_g.Base.{
  ℕ, ◌≡◌, refl, sym, ap, ◌∙◌, Bool, true, false, Option, none, some, List, [], ◌∷◌, ◌==◌,
  if◌then◌else◌, either, maybe, decide, examine, Bool-cases, inl, inr, ==_iff,
}
use owop_server_for_heroku_g.Base.Words.{Bytes}
use owop_server_for_heroku_g.Base.Eq.{nat_eq, bytes_eq, eq_bytes, eq_bytes_iff}
use owop_server_for_heroku_g.Base.Assoc.{
  lookup, contains, lookup-erase, lookup-erase_ne, contains-emplace,
}
use owop_server_for_heroku_g.Limiter.{Float}
use owop_server_for_heroku_g.Server.{Server, SocketInfo, admintell}
use owop_server_for_heroku_g.Server.Apart.{close-Apart}
use owop_server_for_heroku_g.Server.Close.{close}
use owop_server_for_heroku_g.Server.Connect.{ban, plain_ip, on_connection}
use owop_server_for_heroku_g.Server.Gates.{on_connection-refused}
use owop_server_for_heroku_g.Server.Gone.{socks-close}
use owop_server_for_heroku_g.Server.Kick.{each, close_of, is_used, kickip, banip}

module _ {F : Type 0} where
  -- The socket of the server has not the address.
  abbrev Elsewhere : Bytes → SocketInfo F → Type 0
  Elsewhere ip si = eq_bytes si.ip ip ≡ false

  -- What is left after the sockets of the address among `m` are closed.
  record Left (ip : Bytes) (m : List (ℕ × SocketInfo F)) (k : ℕ) (si : SocketInfo F)
      (srv : Server F) : Type 0 where
    before : lookup k srv.socks ≡ some si
    elsewhere : (seen : SocketInfo F) → lookup k m ≡ some seen → Elsewhere ip si

  close_of-lookup :
      (ip : Bytes) (ws k : ℕ) (s : Server F) (found si : SocketInfo F)
      → lookup ws s.socks ≡ some found
      → lookup k (close_of ip ws found s).socks ≡ some si
      → (lookup k s.socks ≡ some si) × ((ws == k) ≡ true → Elsewhere ip si)
  unfolding close_of
  close_of-lookup ip ws k s found si there =
      let Kept : Server F → Type 0 = λ s'.
        lookup k s'.socks ≡ some si
        → (lookup k s.socks ≡ some si) × ((ws == k) ≡ true → Elsewhere ip si) in
      decide Kept (eq_bytes found.ip ip) (close ws s) s
        (λ same_ip. λ h.
          let erased = sym (ap (lookup k) (socks-close ws s)) ∙ h in
          elim (Bool-cases (ws == k)) [
            | inl same ↦
                let none_left : none ≡ some si =
                  sym (lookup-erase ws k s.socks ∙ rw same refl) ∙ erased in
                absurd (cc)
            | inr other ↦ (
              sym (lookup-erase_ne ws k s.socks other) ∙ erased,
              λ same. let clash = sym same ∙ other in absurd (cc),
            )
          ])
        (λ other_ip. λ h. (
          h,
          λ same.
              let one : some found ≡ some si =
                sym there ∙ ap (λ w. lookup w s.socks) ((==_iff ws k).0 same) ∙ h in
              ap
                (λ (o : Option (SocketInfo F)). elim o as (λ x. Bool) [
                  | none ↦ false
                  | some i ↦ eq_bytes i.ip ip
                ])
                (sym one)
              ∙ other_ip,
        ))

  pick :
      (ip : Bytes) (ws k : ℕ) (si seen : SocketInfo F) (m : List (ℕ × SocketInfo F))
      → ((ws == k) ≡ true → Elsewhere ip si)
      → ((found : SocketInfo F) → lookup k m ≡ some found → Elsewhere ip si)
      → (found : SocketInfo F) → lookup k ((ws, seen) ∷ m) ≡ some found
      → Elsewhere ip si
  unfolding lookup
  pick ip ws k si seen m here there found e = elim (Bool-cases (ws == k)) [
    | inl same ↦ here same
    | inr other ↦ there found (ap (λ b. if b then some seen else lookup k m) (sym other) ∙ e)
  ]

  each-Left :
      (ip : Bytes) (m : List (ℕ × SocketInfo F)) (k : ℕ) (si : SocketInfo F) (s : Server F)
      → lookup k (each (close_of ip) m s).socks ≡ some si
      → Left ip m k si s
  unfolding each lookup
  each-Left ip [] k si s h = record { before = h; elsewhere = λ seen e. absurd (cc) }
  each-Left ip ((ws, seen) ∷ m) k si s h =
      let Kept : Server F → Type 0 = λ s'.
        lookup k (each (close_of ip) m s').socks ≡ some si → Left ip ((ws, seen) ∷ m) k si s in
      examine Kept (lookup ws s.socks) s (λ found. close_of ip ws found s)
        (λ missing. λ h.
          let v = each-Left ip m k si s h in
          let here : (ws == k) ≡ true → Elsewhere ip si = λ same.
            let clash : none ≡ some si =
              sym missing ∙ ap (λ w. lookup w s.socks) ((==_iff ws k).0 same) ∙ v.before in
            absurd (cc) in
          record { before = v.before; elsewhere = pick ip ws k si seen m here v.elsewhere })
        (λ found there. λ h.
          let v = each-Left ip m k si (close_of ip ws found s) h in
          let (before, clear) = close_of-lookup ip ws k s found si there v.before in
          record { before = before; elsewhere = pick ip ws k si seen m clear v.elsewhere })
        h

  -- After an address is kicked, no socket of the server has it, however many there were.
  pub kickip-Elsewhere :
      (ip : Bytes) (srv : Server F) (k : ℕ) (si : SocketInfo F)
      → lookup k (kickip ip srv).socks ≡ some si
      → eq_bytes si.ip ip ≡ false
  unfolding kickip admintell
  kickip-Elsewhere ip srv k si =
      let closed = each (close_of ip) srv.socks srv in
      let Kept : Server F → Type 0 = λ s'. lookup k s'.socks ≡ some si → Elsewhere ip si in
      let done : Kept closed =
        λ h. let v = each-Left ip srv.socks k si srv h in v.elsewhere si v.before in
      either Kept (is_used ip srv.socks) _ closed done done

  ipban-each :
      (ip : Bytes) (m : List (ℕ × SocketInfo F)) (s : Server F)
      → (each (close_of ip) m s).ipban ≡ s.ipban
  unfolding each close_of
  ipban-each ip [] s = refl
  ipban-each ip ((ws, seen) ∷ m) s =
      let Same : Server F → Type 0 = λ s'. s'.ipban ≡ s.ipban in
      ipban-each ip m _
      ∙ maybe Same (lookup ws s.socks) _ _ refl (λ si there.
        either Same (eq_bytes si.ip ip) _ _
          (close-Apart Same (λ srv worlds socks conns closing lockdown sent v. v) ws s refl) refl)

  ipban-kickip : (ip : Bytes) (srv : Server F) → (kickip ip srv).ipban ≡ srv.ipban
  unfolding kickip admintell
  ipban-kickip ip srv =
      let Same : Server F → Type 0 = λ s. s.ipban ≡ srv.ipban in
      let closed = each (close_of ip) srv.socks srv in
      let same : Same closed = ipban-each ip srv.socks srv in
      either Same (is_used ip srv.socks) _ closed same same

  contains-banip : (ip : Bytes) (srv : Server F) → contains ip (banip ip srv).ipban ≡ true
  unfolding banip ban admintell
  contains-banip ip srv =
      let Has : Server F → Type 0 = λ s. contains ip s.ipban ≡ true in
      let put : Has (ban ip srv) =
        contains-emplace ip ip srv.ipban ∙ rw ((eq_bytes_iff ip ip).1 refl) refl in
      decide Has (contains ip srv.ipban) srv _ (λ old. old)
        (λ new.
          maybe Has (lookup ip (ban ip srv).conns) (ban ip srv) (λ n. kickip ip (ban ip srv)) put
            (λ n e. ap (contains ip) (ipban-kickip ip (ban ip srv)) ∙ put))

module _ {F : Type 0} ⦃fl : Float F⦄ where
  -- After an address is banned, whoever connects from it is refused, whatever the server was before
  -- and whenever that is.
  pub on_connection-banip :
      (ip address : Bytes) (ws now : ℕ) (srv : Server F)
      → plain_ip address ≡ ip
      → lookup ws (on_connection ws address now (banip ip srv)).socks ≡ none
  on_connection-banip ip address ws now srv same =
      on_connection-refused ws address now (banip ip srv)
        (inl (ap (λ i. contains i (banip ip srv).ipban) same ∙ contains-banip ip srv))
