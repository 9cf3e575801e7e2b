-- ===== src/Server/Files/Kept.antt =====
-- The lists of addresses outlive the server.
use owop_server_for_heroku_g.Base.{
  or_swap, or_none, ◌≡◌, ◌≢◌, refl, ap, sym, ◌∙◌, Bool, true, false, ◌||◌, List, [], ◌∷◌, ◌++◌,
  ◌==◌, if◌then◌else◌, All, append_assoc, append-nil, Option, none, some,
}
use owop_server_for_heroku_g.Base.Words.{Bytes, codes}
use owop_server_for_heroku_g.Base.Eq.{bytes_eq, eq_bytes}
use owop_server_for_heroku_g.Base.Assoc.{contains, lookup, contains-emplace, lookup-insert}
use owop_server_for_heroku_g.Database.Storage.{Disk, read_file}
use owop_server_for_heroku_g.Server.{Server}
use owop_server_for_heroku_g.Server.Files.{
  newline, print_ips, keep_ip, read_ips, write_ips, writefiles, readfiles,
}

-- A line of its own: not empty, and without an end of line in it.
pub record IsLine (ip : Bytes) : Type 0 where
  pub filled : ip ≢ []
  pub unbroken : All (λ c. (c == newline) ≡ false) ip

read_ips-line :
    (w s line : Bytes) (ips : List Bytes)
    → All (λ c. (c == newline) ≡ false) w
    → read_ips (w ++ (newline ∷ s)) line ips ≡ read_ips s [] (keep_ip (line ++ w) ips)
unfolding read_ips
read_ips-line [] s line ips h = ap (λ l. read_ips s [] (keep_ip l ips)) (sym (append-nil line))
read_ips-line (c ∷ w) s line ips (hc, h) =
    rw (hc, read_ips)
      (read_ips-line w s (line ++ c ∷ []) ips h
        ∙ ap (λ l. read_ips s [] (keep_ip l ips)) (append_assoc line (c ∷ []) w))

contains-keep_ip :
    (ip j : Bytes) (ips : List Bytes)
    → ip ≢ []
    → contains j (keep_ip ip ips) ≡ (eq_bytes ip j || contains j ips)
unfolding keep_ip
contains-keep_ip [] j ips h = absurd (h refl)
contains-keep_ip (c ∷ ip) j ips h = contains-emplace (c ∷ ip) j ips

contains-read_ips :
    (l : List Bytes) (j : Bytes) (ips : List Bytes)
    → All IsLine l
    → contains j (read_ips (print_ips l) [] ips) ≡ (contains j l || contains j ips)
unfolding print_ips contains read_ips keep_ip
contains-read_ips [] j ips h = refl
contains-read_ips (ip ∷ l) j ips (line, h) =
    ap (contains j) (read_ips-line ip (print_ips l) [] ips line.unbroken)
    ∙ contains-read_ips l j (keep_ip ip ips) h
    ∙ ap (λ b. contains j l || b) (contains-keep_ip ip j ips line.filled)
    ∙ or_swap (contains j l) (eq_bytes ip j) (contains j ips)

kept_or_old :
    (b : Bool) (s : Bytes) (o : Option Bytes)
    → (elim (if b then some s else o) as (λ x. Bytes) [ none ↦ [] | some t ↦ t ])
      ≡ (if b then s else (elim o as (λ x. Bytes) [ none ↦ [] | some t ↦ t ]))
kept_or_old true s o = refl
kept_or_old false s o = refl

read_file-write_ips :
    (name other : Bytes) (ips : List Bytes) (disk : Disk)
    → read_file other (write_ips name ips disk)
      ≡ (if eq_bytes name other then print_ips ips else read_file other disk)
unfolding read_file write_ips
read_file-write_ips name other ips disk =
    rw (lookup-insert name other (print_ips ips) disk.files, read_file)
      (kept_or_old (eq_bytes name other) (print_ips ips) (lookup other disk.files))

-- A file that others are written after.
contains-read_file :
    (l : List Bytes) (j s : Bytes)
    → All IsLine l
    → s ≡ print_ips l
    → contains j (read_ips s [] []) ≡ contains j l
unfolding contains
contains-read_file l j s h e =
    ap (λ t. contains j (read_ips t [] [])) e ∙ contains-read_ips l j [] h ∙ or_none (contains j l)

module _ {F : Type 0} (srv : Server F) where
  abbrev disk1 : Disk
  disk1 = write_ips (codes "bans.txt") srv.ipban srv.disk

  abbrev disk2 : Disk
  disk2 = write_ips (codes "whitelist.txt") srv.ipwhitelist disk1

  bans : read_file (codes "bans.txt") (writefiles srv).disk ≡ print_ips srv.ipban
  unfolding writefiles codes eq_bytes
  bans =
      read_file-write_ips (codes "blacklist.txt") (codes "bans.txt") srv.ipblacklist disk2
      ∙ read_file-write_ips (codes "whitelist.txt") (codes "bans.txt") srv.ipwhitelist disk1
      ∙ read_file-write_ips (codes "bans.txt") (codes "bans.txt") srv.ipban srv.disk

  whitelist : read_file (codes "whitelist.txt") (writefiles srv).disk ≡ print_ips srv.ipwhitelist
  unfolding writefiles codes eq_bytes
  whitelist =
      read_file-write_ips (codes "blacklist.txt") (codes "whitelist.txt") srv.ipblacklist disk2
      ∙ read_file-write_ips (codes "whitelist.txt") (codes "whitelist.txt") srv.ipwhitelist disk1

  blacklist : read_file (codes "blacklist.txt") (writefiles srv).disk ≡ print_ips srv.ipblacklist
  unfolding writefiles codes eq_bytes
  blacklist =
      read_file-write_ips (codes "blacklist.txt") (codes "blacklist.txt") srv.ipblacklist disk2

-- A server that starts with empty lists on the disk that another one wrote its lists to bans, whitelists
-- and blacklists the same addresses, if none of these is empty or has an end of line in it.
pub contains-readfiles :
    {F : Type 0} (srv next : Server F) (ip : Bytes)
    → All IsLine srv.ipban
    → All IsLine srv.ipwhitelist
    → All IsLine srv.ipblacklist
    → next.disk ≡ (writefiles srv).disk
    → next.ipban ≡ []
    → next.ipwhitelist ≡ []
    → next.ipblacklist ≡ []
    → (contains ip (readfiles next).ipban ≡ contains ip srv.ipban)
      × (contains ip (readfiles next).ipwhitelist ≡ contains ip srv.ipwhitelist)
      × (contains ip (readfiles next).ipblacklist ≡ contains ip srv.ipblacklist)
unfolding readfiles
contains-readfiles srv next ip hb hw hl same nb nw nl = (
  ap (λ l. contains ip (read_ips (read_file (codes "bans.txt") next.disk) [] l)) nb
      ∙ contains-read_file srv.ipban ip _ hb (ap (read_file (codes "bans.txt")) same ∙ bans srv),
  ap (λ l. contains ip (read_ips (read_file (codes "whitelist.txt") next.disk) [] l)) nw
      ∙ contains-read_file srv.ipwhitelist ip _ hw
          (ap (read_file (codes "whitelist.txt")) same ∙ whitelist srv),
  ap (λ l. contains ip (read_ips (read_file (codes "blacklist.txt") next.disk) [] l)) nl
      ∙ contains-read_file srv.ipblacklist ip _ hl
          (ap (read_file (codes "blacklist.txt")) same ∙ blacklist srv),
)
