-- ===== src/Server/Files.antt =====
-- The files with the banned, whitelisted and blacklisted addresses, one to a line, in server.cpp.
pub mod Kept
use owop_server_for_heroku_g.Base.{ℕ, Bool, true, false, List, [], ◌∷◌, ◌++◌, ◌==◌}
use owop_server_for_heroku_g.Base.Words.{Bytes, codes}
use owop_server_for_heroku_g.Base.Eq.{bytes_eq}
use owop_server_for_heroku_g.Base.Assoc.{insert, emplace}
use owop_server_for_heroku_g.Database.Storage.{Disk, read_file}
use owop_server_for_heroku_g.Database.Handles.{Os}
use owop_server_for_heroku_g.World.{World}
use owop_server_for_heroku_g.World.Edit.{save}
use owop_server_for_heroku_g.Server.{Server, admintell}

abbrev pub newline : ℕ
newline = 10

unfoldable pub print_ips : List Bytes → Bytes
print_ips [] = []
print_ips (ip ∷ ips) = ip ++ (newline ∷ print_ips ips)

-- `if (ip.size() > 0) ipban.emplace(ip)`
unfoldable pub keep_ip : Bytes → List Bytes → List Bytes
keep_ip [] ips = ips
keep_ip (c ∷ ip) ips = emplace (c ∷ ip) ips

-- std::getline until the end of the file; what has been read of the line comes second.
unfoldable pub read_ips : Bytes → Bytes → List Bytes → List Bytes
read_ips [] line ips = keep_ip line ips
read_ips (c ∷ s) line ips = elim (c == newline) [
  | true ↦ read_ips s [] (keep_ip line ips)
  | false ↦ read_ips s (line ++ c ∷ []) ips
]

-- A file in the directory that the server runs in.
unfoldable pub write_ips : Bytes → List Bytes → Disk → Disk
write_ips name ips disk = record disk { files = insert name (print_ips ips) disk.files }

-- `world.second->save()` for every world.
unfoldable pub save_worlds : Os → Bytes → List (Bytes × World) → Disk → List (Bytes × World) × Disk
save_worlds os junk [] disk = ([], disk)
save_worlds os junk ((name, w) ∷ m) disk =
    let (w', disk') = save os junk w disk in
    let (m', disk'') = save_worlds os junk m disk' in ((name, w') ∷ m', disk'')

module _ {F : Type 0} where
  unfoldable pub writefiles : Server F → Server F
  writefiles srv = record srv {
    disk = write_ips (codes "blacklist.txt") srv.ipblacklist (
        write_ips (codes "whitelist.txt") srv.ipwhitelist
          (write_ips (codes "bans.txt") srv.ipban srv.disk));
  }

  unfoldable pub readfiles : Server F → Server F
  readfiles srv = record srv {
    ipban = read_ips (read_file (codes "bans.txt") srv.disk) [] srv.ipban;
    ipwhitelist = read_ips (read_file (codes "whitelist.txt") srv.disk) [] srv.ipwhitelist;
    ipblacklist = read_ips (read_file (codes "blacklist.txt") srv.disk) [] srv.ipblacklist;
  }

  unfoldable pub save_now : Os → Bytes → Server F → Server F
  save_now os junk srv =
      let (m, disk) = save_worlds os junk srv.worlds srv.disk in
      admintell (codes "DEVWorlds saved.") (writefiles (record srv { worlds = m; disk = disk }))
