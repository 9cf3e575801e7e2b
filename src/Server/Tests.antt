-- ===== src/Server/Tests.antt =====
-- Runs of a server with two clients in one world.
mod Typed
mod Runs
mod Stops
use owop_server_for_heroku_g.Base.{
  ℕ, ◌≡◌, refl, arith, true, false, none, some, [], ◌∷◌, inl, replicate, if◌then◌else◌,
}
use owop_server_for_heroku_g.Base.Words.{codes}
use owop_server_for_heroku_g.Base.Eq.{nat_eq, bytes_eq, eq_bytes}
use owop_server_for_heroku_g.Base.Assoc.{lookup, contains}
use owop_server_for_heroku_g.Limiter.{bucket}
use owop_server_for_heroku_g.Limiter.Whole.{whole}
use owop_server_for_heroku_g.Database.Handles.{Os}
use owop_server_for_heroku_g.World.{World}
use owop_server_for_heroku_g.World.Clients.{rm_cli}
use owop_server_for_heroku_g.World.Updates.{is_empty}
use owop_server_for_heroku_g.Client.{Client, client}
use owop_server_for_heroku_g.Server.{Server, SocketInfo}
use owop_server_for_heroku_g.Server.Close.{close}
use owop_server_for_heroku_g.Server.Connect.{on_connection, plain_ip}
use owop_server_for_heroku_g.Server.Message.{binary_code, on_message}
use owop_server_for_heroku_g.Server.Files.{writefiles, readfiles}
use owop_server_for_heroku_g.Server.Files.Kept.{IsLine, contains-readfiles}
use owop_server_for_heroku_g.Server.Names.{IsNamed}
use owop_server_for_heroku_g.Server.Join.{is_name, is_name_char}
use owop_server_for_heroku_g.Server.Gone.{worlds-close}
use owop_server_for_heroku_g.Server.Gates.{on_connection-refused, on_message-paste}

abbrev os : Os
os = record { mkdir = λ dir. true; opens = λ path. true }

abbrev town : World
town = record {
  bgclr = 0xFFFFFF;
  pids = 2;
  paintrate = 32;
  default_rank = 1;
  upd_active = false;
  db = record {
    dir = 109 ∷ 47 ∷ [];
    created_dir = false;
    handles = [];
    nonexistant = [];
    world_props = [];
    ranked_chunks = [];
    changed_props_or_protects = false;
  };
  pass = [];
  clients = 5 ∷ 7 ∷ [];
  chunks = [];
  pxupdates = [];
  plupdates = [];
  plleft = [];
  name = 109 ∷ [];
}

abbrev guest : Client ℕ
guest = (client 1 5 (109 ∷ []) true).0

abbrev visitor : SocketInfo ℕ
visitor = record { origin = []; ip = 49 ∷ []; player = some guest; captcha_verified = 3 }

abbrev server : Server ℕ
server = record {
  modpw = codes "mod";
  adminpw = codes "admin";
  devpw = codes "dev";
  path = [];
  worlds = (109 ∷ [], town) ∷ [];
  socks = (5, visitor) ∷ [];
  ipwhitelist = [];
  ipblacklist = [];
  ipban = (50 ∷ []) ∷ [];
  conns = (49 ∷ [], 1) ∷ [];
  connlimiter = bucket 10 5;
  maxconns = 458568;
  captcha_required = false;
  lockdown = false;
  proxy_lock = false;
  instaban = false;
  trusting_captcha = false;
  fastconnectaction = 0;
  proxyquery_checking = [];
  closing = [];
  disk = record { files = []; dirs = [] };
  sent = [];
}

there : lookup 5 server.socks ≡ some visitor
unfolding lookup
there = refl

found : lookup (109 ∷ []) server.worlds ≡ some town
unfolding lookup eq_bytes
found = refl

wrld_name : guest.wrld ≡ 109 ∷ []
unfolding client
wrld_name = refl

worlds-close_example :
    lookup guest.wrld (close 5 server).worlds
    ≡ (if is_empty (rm_cli 5 guest.id town).clients then none else some (rm_cli 5 guest.id town))
unfolding client
worlds-close_example = worlds-close 5 visitor guest server town there refl refl found refl

banned : contains (plain_ip (50 ∷ [])) server.ipban ≡ true
unfolding contains plain_ip codes eq_bytes
banned = refl

on_connection-refused_example : lookup 9 (on_connection 9 (50 ∷ []) 0 server).socks ≡ none
on_connection-refused_example = on_connection-refused 9 (50 ∷ []) 0 server (inl banned)

on_message-paste_example :
    lookup 5 (on_message os [] 5 binary_code (replicate 776 0) 0 server).socks ≡ none
unfolding client
on_message-paste_example =
    on_message-paste os [] 5 (replicate 776 0) 0 server visitor guest there refl refl refl refl

ban-IsLine : IsLine (50 ∷ [])
ban-IsLine = record { filled = λ e. cc; unbroken = (refl, tt) }

server-IsNamed : IsNamed server
unfolding is_name is_name_char
server-IsNamed = (record { plain = refl; short = omega arith; filled = omega arith }, tt)
