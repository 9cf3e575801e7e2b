-- ===== src/Server/Stop.antt =====
-- The constructor and the destructor of the `Server` class in server.cpp, and the way from one to the
-- other: `run`, and `quit`, which the handler of the interrupt signal in main.cpp calls.
pub mod Gone
pub mod Leaving
pub mod Lost
pub mod Restart
use owop_server_for_heroku_g.Base.{ℕ, false, List, [], ◌∷◌, ◌++◌, if◌then◌else◌, map}
use owop_server_for_heroku_g.Base.Words.{Bytes, codes}
use owop_server_for_heroku_g.Base.Eq.{bytes_eq}
use owop_server_for_heroku_g.Base.Assoc.{emplace}
use owop_server_for_heroku_g.Limiter.{Float, bucket}
use owop_server_for_heroku_g.Database.Storage.{Disk}
use owop_server_for_heroku_g.Database.Handles.{Os}
use owop_server_for_heroku_g.Server.{Server, broadcastmsg}
use owop_server_for_heroku_g.Server.Close.{close, delete_worlds}
use owop_server_for_heroku_g.Server.Kick.{each}
use owop_server_for_heroku_g.Server.Files.{readfiles, writefiles}
use owop_server_for_heroku_g.Server.Events.{Event, after}

-- The constructor. The port, which `listen` gets, is left out.
unfoldable pub start : {F : Type 0} ⦃fl : Float F⦄ → Bytes → Bytes → Bytes → Bytes → Disk → Server F
start modpw adminpw devpw path disk = readfiles (record {
  modpw = modpw;
  adminpw = adminpw;
  devpw = devpw;
  path = path ++ codes "/";
  worlds = [];
  socks = [];
  ipwhitelist = [];
  ipblacklist = [];
  ipban = [];
  conns = [];
  connlimiter = bucket 10 5;
  maxconns = 458568;
  captcha_required = false;
  lockdown = false;
  proxy_lock = false;
  instaban = false;
  trusting_captcha = false;
  fastconnectaction = 0;
  proxyquery_checking = [];
  closing = [];
  disk = disk;
  sent = [];
})

module _ {F : Type 0} where
  -- `Server::run`, up to the event loop. The answer of mkdir is not looked at.
  unfoldable pub run : Os → Server F → Server F
  run os srv = record srv {
    disk =
        if os.mkdir srv.path
        then record srv.disk { dirs = emplace srv.path srv.disk.dirs }
        else srv.disk;
  }

  -- The loop over connsws, which takes the next socket before it closes one.
  unfoldable pub close_all : Server F → Server F
  close_all srv = each (λ ws si. close ws) srv.socks srv

  -- `~Server`
  unfoldable pub destroy : Os → Bytes → Server F → Server F
  destroy os junk srv =
      let closed = close_all srv in
      writefiles (record closed {
        worlds = [];
        disk = delete_worlds os junk (map (λ named. named.1) closed.worlds) closed.disk;
      })

-- Whether save_hdl is being closed, and whether the program has left by exit(0).
pub data Life (F : Type 0) : Type 0 where
  running : Server F → Life F
  stopping : Server F → Life F
  stopped : Server F → Life F

-- What happens to the program: an event of the server, the interrupt signal, and the callback of the
-- timer that `quit` closes.
pub data Step : Type 0 where
  happens : Event → Step
  interrupted : Step
  timer_closed : Step

module _ {F : Type 0} ⦃fl : Float F⦄ (os : Os) (junk : Bytes) where
  unfoldable pub quit : Life F → Life F
  quit (Life.running srv) =
      Life.stopping (broadcastmsg (codes "Server: Shutting down! (Rejoin in ~5 minutes)") srv)
  quit (Life.stopping srv) = Life.stopped (destroy os junk srv)
  quit (Life.stopped srv) = Life.stopped srv

  -- The callback that uv_close gets.
  unfoldable pub timer_callback : Life F → Life F
  timer_callback (Life.running srv) = Life.running srv
  timer_callback (Life.stopping srv) = Life.stopped (destroy os junk srv)
  timer_callback (Life.stopped srv) = Life.stopped srv

  -- The timer for saving is stopped by `quit`.
  unfoldable pub event : Event → Life F → Life F
  event e (Life.running srv) = Life.running (after os junk e srv)
  event Event.save_timer (Life.stopping srv) = Life.stopping srv
  event e (Life.stopping srv) = Life.stopping (after os junk e srv)
  event e (Life.stopped srv) = Life.stopped srv

  unfoldable pub step : Step → Life F → Life F
  step (Step.happens e) l = event e l
  step Step.interrupted l = quit l
  step Step.timer_closed l = timer_callback l

  unfoldable pub live : List Step → Life F → Life F
  live [] l = l
  live (s ∷ ss) l = live ss (step s l)
