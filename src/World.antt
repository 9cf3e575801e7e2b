-- ===== src/World.antt =====
-- The `World` class of world.cpp: its chunk cache, its clients and what is pending for them. Clients
-- are named by their sockets. The disk and what the operating system answers are arguments.
pub mod Cache
pub mod Edit
pub mod Updates
pub mod Props
pub mod Clients
pub mod Steps
mod Tests
use owop_server_for_heroku_g.Base.{ℕ, Bool, List}
use owop_server_for_heroku_g.Base.Words.{Bytes}
use owop_server_for_heroku_g.Chunk.{Chunk}
use owop_server_for_heroku_g.Database.{Database}

-- `pixupd_t`; the coordinates are `int32_t`.
pub record Pixupd : Type 0 where
  pub x : ℕ
  pub y : ℕ
  pub r : ℕ
  pub g : ℕ
  pub b : ℕ

-- `pinfo_t`.
pub record Pinfo : Type 0 where
  pub x : ℕ
  pub y : ℕ
  pub r : ℕ
  pub g : ℕ
  pub b : ℕ
  pub tool : ℕ

-- `upd_active` is uv_is_active of the update timer.
pub record World : Type 0 where
  pub bgclr : ℕ
  pub pids : ℕ
  pub paintrate : ℕ
  pub default_rank : ℕ
  pub upd_active : Bool
  pub db : Database
  pub pass : Bytes
  pub clients : List ℕ
  pub chunks : List (Bytes × Chunk)
  pub pxupdates : List Pixupd
  pub plupdates : List ℕ
  pub plleft : List ℕ
  pub name : Bytes
