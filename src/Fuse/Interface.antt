-- ===== src/Fuse/Interface.antt =====
-- What fusecifs.c calls: the library's functions, on a world of servers.
use cifscp.Base.{ℕ, Option, List}
use cifscp.Base.Strings.{Bytes}
use cifscp.Proto.Files.{Stat}

-- A name and what is known of the file.
pub record Entry : Type 0 where
  pub name : Bytes
  pub stat : Stat

-- `none` is NULL or -1. An enumeration is the list of its names.
pub record Library : Type 1 where
  pub World : Type 0
  pub Handle : Type 0
  pub Dir : Type 0
  pub errno : World → ℕ
  pub connect : Bytes → World → Option Handle × World
  pub connect_tree : Bytes → Bytes → World → Option Handle × World
  pub disconnect : Handle → World → World
  pub tree_connect : Handle → Bytes → World → Option ℕ × World
  pub tree_switch : Handle → ℕ → World → World
  pub enum_share : Handle → World → Option (List Bytes) × World
  pub enum_server : Handle → Bytes → World → Option (List Bytes) × World
  pub stat : Handle → Bytes → World → Option Stat × World
  pub opendir : Handle → Bytes → World → Option Dir × World
  pub readdir : Dir → World → Option Entry × Dir × World
  pub closedir : Dir → World → World
  pub open_file : Handle → Bytes → ℕ → World → Option ℕ × World
  pub read : Handle → ℕ → ℕ → ℕ → World → Option Bytes × World
  pub close_file : Handle → ℕ → World → World
