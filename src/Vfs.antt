-- ===== src/Vfs.antt =====
-- include/mcs_vfs.h: the nodes of the RAM file system, the table of open files, and the error codes.
-- `Ramfs` models kernel/vfs/ramfs.c and `Files` kernel/vfs/fd.c. A C string is the list of its bytes
-- before the terminating 0. A pointer to a node is its index in the array of nodes.
pub mod Ramfs
pub mod Paths
pub mod Scan
pub mod Create
pub mod Nodes
pub mod Files
pub mod Contents
pub mod State
pub mod Calls
pub mod Writes
pub mod ReadBack
pub mod Entries
mod Tests
use acep_reja_mcsos.Common.{
  ℕ, zero, suc, ◌+◌, ◌-◌, ◌*◌, ◌/◌, ◌%◌, ◌^◌, ◌≤◌, ◌<◌, min, bit_and, bit_or, ◌≡◌, refl, sym, ap,
  ◌∙◌, fun_ext, ◌≢◌, ◌↔◌, ◌⊎◌, inl, inr, Bool, true, false, not, ◌&&◌, ◌||◌, Option, none, some,
  List, [], ◌∷◌, ◌++◌, map, append_assoc, append-nil, arith, ltb, leb, ◌==◌, if◌then◌else◌, ltb→lt,
  lt→ltb, ==_iff, Bool-cases, Option-cases, all_below, all_below_sound, update, length, get_or, set,
  take, drop, replicate, length-append, length-set, length-replicate, get_or-set_self,
  get_or-set_ne, set-set_back, get_or-out, take-suc-set, get_or-set_default, get_or-replicate,
  take-append_left, take-append_right, take-all, u8_mod, u32_mod, u64_mod, add32, add64, sub64,
  left_by, add_signed, to_int32, to_int64, Result, Outcome, ℤ, value, error, done, fail, pos,
  negsuc,
}

abbrev pub max_name : ℕ
max_name = 32

abbrev pub max_path : ℕ
max_path = 128

abbrev pub max_nodes : ℕ
max_nodes = 64

abbrev pub max_open_files : ℕ
max_open_files = 16

-- MCS_RAMFS_DATA_BYTES
abbrev pub data_bytes : ℕ
data_bytes = 8192

-- enum mcs_vfs_status, without MCS_OK
pub data Error : Type 0 where
  enoent ebadf eacces eexist enotdir eisdir einval enfile enospc enametoolong : Error

pub data VnodeType : Type 0 where
  dir file : VnodeType

abbrev pub is_dir : VnodeType → Bool
is_dir dir = true
is_dir file = false

-- mcs_vnode_t: the 32 bytes of the name are a list.
pub record Vnode : Type 0 where
  pub used : Bool
  pub id : ℕ
  pub parent : ℕ
  pub type : VnodeType
  pub name : List ℕ
  pub size : ℕ
  pub data_offset : ℕ
  pub data_capacity : ℕ

-- mcs_ramfs_t: an array is a function of its index.
pub record RamFs : Type 0 where
  pub nodes : ℕ → Vnode
  pub node_count : ℕ
  pub bytes : ℕ → ℕ
  pub data_used : ℕ

-- mcs_file_t: `node` is none for NULL. There is one file system, so of `fs` only whether it is NULL
-- is kept.
pub record File : Type 0 where
  pub used : Bool
  pub flags : ℕ
  pub offset : ℕ
  pub node : Option ℕ
  pub fs : Bool

-- A process's table of open files, and the file system.
pub record World : Type 0 where
  pub files : ℕ → File
  pub ramfs : RamFs
