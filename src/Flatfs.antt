-- ===== src/Flatfs.antt =====
-- fs/mcsfs1/mcsfs1.c and mcsfs1.h: the flat file system, one directory on a block device. The device is
-- any driver: a state, with what its read, write and flush do to it. A block is its list of bytes. A
-- name is the bytes before its NUL. A call is a function on the state of the driver that returns a
-- value or an error code and the state as it leaves it, in a do block where the source returns at the
-- first error.
pub mod Layout
pub mod Tables
pub mod Calls
pub mod Files
pub mod Served
pub mod Bytes
pub mod Inodes
pub mod Writes
pub mod Fresh
pub mod Owned
pub mod Alloc
pub mod Contents
pub mod Named
pub mod ReadBack
mod Tests
use acep_reja_mcsos.Common.{
  ℕ, zero, suc, ◌+◌, ◌-◌, ◌*◌, ◌/◌, ◌%◌, ◌^◌, ◌≤◌, ◌<◌, min, ◌≡◌, refl, sym, ap, ◌∙◌, ◌≢◌, ◌↔◌, ◌⊎◌,
  inl, inr, Bool, true, false, not, ◌&&◌, ◌||◌, Option, none, some, List, [], ◌∷◌, ◌++◌, map,
  append_assoc, append-nil, arith, ltb, leb, ◌==◌, if◌then◌else◌, ltb→lt, lt→ltb, ==_iff,
  Bool-cases, Option-cases, update, length, get_or, set, take, drop, replicate, length-append,
  length-set, length-replicate, take-append_left, take-append_right, take-all, u8_mod, u32_mod,
  u64_mod, add32, add64, bind, Result, Outcome, value, error, done, fail, proceed, ℤ, pos, negsuc,
  bit_and, bit_or, fun_ext, all_below, all_below_sound, get_or-set_self, get_or-set_ne,
  set-set_back, get_or-out, take-suc-set, get_or-set_default, get_or-replicate, sub64, left_by,
  bind_ext, bind-value, Result-cases, Outcome-cases, add_signed, to_int32, to_int64,
}

abbrev pub block_size : ℕ
block_size = 512

abbrev pub sb_lba : ℕ
sb_lba = 0

abbrev pub inode_bmap_lba : ℕ
inode_bmap_lba = 1

abbrev pub block_bmap_lba : ℕ
block_bmap_lba = 2

abbrev pub inode_table_lba : ℕ
inode_table_lba = 3

abbrev pub inode_table_blocks : ℕ
inode_table_blocks = 4

abbrev pub root_dir_lba : ℕ
root_dir_lba = 7

abbrev pub data_start_lba : ℕ
data_start_lba = 8

abbrev pub min_blocks : ℕ
min_blocks = 16

abbrev pub dirent_count : ℕ
dirent_count = 16

abbrev pub magic : ℕ
magic = 0x31465343

abbrev pub version : ℕ
version = 1

abbrev pub max_inodes : ℕ
max_inodes = 32

abbrev pub direct_blocks : ℕ
direct_blocks = 8

abbrev pub max_name : ℕ
max_name = 27

abbrev pub root_ino : ℕ
root_ino = 1

abbrev pub mode_file : ℕ
mode_file = 1

abbrev pub mode_dir : ℕ
mode_dir = 2

-- The error codes: MCSFS1_ERR_INVAL and so on.
pub data FsError : Type 0 where
  inval io nospc exist noent nametoolong corrupt isdir range : FsError

-- struct mcsfs1_blkdev. An operation that does not return 0 has failed.
pub record Blkdev (S : Type 0) : Type 0 where
  pub block_count : ℕ
  pub read : ℕ → S → Outcome (Unit {0}) S (List ℕ)
  pub write : ℕ → List ℕ → S → Outcome (Unit {0}) S (Unit {0})
  pub flush : S → Outcome (Unit {0}) S (Unit {0})

-- struct mcsfs1_mount
pub record Mount (S : Type 0) : Type 0 where
  pub dev : Blkdev S
  pub block_count : ℕ
  pub data_start : ℕ

abbrev pub Op : Type 0 → Type 0 → Type 0
Op S A = S → Outcome FsError S A

abbrev pub pure : {S A : Type 0} → A → Op S A
pure a s = done a s

abbrev pub throw : {S A : Type 0} → FsError → Op S A
throw e s = fail e s

infixl 5 ◌>>=◌ ◌>>◌
abbrev pub ◌>>=◌ : {S A B : Type 0} → Op S A → (A → Op S B) → Op S B
◌>>=◌ m f s = proceed (m s) f

abbrev pub ◌>>◌ : {S B : Type 0} → Op S (Unit {0}) → Op S B → Op S B
m >> k = m >>= λ _. k

-- `rc == 0 ? MCSFS1_ERR_OK : MCSFS1_ERR_IO`
abbrev pub answer : {S A : Type 0} → Outcome (Unit {0}) S A → Outcome FsError S A
answer (done a s) = done a s
answer (fail e s) = fail io s

module _ {S : Type 0} where
  pub dev_read : Blkdev S → ℕ → Op S (List ℕ)
  dev_read dev lba s = if leb dev.block_count lba then fail inval s else answer (dev.read lba s)

  pub dev_write : Blkdev S → ℕ → List ℕ → Op S (Unit {0})
  dev_write dev lba buf s =
      if leb dev.block_count lba then fail inval s else answer (dev.write lba buf s)

  pub dev_flush : Blkdev S → Op S (Unit {0})
  dev_flush dev s = answer (dev.flush s)

-- mcsfs_strlen_bound: the bytes before the first NUL, at most as many as the bound.
pub strlen_bound : List ℕ → ℕ → ℕ
strlen_bound s zero = 0
strlen_bound [] (suc n) = 0
strlen_bound (x ∷ xs) (suc n) = if x == 0 then 0 else suc (strlen_bound xs n)

-- A slash among the first `n` bytes
pub has_slash : List ℕ → ℕ → Bool
has_slash s zero = false
has_slash [] (suc n) = false
has_slash (x ∷ xs) (suc n) = (x == 47) || has_slash xs n

-- The length of a name that is valid.
pub valid_name : List ℕ → Result FsError ℕ
valid_name name =
    let n = strlen_bound name (max_name + 1) in
    if n == 0
    then error inval
    else if ltb max_name n
    then error nametoolong
    else if has_slash name n
    then error inval
    else value n

-- `mcsfs_memcmp(a, b, n) == 0`
pub same_bytes : List ℕ → List ℕ → ℕ → Bool
same_bytes a b zero = true
same_bytes [] b (suc n) = false
same_bytes (x ∷ xs) [] (suc n) = false
same_bytes (x ∷ xs) (y ∷ ys) (suc n) = (x == y) && same_bytes xs ys n
