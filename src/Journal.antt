-- ===== src/Journal.antt =====
-- kernel/fs/mcsfs1j/m16_mcsfs_journal.c: the block device with fault injection, and the redo journal.
-- A pointer is a value here, so the tests for NULL are left out. A block is its list of bytes, and a
-- struct that is written to a block is encoded as the compiler lays it out, little-endian.
pub mod Layout
pub mod Replay
pub mod Writes
pub mod Commit
pub mod Recover
pub mod Crash
pub mod Atomic
mod Tests
use acep_reja_mcsos.Common.{
  ℕ, ◌+◌, ◌-◌, ◌*◌, Bool, ◌&&◌, Option, none, some, List, [], ◌∷◌, ◌++◌, ltb, leb, ◌==◌,
  if◌then◌else◌, update, length, replicate, add64, zero, suc, ◌/◌, ◌%◌, ◌^◌, ◌≤◌, ◌<◌, min, bit_and,
  bit_or, ◌≡◌, refl, sym, ap, ◌∙◌, fun_ext, ◌≢◌, ◌↔◌, ◌⊎◌, inl, inr, true, false, not, ◌||◌, map,
  append_assoc, append-nil, arith, ltb→lt, lt→ltb, ==_iff, Bool-cases, Option-cases, all_below,
  all_below_sound, get_or, set, take, drop, length-append, length-set, length-replicate,
  get_or-set_self, get_or-set_ne, set-set_back, get_or-out, take-suc-set, get_or-set_default,
  get_or-replicate, take-append_left, take-append_right, take-all, u8_mod, u32_mod, u64_mod, add32,
  sub64,
}
use Layout.{JournalHeader, JournalDesc, header_bytes, desc_bytes, zero_header, checksum}

abbrev pub max_blocks : ℕ
max_blocks = 128

abbrev pub journal_magic : ℕ
journal_magic = 0x4d43534a524e4c31

abbrev pub version : ℕ
version = 1

abbrev pub state_empty : ℕ
state_empty = 0

abbrev pub state_committed : ℕ
state_committed = 2

abbrev pub max_records : ℕ
max_records = 8

abbrev pub journal_start : ℕ
journal_start = 1

-- M16_INODE_BITMAP_LBA, the first block after the journal
abbrev pub journal_end : ℕ
journal_end = 18

abbrev pub Block : Type 0
Block = List ℕ

-- struct m16_blockdev. `fail_after` is `none` where the source has a negative number.
pub record BlockDev : Type 0 where
  pub blocks : ℕ → Block
  pub total_blocks : ℕ
  pub writes : ℕ
  pub fail_after : Option ℕ

-- The error codes: M16_E_INVAL and so on.
pub data Error : Type 0 where
  inval io nospc exists noent corrupt toolong : Error

-- What a call returns, and the device as it leaves it.
pub data Outcome {ℓ} (A : Type ℓ) : Type ℓ where
  done : A → BlockDev → Outcome A
  fail : Error → BlockDev → Outcome A

abbrev pub M {ℓ} : Type ℓ → Type ℓ
M A = BlockDev → Outcome A

abbrev pub pure {ℓ} : {A : Type ℓ} → A → M A
pure a d = done a d

abbrev pub throw {ℓ} : {A : Type ℓ} → Error → M A
throw e d = fail e d

abbrev pub and_then {ℓ κ} : {A : Type ℓ} {B : Type κ} → Outcome A → (A → M B) → Outcome B
and_then (done a d) f = f a d
and_then (fail e d) f = fail e d

infixl 5 ◌>>=◌ ◌>>◌
abbrev pub ◌>>=◌ {ℓ κ} : {A : Type ℓ} {B : Type κ} → M A → (A → M B) → M B
◌>>=◌ m f d = and_then (m d) f

abbrev pub ◌>>◌ {ℓ} : {B : Type ℓ} → M (Unit {0}) → M B → M B
m >> k = m >>= λ _. k

pub valid_lba : BlockDev → ℕ → Bool
valid_lba dev lba = ltb lba dev.total_blocks && ltb lba max_blocks

pub read_block : ℕ → M Block
read_block lba dev = if valid_lba dev lba then done (dev.blocks lba) dev else fail inval dev

-- The write itself, once the fault injection lets it through.
abbrev pub store : ℕ → Block → Option ℕ → BlockDev → BlockDev
store lba block left dev = record dev {
  blocks = update dev.blocks lba block;
  writes = add64 dev.writes 1;
  fail_after = left;
}

pub write_block : ℕ → Block → M (Unit {0})
write_block lba block dev =
    if valid_lba dev lba
    then elim dev.fail_after [
      | none ↦ done tt (store lba block none dev)
      | some n ↦ if n == 0 then fail io dev else done tt (store lba block (some (n - 1)) dev)
    ]
    else fail inval dev

pub dev_init : BlockDev
dev_init = record {
  blocks = λ _. replicate 512 0;
  total_blocks = max_blocks;
  writes = 0;
  fail_after = none;
}

-- struct m16_jrec
pub record JournalRecord : Type 0 where
  pub target_lba : ℕ
  pub payload : Block

-- struct m16_tx: its `count` is the length, and what stands past it in the array is never read.
abbrev pub Tx : Type 0
Tx = List JournalRecord

pub tx_add : Tx → ℕ → Block → Option Tx
tx_add tx lba payload =
    if leb max_records (length tx)
    then none
    else some (tx ++ record { target_lba = lba; payload = payload } ∷ [])

pub journal_clear : M (Unit {0})
journal_clear = write_block journal_start (header_bytes zero_header)

abbrev pub desc_lba : ℕ → ℕ
desc_lba i = journal_start + 1 + i * 2

pub make_desc : JournalRecord → JournalDesc
make_desc r = record {
  magic = journal_magic;
  target_lba = r.target_lba;
  payload_checksum = checksum r.payload;
  reserved = replicate 496 0;
}

-- First loop of `m16_journal_commit`: a descriptor and the payload for each record.
pub write_records : ℕ → Tx → M (Unit {0})
write_records i [] = pure tt
write_records i (r ∷ rs) = do
  write_block (desc_lba i) (desc_bytes (make_desc r))
  write_block (desc_lba i + 1) r.payload
  write_records (i + 1) rs

pub header_checksum : JournalHeader → ℕ
header_checksum h = checksum (header_bytes (record h { header_checksum = 0 }))

abbrev committed : ℕ → ℕ → JournalHeader
committed seq count = record zero_header {
  magic = journal_magic;
  version = version;
  state = state_committed;
  seq = seq;
  count = count;
}

pub make_header : ℕ → ℕ → JournalHeader
make_header seq count = record (committed seq count) {
  header_checksum = header_checksum (committed seq count);
}

-- Second loop: the payloads to their home blocks.
pub write_home : Tx → M (Unit {0})
write_home [] = pure tt
write_home (r ∷ rs) = do write_block r.target_lba r.payload; write_home rs

-- What follows the commit record.
pub apply_home : Tx → M (Unit {0})
apply_home tx = do write_home tx; journal_clear

pub journal_commit : Tx → ℕ → Bool → M (Unit {0})
journal_commit tx seq stop_after_commit_record =
    if ltb max_records (length tx) then throw inval else do
      journal_clear
      write_records 0 tx
      write_block journal_start (header_bytes (make_header seq (length tx)))
      if stop_after_commit_record then pure tt else apply_home tx
