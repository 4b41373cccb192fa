-- ===== src/Block.antt =====
-- include/mcsos/block.h and kernel/block/block.c: the table of block devices and the buffer cache.
-- A block is the list of its bytes. Every device has a driver with its three operations, which may
-- change a state `S` that the drivers share; kernel/block/ramblk.c is one (`Ramblk`).
pub mod Entries
pub mod Coherence
pub mod Access
pub mod Flush
pub mod Ramblk
mod Tests
use acep_reja_mcsos.Common.{
  ℕ, zero, suc, ◌+◌, ◌-◌, ◌*◌, ◌/◌, ◌%◌, ◌^◌, ◌≤◌, ◌<◌, min, bit_and, bit_or, ◌≡◌, refl, sym, ap,
  ◌∙◌, fun_ext, ◌≢◌, ◌↔◌, ◌⊎◌, inl, inr, Bool, true, false, not, ◌&&◌, ◌||◌, Option, none, some,
  List, [], ◌∷◌, ◌++◌, map, append_assoc, append-nil, arith, ltb, leb, ◌==◌, if◌then◌else◌, ltb→lt,
  lt→ltb, ==_iff, Bool-cases, Option-cases, all_below, all_below_sound, update, length, get_or, set,
  take, drop, replicate, length-append, length-set, length-replicate, get_or-set_self,
  get_or-set_ne, set-set_back, get_or-out, take-suc-set, get_or-set_default, get_or-replicate,
  take-append_left, take-append_right, take-all, u8_mod, u32_mod, u64_mod, add32, add64, sub64,
  left_by, bind, bind_ext, bind-value, Result-cases, Outcome-cases, add_signed, to_int32, to_int64,
  Result, Outcome, ℤ, value, error, done, fail, pos, negsuc,
}

abbrev pub max_devices : ℕ
max_devices = 16

abbrev pub cache_entries : ℕ
cache_entries = 32

-- blk_error_t, without BLK_OK
pub data BlkError : Type 0 where
  invalid_lba invalid_dev not_valid driver_fail : BlkError

-- struct block_driver_ops
pub record Driver (S : Type 0) : Type 0 where
  pub read : ℕ → S → Outcome BlkError S (List ℕ)
  pub write : ℕ → List ℕ → S → Outcome BlkError S (Unit {0})
  pub flush : S → Outcome BlkError S (Unit {0})

-- struct block_device
pub record Device (S : Type 0) : Type 0 where
  pub dev_id : ℕ
  pub block_count : ℕ
  pub driver : Driver S

-- struct buffer_cache_entry
pub record Entry : Type 0 where
  pub dev_id : ℕ
  pub lba : ℕ
  pub valid : Bool
  pub dirty : Bool
  pub contents : List ℕ

-- The static variables of block.c, and the state of the drivers.
pub record Layer (S : Type 0) : Type 0 where
  pub table : ℕ → Option (Device S)
  pub num_registered : ℕ
  pub cache : ℕ → Entry
  pub drv : S

-- The first entry that passes a test among `n` from `i` on.
pub find_entry : (Entry → Bool) → (ℕ → Entry) → ℕ → ℕ → Option ℕ
find_entry p cache zero i = none
find_entry p cache (suc n) i =
    let rest = find_entry p cache n (i + 1) in if p (cache i) then some i else rest

abbrev pub holds : ℕ → ℕ → Entry → Bool
holds dev lba e = e.valid && (e.dev_id == dev && e.lba == lba)

pub cache_lookup : ℕ → ℕ → (ℕ → Entry) → Option ℕ
cache_lookup dev lba cache = find_entry (holds dev lba) cache cache_entries 0

pub cache_find_empty : (ℕ → Entry) → Option ℕ
cache_find_empty cache = find_entry (λ e. not e.valid) cache cache_entries 0

abbrev pub new_entry : ℕ → ℕ → Bool → List ℕ → Entry
new_entry dev lba dirty b = record {
  dev_id = dev;
  lba = lba;
  valid = true;
  dirty = dirty;
  contents = b;
}

-- The entry that a write goes to: the one of the block, or else an empty one.
pub write_slot : ℕ → ℕ → (ℕ → Entry) → Option ℕ
write_slot dev lba cache = elim (cache_lookup dev lba cache) [
  | some i ↦ some i
  | none ↦ cache_find_empty cache
]

module _ {S : Type 0} where
  pub blk_register_device : Device S → Layer S → Outcome BlkError (Layer S) (Unit {0})
  blk_register_device d l =
      if leb max_devices l.num_registered
      then fail invalid_dev l
      else done tt (record l {
        table = update l.table l.num_registered (some (record d { dev_id = l.num_registered }));
        num_registered = l.num_registered + 1;
      })

  pub blk_get_device : ℕ → Layer S → Option (Device S)
  blk_get_device dev l = if leb max_devices dev then none else l.table dev

  -- The table keeps its pointers; only the count is reset.
  pub blk_init : Layer S → Layer S
  blk_init l = record l {
    cache = λ i. record {
      dev_id = 0;
      lba = 0;
      valid = false;
      dirty = false;
      contents = replicate 512 0;
    };
    num_registered = 0;
  }

  abbrev pub set_entry : Layer S → ℕ → Entry → Layer S
  set_entry l i e = record l { cache = update l.cache i e }

  -- A block that was read goes into an empty entry, if there is one.
  pub fill : ℕ → ℕ → List ℕ → Layer S → Layer S
  fill dev lba b l = elim (cache_find_empty l.cache) [
    | none ↦ l
    | some i ↦ set_entry l i (new_entry dev lba false b)
  ]

  unfoldable pub read_device : Device S → ℕ → ℕ → Layer S → Outcome BlkError (Layer S) (List ℕ)
  read_device d dev lba l = elim (cache_lookup dev lba l.cache) [
    | some i ↦ done (l.cache i).contents l
    | none ↦ elim (d.driver.read lba l.drv) [
      | fail e s ↦ fail e (record l { drv = s })
      | done b s ↦ done b (fill dev lba b (record l { drv = s }))
    ]
  ]

  pub blk_read : ℕ → ℕ → Layer S → Outcome BlkError (Layer S) (List ℕ)
  blk_read dev lba l = elim (blk_get_device dev l) [
    | none ↦ fail invalid_dev l
    | some d ↦ if leb d.block_count lba then fail invalid_lba l else read_device d dev lba l
  ]

  pub blk_write : ℕ → ℕ → List ℕ → Layer S → Outcome BlkError (Layer S) (Unit {0})
  blk_write dev lba b l = elim (blk_get_device dev l) [
    | none ↦ fail invalid_dev l
    | some d ↦
        if leb d.block_count lba then fail invalid_lba l else elim (write_slot dev lba l.cache) [
          | none ↦ done tt l
          | some i ↦ done tt (set_entry l i (new_entry dev lba true b))
        ]
  ]

  abbrev pub cleaned : Layer S → ℕ → S → Layer S
  cleaned l i s = record l {
    drv = s;
    cache = update l.cache i (record (l.cache i) { dirty = false });
  }

  -- The loop of `blk_flush` over `n` entries from `i` on.
  pub flush_from : Device S → ℕ → ℕ → ℕ → Layer S → Outcome BlkError (Layer S) (Unit {0})
  flush_from d dev zero i l = done tt l
  flush_from d dev (suc n) i l =
      elim ((l.cache i).valid && ((l.cache i).dev_id == dev && (l.cache i).dirty)) [
        | false ↦ flush_from d dev n (i + 1) l
        | true ↦ elim (d.driver.write (l.cache i).lba (l.cache i).contents l.drv) [
          | fail e s ↦ fail driver_fail (record l { drv = s })
          | done _ s ↦ flush_from d dev n (i + 1) (cleaned l i s)
        ]
      ]

  -- The driver's own flush comes last.
  unfoldable pub flush_driver : Device S → Layer S → Outcome BlkError (Layer S) (Unit {0})
  flush_driver d l = elim (d.driver.flush l.drv) [
    | fail e s ↦ fail e (record l { drv = s })
    | done _ s ↦ done tt (record l { drv = s })
  ]

  pub blk_flush : ℕ → Layer S → Outcome BlkError (Layer S) (Unit {0})
  blk_flush dev l = elim (blk_get_device dev l) [
    | none ↦ fail invalid_dev l
    | some d ↦ elim (flush_from d dev cache_entries 0 l) [
      | fail e l' ↦ fail e l'
      | done _ l' ↦ flush_driver d l'
    ]
  ]

  -- The loop of `blk_cache_flush_all`: `ok` is whether `result` is still BLK_OK. It goes on after an
  -- error.
  pub flush_all_from : ℕ → ℕ → Bool → Layer S → Outcome BlkError (Layer S) (Unit {0})
  flush_all_from zero i ok l = if ok then done tt l else fail driver_fail l
  flush_all_from (suc n) i ok l = elim ((l.cache i).valid && (l.cache i).dirty) [
    | false ↦ flush_all_from n (i + 1) ok l
    | true ↦ elim (blk_get_device (l.cache i).dev_id l) [
      | none ↦ flush_all_from n (i + 1) false l
      | some d ↦ elim (d.driver.write (l.cache i).lba (l.cache i).contents l.drv) [
        | fail e s ↦ flush_all_from n (i + 1) false (record l { drv = s })
        | done _ s ↦ flush_all_from n (i + 1) ok (cleaned l i s)
      ]
    ]
  ]

  pub blk_cache_flush_all : Layer S → Outcome BlkError (Layer S) (Unit {0})
  blk_cache_flush_all l = flush_all_from cache_entries 0 true l
