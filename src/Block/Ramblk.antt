-- ===== src/Block/Ramblk.antt =====
-- kernel/block/ramblk.c: a block device in memory.
use acep_reja_mcsos.Block.{
  Layer, BlkError, Device, blk_init, invalid_lba, blk_register_device, blk_get_device, driver_fail,
  max_devices,
}
use acep_reja_mcsos.Block.Coherence.{Serves, IsValid, view, view-device}
use acep_reja_mcsos.Common.{
  ℕ, ◌≡◌, refl, sym, ap, ◌∙◌, inl, inr, true, false, not, none, some, List, [], arith, leb, ◌==◌,
  if◌then◌else◌, Bool-cases, update, replicate, Outcome, done, fail,
}

-- RAMBLK_DEVICE_SIZE_BLOCKS
abbrev pub ram_blocks : ℕ
ram_blocks = 4096

-- RAMBLK_MAGIC
abbrev pub ram_magic : ℕ
ram_magic = 0xDEADBEEF

-- struct ramblk_device: the blocks of `storage` by their number.
pub record RamDisk : Type 0 where
  pub magic : ℕ
  pub storage : ℕ → List ℕ

pub ramblk_read : ℕ → RamDisk → Outcome BlkError RamDisk (List ℕ)
ramblk_read lba r =
    if leb ram_blocks lba
    then fail invalid_lba r
    else if not (r.magic == ram_magic)
    then fail driver_fail r
    else done (r.storage lba) r

pub ramblk_write : ℕ → List ℕ → RamDisk → Outcome BlkError RamDisk (Unit {0})
ramblk_write lba b r =
    if leb ram_blocks lba
    then fail invalid_lba r
    else if not (r.magic == ram_magic)
    then fail driver_fail r
    else done tt (record r { storage = update r.storage lba b })

pub ramblk_flush : RamDisk → Outcome BlkError RamDisk (Unit {0})
ramblk_flush r = done tt r

abbrev pub ramblk_block_device : Device RamDisk
ramblk_block_device = record {
  dev_id = 0;
  block_count = ram_blocks;
  driver = record { read = ramblk_read; write = ramblk_write; flush = ramblk_flush };
}

pub ramblk_init : Layer RamDisk → Outcome BlkError (Layer RamDisk) (Unit {0})
ramblk_init l = blk_register_device ramblk_block_device (blk_init l)

pub ramblk_reset : RamDisk
ramblk_reset = record { magic = ram_magic; storage = λ _. replicate 512 0 }

-- The RAM disk serves as device 0.
abbrev pub IsReady : RamDisk → Type 0
IsReady r = r.magic ≡ ram_magic

abbrev pub ram_peek : ℕ → ℕ → RamDisk → List ℕ
ram_peek dev lba r = if dev == 0 then r.storage lba else []

pub ramblk-Serves : Serves IsReady ram_peek 0 ramblk_block_device
unfolding ramblk_read ramblk_write ramblk_flush
ramblk-Serves = record {
  reads = λ lba s ready inside.
      let room : leb ram_blocks lba ≡ false = ground arith in
      let magic : (s.magic == ram_magic) ≡ true = ground arith in rw (room, magic) refl;
  writes = λ lba b s ready inside.
      let room : leb ram_blocks lba ≡ false = ground arith in
      let magic : (s.magic == ram_magic) ≡ true = ground arith in
      (
        record s { storage = update s.storage lba b },
        rw (room, magic) refl,
        ready,
        ground arith,
        λ dev' lba' other. ground arith,
      );
  flushes = λ s ready. (s, refl, ready, λ dev' lba'. refl);
}

abbrev pub with_ram : Layer RamDisk → Layer RamDisk
with_ram l = record (blk_init l) {
  table = update l.table 0 (some ramblk_block_device);
  num_registered = 1;
}

pub only_ram :
    (l : Layer RamDisk)
    → ((dev : ℕ) → l.table dev ≡ none)
    → (dev : ℕ) (d : Device RamDisk) → blk_get_device dev (with_ram l) ≡ some d
    → Serves IsReady ram_peek dev d
unfolding blk_init blk_get_device
only_ram l empty dev d h = elim (Bool-cases (dev == 0)) [
  | inl e ↦
      let at : dev ≡ 0 = ground arith in
      let h' : some ramblk_block_device ≡ some d =
        sym (ap (λ x. blk_get_device x (with_ram l)) at) ∙ h in
      let same : ramblk_block_device ≡ d = cc in rw (at, sym same) ramblk-Serves
  | inr e ↦
      let t : (with_ram l).table dev ≡ none = ground (arith, empty dev) in
      elim (Bool-cases (leb max_devices dev)) [
        | inl b ↦ let h' : none ≡ some d = sym (rw (b, blk_get_device) refl) ∙ h in absurd (cc)
        | inr b ↦ let h' : none ≡ some d = sym (rw (b, blk_get_device) t) ∙ h in absurd (cc)
      ]
]

-- After `ramblk_init` on a layer whose table is empty, with a RAM disk that is in order, the layer is
-- valid and device 0 is the RAM disk, whose blocks are what they were.
pub ramblk_init-IsValid :
    (l : Layer RamDisk)
    → ((dev : ℕ) → l.table dev ≡ none)
    → IsReady l.drv
    → (l' : Layer RamDisk) × (ramblk_init l ≡ done tt l')
      × IsValid IsReady ram_peek l'
      × (blk_get_device 0 l' ≡ some ramblk_block_device)
      × ((lba : ℕ) → view ram_peek l' 0 lba ≡ l.drv.storage lba)
unfolding ramblk_init blk_init blk_register_device blk_get_device
ramblk_init-IsValid l empty ready =
    let l1 = with_ram l in
    let v : IsValid IsReady ram_peek l1 = record {
      ready = ready;
      serves = only_ram l empty;
      unique = λ i j li lj vi h. absurd (cc);
      agrees = λ i li vi di. absurd (cc);
      known = λ i li vi. absurd (cc);
    } in
    (l1, refl, v, refl, λ lba. view-device IsReady ram_peek l1 0 lba (λ k lk. refl))
