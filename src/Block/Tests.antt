-- ===== src/Block/Tests.antt =====
-- The RAM disk under a cache that is full, with one dirty entry.
use acep_reja_mcsos.Block.Flush.{blk_flush-view}
use acep_reja_mcsos.Block.Access.{blk_write-lost, blk_write-view, blk_read-view}
use acep_reja_mcsos.Block.Coherence.{IsValid, view, same_block}
use acep_reja_mcsos.Block.Ramblk.{
  RamDisk, ramblk_block_device, ramblk_init, with_ram, IsReady, ram_peek, ramblk_init-IsValid,
  only_ram,
}
use acep_reja_mcsos.Block.{
  Layer, blk_get_device, write_slot, cache_lookup, find_entry, blk_read, blk_write, blk_flush,
  blk_init,
}
use acep_reja_mcsos.Common.{
  ℕ, ◌≡◌, refl, ap, true, false, none, some, [], ◌∷◌, arith, ◌==◌, if◌then◌else◌, done,
}

abbrev blank_layer : Layer RamDisk
blank_layer = record {
  table = λ dev. none;
  num_registered = 0;
  cache = λ i. record { dev_id = 0; lba = 0; valid = false; dirty = false; contents = [] };
  drv = record { magic = 0xDEADBEEF; storage = λ lba. [] };
}

ramblk_init-IsValid_example :
    (l' : Layer RamDisk) × (ramblk_init blank_layer ≡ done tt l')
    × IsValid IsReady ram_peek l'
    × (blk_get_device 0 l' ≡ some ramblk_block_device)
    × ((lba : ℕ) → view ram_peek l' 0 lba ≡ blank_layer.drv.storage lba)
ramblk_init-IsValid_example = ramblk_init-IsValid blank_layer (λ dev. refl) refl

-- Entry `i` is for block `i`; block 3 was written.
abbrev busy_layer : Layer RamDisk
busy_layer = record (with_ram blank_layer) {
  cache = λ i. record {
    dev_id = 0;
    lba = i;
    valid = true;
    dirty = i == 3;
    contents = if i == 3 then 7 ∷ [] else [];
  };
}

busy_layer-IsValid : IsValid IsReady ram_peek busy_layer
unfolding blk_get_device blk_init
busy_layer-IsValid = record {
  ready = refl;
  serves = only_ram blank_layer (λ dev. refl);
  unique = λ i j li lj vi h. ground arith;
  agrees = λ i li vi di. ap (λ b. if b then 7 ∷ [] else []) di;
  known = λ i li vi. (ramblk_block_device, refl, omega arith);
}

there : blk_get_device 0 busy_layer ≡ some ramblk_block_device
unfolding blk_get_device blk_init
there = refl

blk_read-view_example :
    (l' : Layer RamDisk) × (blk_read 0 3 busy_layer ≡ done (view ram_peek busy_layer 0 3) l')
    × IsValid IsReady ram_peek l'
    × ((dev' lba' : ℕ) → view ram_peek l' dev' lba' ≡ view ram_peek busy_layer dev' lba')
blk_read-view_example =
    blk_read-view IsReady ram_peek busy_layer busy_layer-IsValid 0 3 ramblk_block_device there
      (omega arith)

slot_3 : write_slot 0 3 busy_layer.cache ≡ some 3
unfolding write_slot cache_lookup find_entry
slot_3 = refl

blk_write-view_example :
    (l' : Layer RamDisk) × (blk_write 0 3 (9 ∷ []) busy_layer ≡ done tt l')
    × IsValid IsReady ram_peek l'
    × ((dev' lba' : ℕ)
        → view ram_peek l' dev' lba'
          ≡ (if same_block 0 3 dev' lba' then 9 ∷ [] else view ram_peek busy_layer dev' lba'))
blk_write-view_example =
    blk_write-view IsReady ram_peek busy_layer busy_layer-IsValid 0 3 ramblk_block_device there
      (omega arith) (9 ∷ []) 3 slot_3

blk_write-lost_example :
    (l1 l2 : Layer RamDisk) × (blk_write 0 40 (9 ∷ []) busy_layer ≡ done tt l1)
    × (blk_read 0 40 l1 ≡ done (ram_peek 0 40 busy_layer.drv) l2)
blk_write-lost_example =
    blk_write-lost IsReady ram_peek busy_layer busy_layer-IsValid 0 40 ramblk_block_device there
      (omega arith) (9 ∷ []) (λ k lk. refl) (λ k lk. ground arith)

blk_flush-view_example :
    (l' : Layer RamDisk) × (blk_flush 0 busy_layer ≡ done tt l')
    × IsValid IsReady ram_peek l'
    × ((dev' lba' : ℕ) → view ram_peek l' dev' lba' ≡ view ram_peek busy_layer dev' lba')
    × ((lba : ℕ) → ram_peek 0 lba l'.drv ≡ view ram_peek busy_layer 0 lba)
blk_flush-view_example =
    blk_flush-view IsReady ram_peek busy_layer 0 ramblk_block_device busy_layer-IsValid there
