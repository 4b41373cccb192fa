-- ===== src/Vmm.antt =====
-- src/vmm.c and include/vmm.h: the four levels of page tables.
-- The memory of the tables is a function of a table's physical address and an entry's index: the
-- translation `phys_to_virt` gives different tables different addresses, and whether it gives NULL is
-- a field. The frames that `alloc_frame` and `free_frame` keep are a state `S`. vmm_invalidate_page
-- has no effect on the tables and is left out.
pub mod Walk
mod Tests
use acep_reja_mcsos.Common.{
  ℕ, zero, suc, ◌+◌, ◌-◌, ◌*◌, ◌/◌, ◌%◌, ◌^◌, ◌≤◌, ◌<◌, min, bit_and, bit_or, ◌≡◌, refl, sym, ap,
  ◌∙◌, fun_ext, ◌≢◌, ◌↔◌, ◌⊎◌, inl, inr, Bool, true, false, not, ◌&&◌, ◌||◌, Option, none, some,
  List, [], ◌∷◌, ◌++◌, map, append_assoc, append-nil, arith, ltb, leb, ◌==◌, if◌then◌else◌, ltb→lt,
  lt→ltb, ==_iff, Bool-cases, Option-cases, all_below, all_below_sound, update, length, get_or, set,
  take, drop, replicate, length-append, length-set, length-replicate, get_or-set_self,
  get_or-set_ne, set-set_back, get_or-out, take-suc-set, get_or-set_default, get_or-replicate,
  take-append_left, take-append_right, take-all, u8_mod, u32_mod, u64_mod, add32, add64, sub64,
  left_by, bind, bind_ext, bind-value, Result-cases, Outcome-cases, proceed, add_signed, to_int32,
  to_int64, Result, Outcome, ℤ, value, error, done, fail, pos, negsuc,
}

-- VMM_ERR_INVAL, VMM_ERR_NOMEM, VMM_ERR_EXISTS, VMM_ERR_NOT_FOUND
pub data VmmError : Type 0 where
  inval nomem exists not_found : VmmError

abbrev pub pte_huge : ℕ
pte_huge = 128

abbrev pub addr_mask : ℕ
addr_mask = 0x000FFFFFFFFFF000

-- The writable, user, write-through, cache-disable, global and no-execute bits.
abbrev pub allowed_flags : ℕ
allowed_flags = 2 + 4 + 8 + 16 + 256 + 2 ^ 63

-- struct vmm_space
pub record Space (S : Type 0) : Type 0 where
  pub root_paddr : ℕ
  pub alloc_frame : Option (S → ℕ × S)
  pub free_frame : Option (ℕ → S → S)
  pub has_virt : ℕ → Bool

-- The entries of the tables, and the frames.
pub record Memory (S : Type 0) : Type 0 where
  pub tables : ℕ → ℕ → ℕ
  pub frames : S

-- struct vmm_mapping
pub record Mapping : Type 0 where
  pub vaddr : ℕ
  pub paddr : ℕ
  pub flags : ℕ

pub is_aligned_4k : ℕ → Bool
is_aligned_4k n = bit_and n 4095 == 0

pub is_canonical : ℕ → Bool
is_canonical vaddr =
    if vaddr / 2 ^ 47 % 2 == 1 then vaddr / 2 ^ 48 == 0xFFFF else vaddr / 2 ^ 48 == 0

pub idx_pml4 : ℕ → ℕ
idx_pml4 vaddr = vaddr / 2 ^ 39 % 512

pub idx_pdpt : ℕ → ℕ
idx_pdpt vaddr = vaddr / 2 ^ 30 % 512

pub idx_pd : ℕ → ℕ
idx_pd vaddr = vaddr / 2 ^ 21 % 512

pub idx_pt : ℕ → ℕ
idx_pt vaddr = vaddr / 2 ^ 12 % 512

pub is_present : ℕ → Bool
is_present entry = not (bit_and entry 1 == 0)

pub is_huge : ℕ → Bool
is_huge entry = not (bit_and entry pte_huge == 0)

module _ {S : Type 0} where
  pub space_init :
      ℕ → Option (S → ℕ × S) → Option (ℕ → S → S) → (ℕ → Bool) → Result VmmError (Space S)
  space_init root_paddr alloc_frame free_frame has_virt =
      if is_aligned_4k root_paddr
      then value (record {
        root_paddr = root_paddr;
        alloc_frame = alloc_frame;
        free_frame = free_frame;
        has_virt = has_virt;
      })
      else error inval

  pub table_from_phys : Space S → ℕ → Result VmmError ℕ
  table_from_phys space paddr =
      if is_aligned_4k paddr && space.has_virt paddr then value paddr else error inval

  -- The table that an entry leads to.
  pub next_table : Space S → ℕ → Result VmmError ℕ
  next_table space entry =
      if not (is_present entry) || is_huge entry
      then error not_found
      else table_from_phys space (bit_and entry addr_mask)

  -- The walk of `vmm_query_page` and `vmm_unmap_page` to the last table.
  pub find_pt : Space S → ℕ → (ℕ → ℕ → ℕ) → Result VmmError ℕ
  find_pt space vaddr tables =
      if not (is_canonical vaddr) || not (is_aligned_4k vaddr)
      then error inval
      else bind (table_from_phys space space.root_paddr) λ pml4.
        bind (next_table space (tables pml4 (idx_pml4 vaddr))) λ pdpt.
          bind (next_table space (tables pdpt (idx_pdpt vaddr)))
            λ pd. next_table space (tables pd (idx_pd vaddr))

  pub query_page : Space S → ℕ → Memory S → Result VmmError Mapping
  query_page space vaddr m = bind (find_pt space vaddr m.tables) λ pt.
      let e = m.tables pt (idx_pt vaddr) in
      if is_present e
      then value (record {
        vaddr = vaddr;
        paddr = bit_and e addr_mask;
        flags = bit_and e (2 ^ 64 - 1 - addr_mask);
      })
      else error not_found

  abbrev pub set_pte : Memory S → ℕ → ℕ → ℕ → Memory S
  set_pte m table index entry = record m {
    tables = λ t i. if t == table && i == index then entry else m.tables t i;
  }

  unfoldable pub unmap_entry : ℕ → Memory S → ℕ → Outcome VmmError (Memory S) (Unit {0})
  unmap_entry vaddr m pt =
      if is_present (m.tables pt (idx_pt vaddr))
      then done tt (set_pte m pt (idx_pt vaddr) 0)
      else fail not_found m

  pub unmap_page : Space S → ℕ → Memory S → Outcome VmmError (Memory S) (Unit {0})
  unmap_page space vaddr m = elim (find_pt space vaddr m.tables) [
    | error e ↦ fail e m
    | value pt ↦ unmap_entry vaddr m pt
  ]

  abbrev zero_page : Memory S → ℕ → Memory S
  zero_page m table = record m { tables = λ t i. if t == table then 0 else m.tables t i }

  abbrev release : Space S → ℕ → Memory S → Memory S
  release space p m = elim space.free_frame [
    | none ↦ m
    | some free ↦ record m { frames = free p m.frames }
  ]

  -- A frame that was allocated becomes an empty table, and the entry leads to it. VMM_INVALID_PHYS is
  -- the largest number of 64 bits.
  place_table : Space S → ℕ → ℕ → ℕ → Memory S → Outcome VmmError (Memory S) ℕ
  place_table space table index p m =
      if p == 2 ^ 64 - 1 || not (is_aligned_4k p)
      then fail nomem m
      else elim (table_from_phys space p) [
        | error e ↦ fail e (release space p m)
        | value t ↦
            done t (set_pte (zero_page m t) table index (bit_or (bit_or (bit_and p addr_mask) 1) 2))
      ]

  alloc_table : Space S → ℕ → ℕ → Memory S → Outcome VmmError (Memory S) ℕ
  alloc_table space table index m = elim space.alloc_frame [
    | none ↦ fail nomem m
    | some alloc ↦
        place_table space table index (alloc m.frames).0 (record m { frames = (alloc m.frames).1 })
  ]

  -- The table that a present entry leads to.
  unfoldable pub present_table : Space S → ℕ → Memory S → Outcome VmmError (Memory S) ℕ
  present_table space entry m =
      if is_huge entry
      then fail exists m
      else elim (table_from_phys space (bit_and entry addr_mask)) [
        | error e ↦ fail e m
        | value t ↦ done t m
      ]

  pub get_or_alloc_next_table : Space S → ℕ → ℕ → Memory S → Outcome VmmError (Memory S) ℕ
  get_or_alloc_next_table space table index m =
      if is_present (m.tables table index)
      then present_table space (m.tables table index) m
      else alloc_table space table index m

  unfoldable pub map_entry : ℕ → ℕ → ℕ → ℕ → Memory S → Outcome VmmError (Memory S) (Unit {0})
  map_entry vaddr paddr flags pt m =
      if is_present (m.tables pt (idx_pt vaddr))
      then fail exists m
      else done tt (
          set_pte m pt (idx_pt vaddr)
            (bit_or (bit_or (bit_and paddr addr_mask) 1) (bit_and flags allowed_flags)))

  -- From the root on.
  unfoldable pub map_from :
      Space S → ℕ → ℕ → ℕ → ℕ → Memory S → Outcome VmmError (Memory S) (Unit {0})
  map_from space vaddr paddr flags pml4 m =
      proceed (get_or_alloc_next_table space pml4 (idx_pml4 vaddr) m) λ pdpt m1.
        proceed (get_or_alloc_next_table space pdpt (idx_pdpt vaddr) m1) λ pd m2.
          proceed (get_or_alloc_next_table space pd (idx_pd vaddr) m2)
            λ pt m3. map_entry vaddr paddr flags pt m3

  pub map_page : Space S → ℕ → ℕ → ℕ → Memory S → Outcome VmmError (Memory S) (Unit {0})
  map_page space vaddr paddr flags m =
      if not (is_canonical vaddr) || (not (is_aligned_4k vaddr) || not (is_aligned_4k paddr))
      then fail inval m
      else elim (table_from_phys space space.root_paddr) [
        | error e ↦ fail e m
        | value pml4 ↦ map_from space vaddr paddr flags pml4 m
      ]
