-- ===== src/Elf/Ranges.antt =====
-- The range checks of the loader, free of wrap-around.
use acep_reja_mcsos.Elf.Plan.{checked}
use Prim.Native.Nat.pow
use native.Mathlib.Nat.{pow-suc}
use acep_reja_mcsos.Elf.{
  load, validate_load_segment, Phdr, validate_user_range, UserRegion, read_phdr, range_status,
  flags_ok, add_overflow_u64, ok, align_ok, Status,
}
use acep_reja_mcsos.Common.{
  ℕ, zero, suc, ◌+◌, ◌^◌, ◌≤◌, ◌<◌, ◌≡◌, refl, ◌↔◌, inr, Bool, true, false, List, arith,
}

abbrev pub is_ok : Status → Bool
is_ok ok = true
is_ok rc = false

pub is_ok_iff : (rc : Status) → (is_ok rc ≡ true) ↔ (rc ≡ ok)
is_ok_iff ok = ((λ h. refl), (λ h. refl))
is_ok_iff rc = ((λ h. absurd (cc)), (λ h. cc))

pub checked-refused {ℓ} :
    {A : Type ℓ} (rc : Status) (x : A) → is_ok rc ≡ false → checked rc x ≡ inr rc
unfolding checked
checked-refused ok x h = absurd (cc)
checked-refused rc x h = refl

pub load-lt : (k : ℕ) (image : List ℕ) (at : ℕ) → load k image at < 256 ^ k
unfolding load
load-lt zero image at = omega (arith, pow.zero 256)
load-lt (suc k) image at = omega (arith, load-lt k image (at + 1), pow-suc 256 k)

-- The bytes from `base` on are some, and lie in the region.
pub record InRegion (region : UserRegion) (base size : ℕ) : Type 0 where
  pub some_bytes : 0 < size
  pub above : region.base ≤ base
  pub below : base + size ≤ region.limit

-- On 64-bit numbers, m11_validate_user_range admits a range exactly if it has a byte and lies in the
-- region without wrapping around.
pub validate_user_range-ok_iff :
    (region : UserRegion) (base size : ℕ)
    → base < 2 ^ 64
    → size < 2 ^ 64
    → region.limit < 2 ^ 64
    → (validate_user_range region base size ≡ ok) ↔ InRegion region base size
unfolding validate_user_range range_status add_overflow_u64
validate_user_range-ok_iff region base size b s l = (
  (λ h. record { some_bytes = ground arith; above = ground arith; below = ground arith }),
  (λ r. ground (arith, r.some_bytes, r.above, r.below)),
)

-- The numbers of a program header fit their fields.
pub record FitsPhdr (ph : Phdr) : Type 0 where
  pub offset : ph.p_offset < 2 ^ 64
  pub vaddr : ph.p_vaddr < 2 ^ 64
  pub filesz : ph.p_filesz < 2 ^ 64
  pub memsz : ph.p_memsz < 2 ^ 64

pub read_phdr-FitsPhdr : (image : List ℕ) (at : ℕ) → FitsPhdr (read_phdr image at)
unfolding read_phdr
read_phdr-FitsPhdr image at = record {
  offset = load-lt 8 image (at + 8);
  vaddr = load-lt 8 image (at + 16);
  filesz = load-lt 8 image (at + 32);
  memsz = load-lt 8 image (at + 40);
}

-- What a segment must be: never writable and executable at once, its alignment respected, its bytes
-- in the file, and its memory in the region and no smaller than those bytes.
pub record IsLoadable (ph : Phdr) (image_size : ℕ) (region : UserRegion) : Type 0 where
  pub flags : flags_ok ph.p_flags ≡ true
  pub align : align_ok ph.p_align ph.p_vaddr ph.p_offset ≡ true
  pub fits : ph.p_filesz ≤ ph.p_memsz
  pub in_file : ph.p_offset + ph.p_filesz ≤ image_size
  pub in_region : InRegion region ph.p_vaddr ph.p_memsz

-- A segment is admitted exactly if it is such a one.
pub validate_load_segment-ok_iff :
    (ph : Phdr) (image_size : ℕ) (region : UserRegion)
    → FitsPhdr ph
    → image_size < 2 ^ 64
    → region.limit < 2 ^ 64
    → (validate_load_segment ph image_size region ≡ ok) ↔ IsLoadable ph image_size region
unfolding validate_load_segment add_overflow_u64
validate_load_segment-ok_iff ph image_size region f s l =
    let range = validate_user_range-ok_iff region ph.p_vaddr ph.p_memsz f.vaddr f.memsz l in
    (
      (λ h. record {
        flags = ground (arith, f.offset, f.filesz);
        align = ground (arith, f.offset, f.filesz);
        fits = ground (arith, f.offset, f.filesz);
        in_file = ground (arith, f.offset, f.filesz);
        in_region = range.0 (ground (arith, f.offset, f.filesz));
      }),
      (λ r.
          let inside = range.1 r.in_region in
          ground (arith, f.offset, f.filesz, r.flags, r.align, r.fits, r.in_file)),
    )
