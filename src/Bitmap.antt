-- ===== src/Bitmap.antt =====
-- A set of numbers as the bits of an array of bytes. The page allocator (src/pmm.c) and the flat file
-- system (fs/mcsfs1/mcsfs1.c) have these three functions, and kernel/fs/mcsfs1j/m16_mcsfs_journal.c those
-- to set and to test a bit, with the same text up to their names. `x >> 3` is `x / 8` and `x & 7` is
-- `x % 8`.
pub mod Tables
pub mod Count
use acep_reja_mcsos.Common.{
  List, ℕ, get_or, bit_or, bit_and, Bool, set, ◌%◌, ◌^◌, ◌-◌, not, ◌/◌, u8_mod, ◌==◌, zero, suc,
  ◌+◌, ◌*◌, ◌≤◌, ◌<◌, min, ◌≡◌, refl, sym, ap, ◌∙◌, fun_ext, ◌≢◌, ◌↔◌, ◌⊎◌, inl, inr, true, false,
  ◌&&◌, ◌||◌, Option, none, some, [], ◌∷◌, ◌++◌, map, append_assoc, append-nil, arith, ltb, leb,
  if◌then◌else◌, ltb→lt, lt→ltb, ==_iff, Bool-cases, Option-cases, all_below, all_below_sound,
  update, length, take, drop, replicate, length-append, length-set, length-replicate,
  get_or-set_self, get_or-set_ne, set-set_back, get_or-out, take-suc-set, get_or-set_default,
  get_or-replicate, take-append_left, take-append_right, take-all, u32_mod, u64_mod, add32, add64,
  sub64, left_by, bind, bind_ext, bind-value, Result-cases, Outcome-cases, add_signed, to_int32,
  to_int64, proceed,
}

-- A byte that is read is an uint8_t.
abbrev pub load8 : List ℕ → ℕ → ℕ
load8 b i = get_or b i 0 % u8_mod

-- What is left of the byte when `1 << k` is put in, taken out, and asked for.
unfoldable pub byte_set : ℕ → ℕ → ℕ
byte_set x k = bit_or x (2 ^ k) % u8_mod

unfoldable pub byte_clear : ℕ → ℕ → ℕ
byte_clear x k = bit_and x (255 - 2 ^ k) % u8_mod

unfoldable pub byte_test : ℕ → ℕ → Bool
byte_test x k = not (bit_and x (2 ^ k) == 0)

unfoldable pub bit_set : List ℕ → ℕ → List ℕ
bit_set b i = set b (i / 8) (byte_set (load8 b (i / 8)) (i % 8))

unfoldable pub bit_clear : List ℕ → ℕ → List ℕ
bit_clear b i = set b (i / 8) (byte_clear (load8 b (i / 8)) (i % 8))

unfoldable pub bit_test : List ℕ → ℕ → Bool
bit_test b i = byte_test (load8 b (i / 8)) (i % 8)
