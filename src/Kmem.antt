-- ===== src/Kmem.antt =====
-- kernel/mm/kmem.c: the kernel heap, a list of blocks that lie one after the other.
-- `bytes` is the memory of the heap, and `blocks` gives the headers in it by their addresses. A write
-- to a header changes both, also where it lands in what was a payload, and so does zeroing a payload.
-- Only a header that a later header lies across is not read again; a heap in order has none. A pointer is
-- its address, 0 for NULL. KMEM_ALIGN is 16 in every call of the two functions that round up, so
-- `x & ~15` is `x / 16 * 16`. A code that a call returns is a signed number.
pub mod Chain
pub mod Touches
pub mod Alloc
pub mod Fresh
pub mod Calloc
pub mod Coalesce
pub mod Free
pub mod Freed
pub mod Checks
pub mod Init
pub mod Tally
mod Tests
use acep_reja_mcsos.Journal.Layout.{le}
use acep_reja_mcsos.Common.{
  ℕ, zero, suc, ◌+◌, ◌-◌, ◌*◌, ◌/◌, ◌%◌, ◌^◌, ◌≤◌, ◌<◌, min, bit_and, bit_or, ◌≡◌, refl, sym, ap,
  ◌∙◌, fun_ext, ◌≢◌, ◌↔◌, ◌⊎◌, inl, inr, Bool, true, false, not, ◌&&◌, ◌||◌, Option, none, some,
  List, [], ◌∷◌, ◌++◌, map, append_assoc, append-nil, arith, ltb, leb, ◌==◌, if◌then◌else◌, ltb→lt,
  lt→ltb, ==_iff, Bool-cases, Option-cases, all_below, all_below_sound, update, length, get_or, set,
  take, drop, replicate, length-append, length-set, length-replicate, get_or-set_self,
  get_or-set_ne, set-set_back, get_or-out, take-suc-set, get_or-set_default, get_or-replicate,
  take-append_left, take-append_right, take-all, u8_mod, u32_mod, u64_mod, add32, add64, sub64,
  left_by, bind, bind_ext, bind-value, Result-cases, Outcome-cases, proceed, add_signed, to_int32,
  to_int64, Result, Outcome, ℤ, value, error, done, fail, pos, negsuc,
}

abbrev pub block_magic : ℕ
block_magic = 0x4d43534f53484541

-- sizeof(kmem_block_t)
abbrev pub header_size : ℕ
header_size = 48

abbrev pub min_split : ℕ
min_split = 32

-- kmem_block_t; the reserved words are never read.
pub record Block : Type 0 where
  pub magic : ℕ
  pub size : ℕ
  pub free : Bool
  pub prev : ℕ
  pub next : ℕ

-- The static variables, the headers, and the bytes of the memory.
pub record Heap : Type 0 where
  pub base : ℕ
  pub end : ℕ
  pub head : ℕ
  pub initialized : Bool
  pub blocks : ℕ → Block
  pub bytes : ℕ → ℕ

-- kmem_align_up_size and kmem_align_up_ptr: 0 if the sum would wrap.
pub align_up : ℕ → ℕ
align_up n = if ltb (u64_mod - 1 - 15) n then 0 else (n + 15) / 16 * 16

abbrev pub payload : ℕ → ℕ
payload block = block + header_size

pub in_heap : Heap → ℕ → Bool
in_heap h p = h.initialized && (leb h.base p && ltb p h.end)

-- The 48 bytes of a header; its reserved words are never written.
pub header_bytes : Block → List ℕ
header_bytes b =
    le 8 b.magic
    ++ (le 8 b.size
        ++ (le 4 (if b.free then 1 else 0) ++ (replicate 12 0 ++ (le 8 b.prev ++ le 8 b.next))))

-- The memory with the header written at `p`.
pub put_header : (ℕ → ℕ) → ℕ → Block → ℕ → ℕ
put_header mem p b a =
    let i = a - p in
    if leb p a && ltb a (p + header_size)
    then if leb 20 i && ltb i 32 then mem a else get_or (header_bytes b) i 0
    else mem a

abbrev pub set_block : Heap → ℕ → Block → Heap
set_block h p b = record h { blocks = update h.blocks p b; bytes = put_header h.bytes p b }

-- `p->prev = q`, unless `p` is NULL
abbrev pub set_prev : Heap → ℕ → ℕ → Heap
set_prev h p q = if p == 0 then h else set_block h p (record (h.blocks p) { prev = q })

-- The new block at `new`, and the old one cut down to `wanted`.
pub link_new : Heap → ℕ → ℕ → ℕ → Heap
link_new h cur wanted new =
    let b = h.blocks cur in
    let h1 = set_block h new (record {
      magic = block_magic;
      size = b.size - (new - payload cur) - header_size;
      free = true;
      prev = cur;
      next = b.next;
    }) in
    let h2 = set_prev h1 b.next new in
    set_block h2 cur (record (h2.blocks cur) { next = new; size = wanted })

pub split_if_useful : Heap → ℕ → ℕ → Heap
split_if_useful h cur wanted =
    let size = (h.blocks cur).size in
    let new = align_up (payload cur + wanted) in
    if ltb size (add64 (add64 wanted header_size) min_split)
    then h
    else if new == 0
    then h
    else if leb h.end (new + header_size)
    then h
    else if leb size (add64 (add64 (new - payload cur) header_size) min_split)
    then h
    else link_new h cur wanted new

pub take_block : Heap → ℕ → ℕ → Heap
take_block h cur wanted =
    let h1 = split_if_useful h cur wanted in
    set_block h1 cur (record (h1.blocks cur) { free = false })

-- The loop of `kmem_alloc` with fuel for `n` rounds: the payload, or NULL.
pub alloc_from : Heap → ℕ → ℕ → ℕ → ℕ × Heap
alloc_from h wanted zero cur = (0, h)
alloc_from h wanted (suc n) cur =
    let b = h.blocks cur in
    let rest = alloc_from h wanted n b.next in
    if cur == 0
    then (0, h)
    else if not (b.magic == block_magic)
    then (0, h)
    else if b.free && leb wanted b.size
    then (payload cur, take_block h cur wanted)
    else rest

-- One round more than headers fit in the heap.
abbrev pub rounds : Heap → ℕ
rounds h = (h.end - h.base) / header_size + 1

pub kmem_alloc : Heap → ℕ → ℕ × Heap
kmem_alloc h bytes =
    if not h.initialized || bytes == 0
    then (0, h)
    else if align_up bytes == 0
    then (0, h)
    else alloc_from h (align_up bytes) (rounds h) h.head

-- kmem_memset with the value 0
pub zero_bytes : (ℕ → ℕ) → ℕ → ℕ → ℕ → ℕ
zero_bytes mem p n a = if leb p a && ltb a (p + n) then 0 else mem a

-- The number in the `k` bytes from `a` on
pub number : (ℕ → ℕ) → ℕ → ℕ → ℕ
number mem zero a = 0
number mem (suc k) a = mem a + 256 * number mem k (a + 1)

-- The header that the memory has at `a`.
pub header_at : (ℕ → ℕ) → ℕ → Block
header_at mem a = record {
  magic = number mem 8 a;
  size = number mem 8 (a + 8);
  free = not (number mem 4 (a + 16) == 0);
  prev = number mem 8 (a + 32);
  next = number mem 8 (a + 40);
}

-- What the headers are once the `n` bytes from `p` on have changed to those of `mem`.
pub reread : (ℕ → Block) → (ℕ → ℕ) → ℕ → ℕ → ℕ → Block
reread blocks mem p n a =
    if ltb p (a + header_size) && ltb a (p + n) then header_at mem a else blocks a

pub clear_payload : ℕ → ℕ × Heap → ℕ × Heap
clear_payload total (p, h) =
    let mem = zero_bytes h.bytes p total in
    if p == 0 then (p, h) else (p, record h { blocks = reread h.blocks mem p total; bytes = mem })

pub kmem_calloc : Heap → ℕ → ℕ → ℕ × Heap
kmem_calloc h count bytes =
    if not (count == 0) && ltb ((u64_mod - 1) / count) bytes
    then (0, h)
    else clear_payload (count * bytes) (kmem_alloc h (count * bytes))

-- The block after `p` becomes part of `p`, and its header is wiped.
pub absorb : Heap → ℕ → Heap
absorb h p =
    let b = h.blocks p in
    let nb = h.blocks b.next in
    let h1 =
      set_block h p (record b { size = add64 b.size (header_size + nb.size); next = nb.next }) in
    let h2 = set_prev h1 nb.next p in
    set_block h2 b.next (record (h2.blocks b.next) { magic = 0; size = 0; prev = 0; next = 0 })

-- The loop of `kmem_coalesce_forward` with fuel for `n` rounds.
pub coalesce_forward : ℕ → Heap → ℕ → Heap
coalesce_forward zero h p = h
coalesce_forward (suc n) h p =
    let b = h.blocks p in
    let rest = coalesce_forward n (absorb h p) p in
    if p == 0 || (b.next == 0 || not (h.blocks b.next).free)
    then h
    else if not (align_up (payload p + b.size) == b.next)
    then h
    else rest

-- The loop of `kmem_validate`; the rounds left are 1048576 less its guard.
pub validate_from : Heap → ℕ → ℕ → ℕ → ℕ → ℤ
validate_from h zero prev cursor cur = if cur == 0 then pos 0 else negsuc 2
validate_from h (suc n) prev cursor cur =
    let b = h.blocks cur in
    let next_cursor = align_up (payload cur + b.size) in
    let rest = validate_from h n cur next_cursor b.next in
    if cur == 0
    then pos 0
    else if not (cur == cursor)
    then negsuc 3
    else if ltb cur h.base || ltb h.end (cur + header_size)
    then negsuc 4
    else if not (b.magic == block_magic)
    then negsuc 5
    else if not (b.prev == prev)
    then negsuc 6
    else if ltb (h.end - payload cur) b.size
    then negsuc 7
    else if next_cursor == 0 || ltb h.end next_cursor
    then negsuc 8
    else rest

abbrev pub max_blocks : ℕ
max_blocks = 1048576

pub kmem_validate : Heap → ℤ
kmem_validate h =
    if not h.initialized || (h.base == 0 || (leb h.end h.base || h.head == 0))
    then negsuc 0
    else if not (h.head == h.base)
    then negsuc 1
    else validate_from h max_blocks 0 h.base h.head

abbrev pub only_block : ℕ → Block
only_block usable = record {
  magic = block_magic;
  size = usable - header_size;
  free = true;
  prev = 0;
  next = 0;
}

-- The heap with one free block.
pub first_block : Heap → ℕ → ℕ → Heap
first_block h start usable = record {
  base = start;
  end = start + usable;
  head = start;
  initialized = true;
  blocks = update h.blocks start (only_block usable);
  bytes = put_header h.bytes start (only_block usable);
}

pub kmem_init : Heap → ℕ → ℕ → ℤ × Heap
kmem_init h base bytes =
    let start = align_up base in
    let lost = start - base in
    let usable = (bytes - lost) / 16 * 16 in
    if base == 0 || ltb bytes (header_size + min_split)
    then (negsuc 0, h)
    else if start == 0 || ltb start base
    then (negsuc 1, h)
    else if leb bytes (lost + header_size + min_split)
    then (negsuc 2, h)
    else if leb usable (header_size + min_split)
    then (negsuc 3, h)
    else (kmem_validate (first_block h start usable), first_block h start usable)

-- Both calls of `kmem_coalesce_forward`.
pub merge_free : Heap → ℕ → Heap
merge_free h block =
    let h1 = set_block h block (record (h.blocks block) { free = true }) in
    let h2 = coalesce_forward (rounds h) h1 block in
    let p = (h2.blocks block).prev in
    if not (p == 0) && (h2.blocks p).free then coalesce_forward (rounds h) h2 p else h2

pub kmem_free_checked : Heap → ℕ → ℤ × Heap
kmem_free_checked h ptr =
    let block = ptr - header_size in
    if ptr == 0
    then (pos 0, h)
    else if not (in_heap h ptr)
    then (negsuc 0, h)
    else if not (ptr % 16 == 0)
    then (negsuc 1, h)
    else if not (in_heap h block) || not ((h.blocks block).magic == block_magic)
    then (negsuc 2, h)
    else if (h.blocks block).free
    then (negsuc 3, h)
    else (kmem_validate (merge_free h block), merge_free h block)

-- kmem_stats_t
pub record Stats : Type 0 where
  pub total_bytes : ℕ
  pub used_bytes : ℕ
  pub free_bytes : ℕ
  pub block_count : ℕ
  pub free_count : ℕ
  pub largest_free : ℕ

-- One round of the loop of `kmem_get_stats`.
pub count_block : Stats → Block → Stats
count_block s b =
    if b.free
    then record s {
      block_count = s.block_count + 1;
      free_count = s.free_count + 1;
      free_bytes = add64 s.free_bytes b.size;
      largest_free = if ltb s.largest_free b.size then b.size else s.largest_free;
    }
    else record s { block_count = s.block_count + 1; used_bytes = add64 s.used_bytes b.size }

pub stats_from : Heap → ℕ → Stats → ℕ → Stats
stats_from h zero s cur = s
stats_from h (suc n) s cur =
    let rest = stats_from h n (count_block s (h.blocks cur)) (h.blocks cur).next in
    if cur == 0 then s else rest

pub kmem_get_stats : Heap → Stats
kmem_get_stats h =
    let none_yet : Stats = record {
      total_bytes = 0;
      used_bytes = 0;
      free_bytes = 0;
      block_count = 0;
      free_count = 0;
      largest_free = 0;
    } in
    if not h.initialized
    then none_yet
    else stats_from h (rounds h) (record none_yet { total_bytes = h.end - h.base }) h.head
