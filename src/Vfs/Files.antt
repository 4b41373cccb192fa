-- ===== src/Vfs/Files.antt =====
-- kernel/vfs/fd.c: the table of open files. A call is a function on the state that returns a value or
-- a negative code, and the state as it leaves it. A user buffer is the list of its bytes.
-- Offsets and sizes are unbounded; a seek whose sum leaves the range of long is undefined in C.
use acep_reja_mcsos.Vfs.Ramfs.{ramfs_lookup, ramfs_create_file, copy_bytes}
use acep_reja_mcsos.Vfs.{
  max_open_files, World, File, is_dir, ebadf, Error, Vnode, enfile, eisdir, einval, eacces, enospc,
}
use acep_reja_mcsos.Common.{
  ℕ, zero, suc, ◌+◌, ◌-◌, bit_and, bit_or, Bool, true, false, not, ◌&&◌, ◌||◌, Option, none, some,
  List, [], ◌∷◌, ltb, leb, ◌==◌, if◌then◌else◌, update, length, add_signed, to_int32, Outcome, ℤ,
  value, error, done, fail, pos, negsuc,
}

abbrev pub o_creat : ℕ
o_creat = 0x100

abbrev pub o_trunc : ℕ
o_trunc = 0x200

abbrev pub o_append : ℕ
o_append = 0x400

abbrev pub has : ℕ → ℕ → Bool
has flags bit = not (bit_and flags bit == 0)

unfoldable pub can_read : ℕ → Bool
can_read flags = has flags 1 || has flags 4

unfoldable pub can_write : ℕ → Bool
can_write flags = has flags 2 || has flags 4

abbrev pub M : Type 0 → Type 0
M A = World → Outcome Error World A

abbrev pub closed_file : File
closed_file = record { used = false; flags = 0; offset = 0; node = none; fs = false }

unfoldable pub fd_table_init : ℕ → File
fd_table_init fd = closed_file

-- Writes to one entry of the table, to one node, and to the bytes.
abbrev pub set_file : World → ℕ → File → World
set_file w fd f = record w { files = update w.files fd f }

abbrev pub set_node : World → ℕ → Vnode → World
set_node w n v = record w { ramfs = record w.ramfs { nodes = update w.ramfs.nodes n v } }

unfoldable pub fd_get : World → ℤ → Option ℕ
fd_get w (negsuc n) = none
fd_get w (pos fd) =
    if leb max_open_files fd then none else if (w.files fd).used then some fd else none

-- The first unused entry among `n` from `fd` on.
unfoldable pub fd_scan : (ℕ → File) → ℕ → ℕ → Option ℕ
fd_scan files zero fd = none
fd_scan files (suc n) fd =
    let rest = fd_scan files n (fd + 1) in if (files fd).used then rest else some fd

unfoldable pub fd_alloc : M ℕ
fd_alloc w = elim (fd_scan w.files max_open_files 0) [
  | none ↦ fail enfile w
  | some fd ↦ done fd (set_file w fd (record (w.files fd) { used = true }))
]

-- The node that `mcs_vfs_open` opens: one that is there, or a new one.
unfoldable pub open_node : List ℕ → ℕ → M ℕ
open_node path flags w = elim (ramfs_lookup w.ramfs path) [
  | value node ↦ done node w
  | error e ↦
      if has flags o_creat
      then elim (ramfs_create_file w.ramfs path) [
        | value (node, fs') ↦ done node (record w { ramfs = fs' })
        | error e' ↦ fail e' w
      ]
      else fail e w
]

-- What is written to the new descriptor, and the truncation.
unfoldable pub open_file : ℕ → ℕ → ℕ → World → Outcome Error World ℕ
open_file flags node fd w =
    let size = (w.ramfs.nodes node).size in
    let f : File = record {
      used = (w.files fd).used;
      flags = flags;
      node = some node;
      fs = true;
      offset = if has flags o_append then size else 0;
    } in
    if not (has flags o_trunc)
    then done fd (set_file w fd f)
    else if can_write flags
    then done fd (
        set_node (set_file w fd (record f { offset = 0 })) node
          (record (w.ramfs.nodes node) { size = 0 }))
    else fail eacces (set_file w fd (record f { used = false; node = none; fs = false }))

-- From the node on.
unfoldable pub open_at : ℕ → ℕ → M ℕ
open_at flags node w =
    if is_dir (w.ramfs.nodes node).type && can_write flags
    then fail eisdir w
    else elim (fd_alloc w) [ fail e w' ↦ fail e w' | done fd w' ↦ open_file flags node fd w' ]

-- Without one of the three modes a file is opened for reading.
abbrev pub open_flags : ℕ → ℕ
open_flags flags = if bit_and flags 7 == 0 then bit_or flags 1 else flags

unfoldable pub vfs_open : List ℕ → ℕ → M ℕ
vfs_open path flags w = elim (open_node path (open_flags flags) w) [
  | fail e w' ↦ fail e w'
  | done node w' ↦ open_at (open_flags flags) node w'
]

-- `n` bytes from `at` on.
unfoldable pub read_bytes : (ℕ → ℕ) → ℕ → ℕ → List ℕ
read_bytes mem at zero = []
read_bytes mem at (suc n) = mem at ∷ read_bytes mem (at + 1) n

abbrev pub min_size : ℕ → ℕ → ℕ
min_size a b = if ltb a b then a else b

-- A read of an open file; the number that it returns is the length of the bytes.
unfoldable pub read_node : ℕ → File → ℕ → ℕ → M (List ℕ)
read_node fd f node len w =
    let v = w.ramfs.nodes node in
    let n = min_size len (v.size - f.offset) in
    if is_dir v.type
    then fail eisdir w
    else if leb v.size f.offset
    then done [] w
    else done (read_bytes w.ramfs.bytes (v.data_offset + f.offset) n)
        (set_file w fd (record f { offset = f.offset + n }))

-- The node of a file, if neither of its pointers is NULL.
abbrev pub file_node : File → Option ℕ
file_node f = if f.fs then f.node else none

unfoldable pub vfs_read : ℤ → ℕ → M (List ℕ)
vfs_read fd len w = elim (fd_get w fd) [
  | none ↦ fail ebadf w
  | some i ↦
      if can_read (w.files i).flags
      then elim (file_node (w.files i)) [
        | none ↦ fail einval w
        | some node ↦ read_node i (w.files i) node len w
      ]
      else fail eacces w
]

-- The bytes are written, and the offset and the size move.
unfoldable pub write_at : ℕ → File → ℕ → ℕ → List ℕ → World → World
write_at fd f node offset src w =
    let v = w.ramfs.nodes node in
    let end = offset + length src in
    record {
      files = update w.files fd (record f { offset = end });
      ramfs = record w.ramfs {
        bytes = copy_bytes w.ramfs.bytes (v.data_offset + offset) src;
        nodes =
            update w.ramfs.nodes node (record v { size = if ltb v.size end then end else v.size });
      };
    }

-- An append moves the offset to the end first, and that stays when the write fails.
unfoldable pub write_node : ℕ → File → ℕ → List ℕ → M ℕ
write_node fd f node src w =
    let v = w.ramfs.nodes node in
    let offset = if has f.flags o_append then v.size else f.offset in
    let w' = set_file w fd (record f { offset = offset }) in
    if is_dir v.type
    then fail eisdir w
    else if ltb v.data_capacity offset
    then fail einval w'
    else if ltb (min_size (length src) (v.data_capacity - offset)) (length src)
    then fail enospc w'
    else done (length src) (write_at fd f node offset src w)

unfoldable pub vfs_write : ℤ → List ℕ → M ℕ
vfs_write fd src w = elim (fd_get w fd) [
  | none ↦ fail ebadf w
  | some i ↦
      if can_write (w.files i).flags
      then elim (file_node (w.files i)) [
        | none ↦ fail einval w
        | some node ↦ write_node i (w.files i) node src w
      ]
      else fail eacces w
]

-- Where a seek starts from: MCS_SEEK_SET, MCS_SEEK_CUR, MCS_SEEK_END.
unfoldable pub seek_base : File → Vnode → ℤ → Option ℕ
seek_base f v (negsuc n) = none
seek_base f v (pos whence) =
    if whence == 0
    then some 0
    else if whence == 1
    then some f.offset
    else if whence == 2
    then some v.size
    else none

-- The result is the new offset cast to int.
unfoldable pub seek_to : ℕ → File → ℤ → World → Outcome Error World ℤ
seek_to fd f (negsuc n) w = fail einval w
seek_to fd f (pos next) w = done (to_int32 next) (set_file w fd (record f { offset = next }))

unfoldable pub seek_node : ℕ → File → ℕ → ℤ → ℤ → World → Outcome Error World ℤ
seek_node fd f node offset whence w =
    if is_dir (w.ramfs.nodes node).type
    then fail eisdir w
    else elim (seek_base f (w.ramfs.nodes node) whence) [
      | none ↦ fail einval w
      | some base ↦ seek_to fd f (add_signed base offset) w
    ]

unfoldable pub vfs_lseek : ℤ → ℤ → ℤ → M ℤ
vfs_lseek fd offset whence w = elim (fd_get w fd) [
  | none ↦ fail ebadf w
  | some i ↦ elim (w.files i).node [
    | none ↦ fail eisdir w
    | some node ↦ seek_node i (w.files i) node offset whence w
  ]
]

unfoldable pub vfs_close : ℤ → M (Unit {0})
vfs_close fd w = elim (fd_get w fd) [
  | none ↦ fail ebadf w
  | some i ↦ done tt (set_file w i closed_file)
]

unfoldable pub vfs_dup : ℤ → M ℕ
vfs_dup fd w = elim (fd_get w fd) [
  | none ↦ fail ebadf w
  | some i ↦ elim (fd_alloc w) [
    | fail e w' ↦ fail e w'
    | done newfd w' ↦
        done newfd (set_file w' newfd (record (w'.files i) { used = (w'.files newfd).used }))
  ]
]
