-- ===== src/Vfs/Ramfs.antt =====
-- kernel/vfs/ramfs.c: looking up and creating nodes by path, and seeding a file.
use acep_reja_mcsos.Vfs.{
  Error, Vnode, max_name, RamFs, enoent, einval, VnodeType, file, dir, is_dir, enospc, enotdir,
  max_path, max_nodes, eisdir, enametoolong, data_bytes,
}
use acep_reja_mcsos.Common.{
  ℕ, zero, suc, ◌+◌, ◌-◌, ◌%◌, Bool, true, false, not, ◌&&◌, ◌||◌, Option, none, some, List, [],
  ◌∷◌, ◌++◌, ltb, leb, ◌==◌, if◌then◌else◌, update, length, get_or, take, drop, replicate, u32_mod,
  bind, Result, Outcome, value, error, done, fail,
}

-- `b[i]` past the end of a string is its terminating 0.
unfoldable pub streq_n : List ℕ → List ℕ → ℕ → Bool
streq_n a b zero = get_or b 0 0 == 0
streq_n a b (suc n) = get_or a 0 0 == get_or b 0 0 && streq_n (drop 1 a) (drop 1 b) n

-- The 32 bytes of a name: its first `n` bytes, 31 of them at most, and zeros.
unfoldable pub copy_name : List ℕ → ℕ → List ℕ
copy_name src n =
    let k = if ltb n (max_name - 1) then n else max_name - 1 in
    take k src ++ replicate (max_name - k) 0

-- `copy_bytes(&data[at], src, len)`
unfoldable pub copy_bytes : (ℕ → ℕ) → ℕ → List ℕ → ℕ → ℕ
copy_bytes mem at [] = mem
copy_bytes mem at (x ∷ xs) = copy_bytes (update mem at x) (at + 1) xs

-- The loop over the nodes with `n` rounds left, the next node at `i`.
unfoldable pub find_child_from : RamFs → ℕ → List ℕ → ℕ → ℕ → ℕ → Option ℕ
find_child_from fs parent name name_len zero i = none
find_child_from fs parent name name_len (suc n) i =
    let rest = find_child_from fs parent name name_len n (i + 1) in
    let node = fs.nodes i in
    if node.used && (node.parent == parent && streq_n name node.name name_len) then some i else rest

abbrev pub or_enoent : Option ℕ → Result Error ℕ
or_enoent none = error enoent
or_enoent (some i) = value i

unfoldable pub find_child : RamFs → ℕ → List ℕ → ℕ → Result Error ℕ
find_child fs parent name name_len =
    if name_len == 0 || leb max_name name_len
    then error einval
    else or_enoent (find_child_from fs parent name name_len fs.node_count 0)

-- How far `next` runs from `seg`: to the next slash, or to the end.
unfoldable pub seg_len : List ℕ → ℕ
seg_len [] = 0
seg_len (c ∷ cs) = let rest = seg_len cs in if c == b'/' then 0 else suc rest

-- The loop of `mcs_ramfs_lookup` with fuel for `n` rounds.
unfoldable pub walk : RamFs → ℕ → ℕ → List ℕ → Result Error ℕ
walk fs zero cur seg = error einval
walk fs (suc n) cur seg =
    let len = seg_len seg in
    if length seg == 0 || (len == 0 || leb max_name len)
    then error einval
    else bind (find_child fs (fs.nodes cur).id seg len) λ child.
      let rest = walk fs n child (drop (len + 1) seg) in
      if leb (length seg) len
      then value child
      else if is_dir (fs.nodes child).type
      then rest
      else error enotdir

unfoldable pub ramfs_lookup : RamFs → List ℕ → Result Error ℕ
ramfs_lookup fs path =
    if not (get_or path 0 0 == b'/')
    then error einval
    else if leb max_path (length path)
    then error enametoolong
    else if length path == 1
    then value 0
    else walk fs (length path) 0 (drop 1 path)

-- The loop of `mcs_split_parent_leaf`: the parent, the leaf and its length.
unfoldable pub walk_parent : RamFs → ℕ → ℕ → List ℕ → Result Error (ℕ × List ℕ × ℕ)
walk_parent fs zero cur seg = error einval
walk_parent fs (suc n) cur seg =
    let len = seg_len seg in
    if len == 0 || leb max_name len
    then error einval
    else if leb (length seg) len
    then value (cur, seg, len)
    else bind (find_child fs (fs.nodes cur).id seg len) λ child.
      let rest = walk_parent fs n child (drop (len + 1) seg) in
      if is_dir (fs.nodes child).type then rest else error enotdir

unfoldable pub split_parent_leaf : RamFs → List ℕ → Result Error (ℕ × List ℕ × ℕ)
split_parent_leaf fs path =
    if not (get_or path 0 0 == b'/')
    then error einval
    else if length path == 1
    then error einval
    else if leb max_path (length path)
    then error enametoolong
    else walk_parent fs (length path) 0 (drop 1 path)

-- The node that `mcs_alloc_node` fills in at the end of the array.
abbrev pub new_node : RamFs → ℕ → VnodeType → List ℕ → ℕ → ℕ → Vnode
new_node fs parent type name name_len capacity = record {
  used = true;
  id = fs.node_count % u32_mod;
  parent = parent;
  type = type;
  name = copy_name name name_len;
  size = 0;
  data_offset = if is_dir type then 0 else fs.data_used;
  data_capacity = if is_dir type then 0 else capacity;
}

unfoldable pub alloc_node : RamFs → ℕ → VnodeType → List ℕ → ℕ → ℕ → Result Error (ℕ × RamFs)
alloc_node fs parent type name name_len capacity =
    if name_len == 0 || leb max_name name_len
    then error einval
    else if leb max_nodes fs.node_count
    then error enospc
    else if not (is_dir type) && ltb data_bytes (fs.data_used + capacity)
    then error enospc
    else value (
      fs.node_count,
      record {
        nodes = update fs.nodes fs.node_count (new_node fs parent type name name_len capacity);
        node_count = fs.node_count + 1;
        bytes = fs.bytes;
        data_used = if is_dir type then fs.data_used else fs.data_used + capacity;
      },
    )

-- The name of an unused node keeps all but its first byte; only that byte is written, and it is read
-- in no unused node.
abbrev blank_node : Vnode
blank_node = record {
  used = false;
  id = 0;
  parent = 0;
  type = file;
  name = replicate max_name 0;
  size = 0;
  data_offset = 0;
  data_capacity = 0;
}

abbrev root_node : Vnode
root_node = record blank_node { used = true; type = dir; name = b'/' ∷ replicate 31 0 }

unfoldable pub ramfs_init : RamFs
ramfs_init = record {
  nodes = update (λ _. blank_node) 0 root_node;
  node_count = 1;
  bytes = λ _. 0;
  data_used = 0;
}

-- A file of 256 bytes under the parent that was found.
unfoldable pub create_in : RamFs → ℕ × List ℕ × ℕ → Result Error (ℕ × RamFs)
create_in fs (parent, leaf, leaf_len) =
    if is_dir (fs.nodes parent).type
    then alloc_node fs (fs.nodes parent).id file leaf leaf_len 256
    else error enotdir

unfoldable pub ramfs_create_file : RamFs → List ℕ → Result Error (ℕ × RamFs)
ramfs_create_file fs path = elim (ramfs_lookup fs path) [
  | value existing ↦ if is_dir (fs.nodes existing).type then error eisdir else value (existing, fs)
  | error _ ↦ bind (split_parent_leaf fs path) (create_in fs)
]

-- A seed that is too long fails after the file is created.
unfoldable pub ramfs_seed_file : RamFs → List ℕ → List ℕ → Outcome Error RamFs (Unit {0})
ramfs_seed_file fs path src = elim (ramfs_create_file fs path) [
  | error e ↦ fail e fs
  | value (node, fs') ↦
      if ltb (fs'.nodes node).data_capacity (length src)
      then fail enospc fs'
      else done tt (record fs' {
        bytes = copy_bytes fs'.bytes (fs'.nodes node).data_offset src;
        nodes = update fs'.nodes node (record (fs'.nodes node) { size = length src });
      })
]
