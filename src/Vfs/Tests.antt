-- ===== src/Vfs/Tests.antt =====
-- Two files, "/a" and "/b", that are created, written and read.
use acep_reja_mcsos.Vfs.ReadBack.{vfs_write-vfs_read}
use acep_reja_mcsos.Vfs.Nodes.{ramfs_init-IsValid}
use acep_reja_mcsos.Vfs.Entries.{vfs_close-stale}
use acep_reja_mcsos.Vfs.Create.{with_file, ramfs_create_file-lookup}
use acep_reja_mcsos.Vfs.Writes.{vfs_write-others, write_offset, vfs_write-content}
use acep_reja_mcsos.Vfs.Paths.{resolve, segments, ramfs_lookup_lem}
use acep_reja_mcsos.Vfs.Ramfs.{
  ramfs_lookup, ramfs_init, walk, find_child, find_child_from, streq_n, seg_len, ramfs_create_file,
  copy_name, split_parent_leaf, walk_parent, create_in, alloc_node,
}
use acep_reja_mcsos.Vfs.Files.{
  fd_table_init, fd_get, vfs_close, vfs_read, vfs_write, can_read, write_node, vfs_lseek, vfs_open,
  can_write, vfs_dup, open_at, open_file, fd_alloc, fd_scan, open_node,
}
use acep_reja_mcsos.Vfs.Contents.{content, splice}
use acep_reja_mcsos.Vfs.Calls.{run, Call, open_path, run-IsValidWorld, step}
use acep_reja_mcsos.Vfs.State.{IsValidWorld}
use acep_reja_mcsos.Vfs.{RamFs, World, file, ebadf}
use acep_reja_mcsos.Common.{
  ℕ, ◌≤◌, ◌≡◌, refl, true, some, List, [], ◌∷◌, arith, left_by, value, done, fail, pos,
}

abbrev path_a : List ℕ
path_a = b'a' ∷ []

abbrev path_b : List ℕ
path_b = b'b' ∷ []

abbrev three_bytes : List ℕ
three_bytes = 1 ∷ 2 ∷ 3 ∷ []

-- MCS_O_RDWR | MCS_O_CREAT
abbrev flags_rw : ℕ
flags_rw = 0x104

abbrev empty_world : World
empty_world = record { files = fd_table_init; ramfs = ramfs_init }

empty_world-IsValidWorld : IsValidWorld empty_world
unfolding fd_table_init
empty_world-IsValidWorld = record {
  ramfs = ramfs_init-IsValid;
  node_in_range = λ fd n is. absurd (cc);
}

abbrev fs_a : RamFs
fs_a = with_file ramfs_init 0 path_a 1

abbrev fs_ab : RamFs
fs_ab = with_file fs_a 0 path_b 1

created_a : ramfs_create_file ramfs_init (b'/' ∷ path_a) ≡ value (1, fs_a)
unfolding ramfs_lookup walk find_child find_child_from streq_n seg_len ramfs_init ramfs_create_file
    split_parent_leaf walk_parent create_in alloc_node copy_name
created_a = refl

created_b : ramfs_create_file fs_a (b'/' ∷ path_b) ≡ value (2, fs_ab)
unfolding ramfs_lookup walk find_child find_child_from streq_n seg_len ramfs_init ramfs_create_file
    split_parent_leaf walk_parent create_in alloc_node copy_name
created_b = refl

led_a : ramfs_lookup fs_a (b'/' ∷ path_a) ≡ value 1
unfolding ramfs_lookup walk find_child find_child_from streq_n seg_len ramfs_init copy_name
led_a = refl

ramfs_lookup_lem_example : ramfs_lookup fs_a (b'/' ∷ path_a) ≡ resolve fs_a 0 (segments path_a)
ramfs_lookup_lem_example = ramfs_lookup_lem fs_a path_a (λ e. absurd (cc)) (omega arith)

ramfs_create_file-lookup_example :
    (ramfs_lookup fs_a (b'/' ∷ path_a) ≡ value 1) × ((fs_a.nodes 1).type ≡ file)
ramfs_create_file-lookup_example =
    ramfs_create_file-lookup ramfs_init path_a 1 fs_a (ramfs_init-IsValid.root) (λ e. absurd (cc))
      (omega arith) created_a

abbrev two_files : List Call
two_files = open_path (b'/' ∷ path_a) flags_rw ∷ open_path (b'/' ∷ path_b) flags_rw ∷ []

abbrev world_ab : World
world_ab = run two_files empty_world

run-IsValidWorld_example : IsValidWorld world_ab
run-IsValidWorld_example = run-IsValidWorld two_files empty_world empty_world-IsValidWorld

world_ab-IsValidWorld : IsValidWorld world_ab
world_ab-IsValidWorld = run-IsValidWorld two_files empty_world empty_world-IsValidWorld

entry_a : fd_get world_ab (pos 0) ≡ some 0
unfolding fd_get run step vfs_open open_at open_file fd_alloc fd_scan open_node fd_table_init
    ramfs_lookup walk find_child find_child_from streq_n seg_len ramfs_init ramfs_create_file
    split_parent_leaf walk_parent create_in alloc_node copy_name
entry_a = refl

node_a : (world_ab.files 0).node ≡ some 1
unfolding fd_get run step vfs_open open_at open_file fd_alloc fd_scan open_node fd_table_init
    ramfs_lookup walk find_child find_child_from streq_n seg_len ramfs_init ramfs_create_file
    split_parent_leaf walk_parent create_in alloc_node copy_name
node_a = refl

flags_a : can_read (world_ab.files 0).flags ≡ true
unfolding can_read fd_get run step vfs_open open_at open_file fd_alloc fd_scan open_node
    fd_table_init ramfs_lookup walk find_child find_child_from streq_n seg_len ramfs_init
    ramfs_create_file split_parent_leaf walk_parent create_in alloc_node copy_name
flags_a = refl

counted : world_ab.ramfs.node_count ≡ 3
unfolding run step vfs_open open_at open_file fd_alloc fd_scan open_node fd_table_init ramfs_lookup
    walk find_child find_child_from streq_n seg_len ramfs_init ramfs_create_file split_parent_leaf
    walk_parent create_in alloc_node copy_name
counted = refl

starts_inside : write_offset world_ab 0 1 ≤ (world_ab.ramfs.nodes 1).size
unfolding run step vfs_open open_at open_file fd_alloc fd_scan open_node fd_table_init ramfs_lookup
    walk find_child find_child_from streq_n seg_len ramfs_init ramfs_create_file split_parent_leaf
    walk_parent create_in alloc_node copy_name
starts_inside = omega arith

abbrev world_written : World
world_written = left_by (vfs_write (pos 0) three_bytes world_ab)

written_a : vfs_write (pos 0) three_bytes world_ab ≡ done 3 world_written
unfolding vfs_write write_node can_write fd_get run step vfs_open open_at open_file fd_alloc fd_scan
    open_node fd_table_init ramfs_lookup walk find_child find_child_from streq_n seg_len ramfs_init
    ramfs_create_file split_parent_leaf walk_parent create_in alloc_node copy_name
written_a = refl

vfs_write-content_example :
    content world_written.ramfs 1
    ≡ splice (write_offset world_ab 0 1) three_bytes (content world_ab.ramfs 1)
vfs_write-content_example =
    vfs_write-content world_ab (pos 0) three_bytes 0 1 world_ab-IsValidWorld entry_a node_a 3
      world_written written_a starts_inside

vfs_write-others_example : content world_written.ramfs 2 ≡ content world_ab.ramfs 2
vfs_write-others_example =
    vfs_write-others world_ab (pos 0) three_bytes 0 1 world_ab-IsValidWorld entry_a node_a 2
      (λ e. absurd (omega arith)) (omega (arith, counted))

vfs_write-vfs_read_example :
    (w3 : World) × (vfs_read
        (pos 0)
        3
        (left_by (vfs_lseek (pos 0) (pos (write_offset world_ab 0 1)) (pos 0) world_written))
      ≡ done three_bytes w3)
vfs_write-vfs_read_example =
    vfs_write-vfs_read world_ab (pos 0) three_bytes 0 1 world_ab-IsValidWorld entry_a node_a 3
      world_written flags_a written_a

abbrev world_a : World
world_a = step (open_path (b'/' ∷ path_a) flags_rw) empty_world

opened_a : vfs_open (b'/' ∷ path_a) flags_rw empty_world ≡ done 0 world_a
unfolding run step vfs_open open_at open_file fd_alloc fd_scan open_node fd_table_init ramfs_lookup
    walk find_child find_child_from streq_n seg_len ramfs_init ramfs_create_file split_parent_leaf
    walk_parent create_in alloc_node copy_name
opened_a = refl

abbrev world_closed : World
world_closed = left_by (vfs_close (pos 0) world_ab)

closed_a : vfs_close (pos 0) world_ab ≡ done tt world_closed
unfolding vfs_close fd_get run step vfs_open open_at open_file fd_alloc fd_scan open_node
    fd_table_init ramfs_lookup walk find_child find_child_from streq_n seg_len ramfs_init
    ramfs_create_file split_parent_leaf walk_parent create_in alloc_node copy_name
closed_a = refl

vfs_close-stale_example :
    (vfs_read (pos 0) 3 world_closed ≡ fail ebadf world_closed)
    × (vfs_write (pos 0) three_bytes world_closed ≡ fail ebadf world_closed)
    × (vfs_lseek (pos 0) (pos 0) (pos 0) world_closed ≡ fail ebadf world_closed)
    × (vfs_close (pos 0) world_closed ≡ fail ebadf world_closed)
    × (vfs_dup (pos 0) world_closed ≡ fail ebadf world_closed)
vfs_close-stale_example =
    vfs_close-stale (pos 0) world_ab world_closed 3 three_bytes (pos 0) (pos 0) closed_a
