-- ===== src/Vfs/State.antt =====
-- The state of the file system and of the table, over one call on a descriptor.
use acep_reja_mcsos.Vfs.Nodes.{IsValid, set_size-IsValid}
use acep_reja_mcsos.Vfs.Files.{
  vfs_close, vfs_read, vfs_lseek, vfs_dup, write_node, seek_node, seek_to, vfs_write, set_file,
  fd_alloc, read_node, fd_scan, write_at, fd_get, has, seek_base, can_read, can_write, closed_file,
  o_append, file_node, min_size,
}
use acep_reja_mcsos.Vfs.{World, File, is_dir, max_open_files}
use acep_reja_mcsos.Common.{
  ℕ, ◌+◌, ◌-◌, ◌≤◌, ◌<◌, ◌≡◌, refl, sym, ◌∙◌, inl, inr, true, some, List, arith, ltb, leb, ◌==◌,
  if◌then◌else◌, Bool-cases, Option-cases, update, length, left_by, add_signed, ℤ, pos, negsuc,
}

-- The file system is valid, and every open file is one of its nodes.
pub record IsValidWorld (w : World) : Type 0 where
  pub ramfs : IsValid w.ramfs
  pub node_in_range : (fd n : ℕ) → (w.files fd).node ≡ some n → n < w.ramfs.node_count

module _ (w : World) (v : IsValidWorld w) where
  pub set_file-IsValidWorld :
      (fd : ℕ) (f : File)
      → ((n : ℕ) → f.node ≡ some n → n < w.ramfs.node_count)
      → IsValidWorld (set_file w fd f)
  set_file-IsValidWorld fd f h = record {
    ramfs = v.ramfs;
    node_in_range = λ fd' n is. elim (Bool-cases (fd' == fd)) [
      | inl e ↦ h n (ground arith)
      | inr e ↦ v.node_in_range fd' n (ground arith)
    ];
  }

  -- The same file system with another size of a node and other bytes.
  pub set_size-IsValidWorld :
      (bytes : ℕ → ℕ) (n size : ℕ)
      → (n < w.ramfs.node_count → size ≤ (w.ramfs.nodes n).data_capacity)
      → IsValidWorld (record w {
        ramfs = record w.ramfs {
          bytes = bytes;
          nodes = update w.ramfs.nodes n (record (w.ramfs.nodes n) { size = size });
        };
      })
  set_size-IsValidWorld bytes n size h = record {
    ramfs = set_size-IsValid w.ramfs v.ramfs bytes n size h;
    node_in_range = v.node_in_range;
  }

  -- A file that keeps its node.
  pub same_node-IsValidWorld :
      (fd i : ℕ) (f : File) → f.node ≡ (w.files i).node → IsValidWorld (set_file w fd f)
  same_node-IsValidWorld fd i f same =
      set_file-IsValidWorld fd f λ n is. v.node_in_range i n (sym same ∙ is)

  pub fd_alloc-IsValidWorld : IsValidWorld (left_by (fd_alloc w))
  unfolding fd_alloc
  fd_alloc-IsValidWorld = elim (Option-cases (fd_scan w.files max_open_files 0)) [
    | inl e ↦ rw (e, fd_alloc) v
    | inr (fd, e) ↦ rw (e, fd_alloc) (same_node-IsValidWorld fd fd _ refl)
  ]

  read_node-IsValidWorld :
      (fd i node len : ℕ) → IsValidWorld (left_by (read_node fd (w.files fd) node len w))
  unfolding read_node
  read_node-IsValidWorld fd i node len = elim (Bool-cases (is_dir (w.ramfs.nodes node).type)) [
    | inl d ↦ rw (d, read_node) v
    | inr d ↦ elim (Bool-cases (leb (w.ramfs.nodes node).size (w.files fd).offset)) [
      | inl l ↦ rw (d, l, read_node) v
      | inr l ↦ rw (d, l, read_node) (same_node-IsValidWorld fd fd _ refl)
    ]
  ]

module _ (w : World) (v : IsValidWorld w) where
  write_node-IsValidWorld :
      (fd node : ℕ) (src : List ℕ) → IsValidWorld (left_by (write_node fd (w.files fd) node src w))
  unfolding write_node write_at
  write_node-IsValidWorld fd node src =
      let n = w.ramfs.nodes node in
      let offset = if has (w.files fd).flags o_append then n.size else (w.files fd).offset in
      elim (Bool-cases (is_dir n.type)) [
        | inl d ↦ rw (d, write_node) v
        | inr d ↦ elim (Bool-cases (ltb n.data_capacity offset)) [
          | inl c ↦ rw (d, c, write_node) (same_node-IsValidWorld w v fd fd _ refl)
          | inr c ↦
              elim (Bool-cases
                (ltb (min_size (length src) (n.data_capacity - offset)) (length src))) [
                  | inl s ↦ rw (d, c, s, write_node) (same_node-IsValidWorld w v fd fd _ refl)
                  | inr s ↦
                      let size : node < w.ramfs.node_count
                          → (if ltb n.size (offset + length src)
                              then offset + length src
                              else n.size)
                            ≤ n.data_capacity =
                        λ lt. ground (arith, v.ramfs.fits node lt) in
                      let w' =
                        set_file w fd (record (w.files fd) { offset = offset + length src }) in
                      let v' : IsValidWorld w' = same_node-IsValidWorld w v fd fd _ refl in
                      rw (d, c, s, write_node) (set_size-IsValidWorld w' v' _ node _ size)
                ]
        ]
      ]

  seek_to-IsValidWorld :
      (fd : ℕ) (next : ℤ) → IsValidWorld (left_by (seek_to fd (w.files fd) next w))
  unfolding seek_to
  seek_to-IsValidWorld fd (negsuc n) = v
  seek_to-IsValidWorld fd (pos n) = same_node-IsValidWorld w v fd fd _ refl

  seek_node-IsValidWorld :
      (fd node : ℕ) (offset whence : ℤ)
      → IsValidWorld (left_by (seek_node fd (w.files fd) node offset whence w))
  unfolding seek_node
  seek_node-IsValidWorld fd node offset whence =
      elim (Bool-cases (is_dir (w.ramfs.nodes node).type)) [
        | inl d ↦ rw (d, seek_node) v
        | inr d ↦ elim (Option-cases (seek_base (w.files fd) (w.ramfs.nodes node) whence)) [
          | inl e ↦ rw (d, e, seek_node) v
          | inr (base, e) ↦ rw (d, e, seek_node) (seek_to-IsValidWorld fd (add_signed base offset))
        ]
      ]

  pub vfs_read-IsValidWorld : (fd : ℤ) (len : ℕ) → IsValidWorld (left_by (vfs_read fd len w))
  unfolding vfs_read
  vfs_read-IsValidWorld fd len = elim (Option-cases (fd_get w fd)) [
    | inl e ↦ rw (e, vfs_read) v
    | inr (i, e) ↦ elim (Bool-cases (can_read (w.files i).flags)) [
      | inr c ↦ rw (e, c, vfs_read) v
      | inl c ↦ elim (Option-cases (file_node (w.files i))) [
        | inl n ↦ rw (e, c, n, vfs_read) v
        | inr (node, n) ↦ rw (e, c, n, vfs_read) (read_node-IsValidWorld w v i i node len)
      ]
    ]
  ]

  pub vfs_write-IsValidWorld : (fd : ℤ) (src : List ℕ) → IsValidWorld (left_by (vfs_write fd src w))
  unfolding vfs_write
  vfs_write-IsValidWorld fd src = elim (Option-cases (fd_get w fd)) [
    | inl e ↦ rw (e, vfs_write) v
    | inr (i, e) ↦ elim (Bool-cases (can_write (w.files i).flags)) [
      | inr c ↦ rw (e, c, vfs_write) v
      | inl c ↦ elim (Option-cases (file_node (w.files i))) [
        | inl n ↦ rw (e, c, n, vfs_write) v
        | inr (node, n) ↦ rw (e, c, n, vfs_write) (write_node-IsValidWorld i node src)
      ]
    ]
  ]

  pub vfs_lseek-IsValidWorld :
      (fd offset whence : ℤ) → IsValidWorld (left_by (vfs_lseek fd offset whence w))
  unfolding vfs_lseek
  vfs_lseek-IsValidWorld fd offset whence = elim (Option-cases (fd_get w fd)) [
    | inl e ↦ rw (e, vfs_lseek) v
    | inr (i, e) ↦ elim (Option-cases (w.files i).node) [
      | inl n ↦ rw (e, n, vfs_lseek) v
      | inr (node, n) ↦ rw (e, n, vfs_lseek) (seek_node-IsValidWorld i node offset whence)
    ]
  ]

  pub vfs_close-IsValidWorld : (fd : ℤ) → IsValidWorld (left_by (vfs_close fd w))
  unfolding vfs_close
  vfs_close-IsValidWorld fd = elim (Option-cases (fd_get w fd)) [
    | inl e ↦ rw (e, vfs_close) v
    | inr (i, e) ↦ rw (e, vfs_close) (set_file-IsValidWorld w v i closed_file (λ n is. absurd (cc)))
  ]

  pub vfs_dup-IsValidWorld : (fd : ℤ) → IsValidWorld (left_by (vfs_dup fd w))
  unfolding vfs_dup fd_alloc
  vfs_dup-IsValidWorld fd = elim (Option-cases (fd_get w fd)) [
    | inl e ↦ rw (e, vfs_dup) v
    | inr (i, e) ↦ elim (Option-cases (fd_scan w.files max_open_files 0)) [
      | inl a ↦ rw (e, a, vfs_dup, fd_alloc) v
      | inr (newfd, a) ↦
          let w' = set_file w newfd (record (w.files newfd) { used = true }) in
          let v' : IsValidWorld w' = same_node-IsValidWorld w v newfd newfd _ refl in
          rw (e, a, vfs_dup, fd_alloc) (same_node-IsValidWorld w' v' newfd i _ refl)
    ]
  ]
