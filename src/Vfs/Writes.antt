-- ===== src/Vfs/Writes.antt =====
-- mcs_vfs_write: what a write does to the contents of the files, and reading it back.
use acep_reja_mcsos.Vfs.Contents.{
  content, splice, read_bytes-agree, read_bytes-splice, copy_bytes-outside,
}
use acep_reja_mcsos.Vfs.State.{IsValidWorld}
use acep_reja_mcsos.Vfs.Files.{
  vfs_write, has, fd_get, write_node, file_node, o_append, can_write, write_at, set_file, min_size,
}
use acep_reja_mcsos.Vfs.{File, World, ebadf, Error, is_dir, eacces, einval, eisdir, enospc}
use acep_reja_mcsos.Common.{
  ℕ, ◌+◌, ◌-◌, ◌≤◌, ◌<◌, ◌≡◌, refl, sym, ◌∙◌, ◌≢◌, ◌⊎◌, inl, inr, true, false, none, some, List,
  arith, ltb, if◌then◌else◌, Bool-cases, Option-cases, update, length, left_by, Outcome-cases, ℤ,
  done, fail,
}

-- Where a write starts.
abbrev pub write_offset : World → ℕ → ℕ → ℕ
write_offset w i node =
    if has (w.files i).flags o_append then (w.ramfs.nodes node).size else (w.files i).offset

-- What holds when a write to entry `i` of the table, open on `node`, succeeds.
pub record Written (w : World) (fd : ℤ) (src : List ℕ) (k : ℕ) (w' : World) (i node : ℕ)
    : Type 0 where
  pub entry : fd_get w fd ≡ some i
  pub of_node : file_node (w.files i) ≡ some node
  pub writable : can_write (w.files i).flags ≡ true
  pub is_file : is_dir (w.ramfs.nodes node).type ≡ false
  pub room : write_offset w i node + length src ≤ (w.ramfs.nodes node).data_capacity
  pub all_written : k ≡ length src
  pub left : w' ≡ write_at i (w.files i) node (write_offset w i node) src w

pub vfs_write-Written :
    (w : World) (fd : ℤ) (src : List ℕ) (k : ℕ) (w' : World)
    → vfs_write fd src w ≡ done k w'
    → (i : ℕ) × (node : ℕ) × Written w fd src k w' i node
unfolding vfs_write write_node
vfs_write-Written w fd src k w' h = elim (Option-cases (fd_get w fd)) [
  | inl e ↦ let h' : fail ebadf w ≡ done k w' = sym (rw (e, vfs_write) refl) ∙ h in absurd (cc)
  | inr (i, e) ↦ elim (Bool-cases (can_write (w.files i).flags)) [
    | inr c ↦
        let h' : fail eacces w ≡ done k w' = sym (rw (e, c, vfs_write) refl) ∙ h in absurd (cc)
    | inl c ↦ elim (Option-cases (file_node (w.files i))) [
      | inl n ↦
          let h' : fail einval w ≡ done k w' = sym (rw (e, c, n, vfs_write) refl) ∙ h in absurd (cc)
      | inr (node, n) ↦
          let v = w.ramfs.nodes node in
          let offset = write_offset w i node in
          let h' : write_node i (w.files i) node src w ≡ done k w' =
            sym (rw (e, c, n, vfs_write) refl) ∙ h in
          let w1 : World = set_file w i (record (w.files i) { offset = offset }) in
          elim (Bool-cases (is_dir v.type)) [
            | inl d ↦
                let h2 : fail eisdir w ≡ done k w' = sym (rw (d, write_node) refl) ∙ h' in
                absurd (cc)
            | inr d ↦ elim (Bool-cases (ltb v.data_capacity offset)) [
              | inl b ↦
                  let h2 : fail einval w1 ≡ done k w' = sym (rw (d, b, write_node) refl) ∙ h' in
                  absurd (cc)
              | inr b ↦
                  elim (Bool-cases
                    (ltb (min_size (length src) (v.data_capacity - offset)) (length src))) [
                      | inl s ↦
                          let h2 : fail enospc w1 ≡ done k w' =
                            sym (rw (d, b, s, write_node) refl) ∙ h' in
                          absurd (cc)
                      | inr s ↦
                          let h2 : done (length src) (write_at i (w.files i) node offset src w)
                              ≡ done k w' =
                            sym (rw (d, b, s, write_node) refl) ∙ h' in
                          (
                            i,
                            node,
                            record {
                              entry = e;
                              of_node = n;
                              writable = c;
                              is_file = d;
                              room = ground arith;
                              all_written = cc;
                              left = cc;
                            },
                          )
                    ]
            ]
          ]
    ]
  ]
]

-- A write that fails leaves the file system as it is.
vfs_write-fail :
    (w : World) (fd : ℤ) (src : List ℕ) (e : Error) (w' : World)
    → vfs_write fd src w ≡ fail e w'
    → w'.ramfs ≡ w.ramfs
unfolding vfs_write write_node
vfs_write-fail w fd src e w' h = elim (Option-cases (fd_get w fd)) [
  | inl g ↦ let h' : fail ebadf w ≡ fail e w' = sym (rw (g, vfs_write) refl) ∙ h in cc
  | inr (i, g) ↦ elim (Bool-cases (can_write (w.files i).flags)) [
    | inr c ↦ let h' : fail eacces w ≡ fail e w' = sym (rw (g, c, vfs_write) refl) ∙ h in cc
    | inl c ↦ elim (Option-cases (file_node (w.files i))) [
      | inl n ↦ let h' : fail einval w ≡ fail e w' = sym (rw (g, c, n, vfs_write) refl) ∙ h in cc
      | inr (node, n) ↦
          let v = w.ramfs.nodes node in
          let offset = write_offset w i node in
          let h' : write_node i (w.files i) node src w ≡ fail e w' =
            sym (rw (g, c, n, vfs_write) refl) ∙ h in
          let w1 : World = set_file w i (record (w.files i) { offset = offset }) in
          elim (Bool-cases (is_dir v.type)) [
            | inl d ↦ let h2 : fail eisdir w ≡ fail e w' = sym (rw (d, write_node) refl) ∙ h' in cc
            | inr d ↦ elim (Bool-cases (ltb v.data_capacity offset)) [
              | inl b ↦
                  let h2 : fail einval w1 ≡ fail e w' = sym (rw (d, b, write_node) refl) ∙ h' in
                  let same : w1 ≡ w' = cc in rw (sym same) refl
              | inr b ↦
                  elim (Bool-cases
                    (ltb (min_size (length src) (v.data_capacity - offset)) (length src))) [
                      | inl s ↦
                          let h2 : fail enospc w1 ≡ fail e w' =
                            sym (rw (d, b, s, write_node) refl) ∙ h' in
                          let same : w1 ≡ w' = cc in rw (sym same) refl
                      | inr s ↦
                          let h2 : done (length src) (write_at i (w.files i) node offset src w)
                              ≡ fail e w' =
                            sym (rw (d, b, s, write_node) refl) ∙ h' in
                          absurd (cc)
                    ]
            ]
          ]
    ]
  ]
]

module _ (w : World) (i node : ℕ) (offset : ℕ) (src : List ℕ) (v : IsValidWorld w) where
  write_at-content :
      offset ≤ (w.ramfs.nodes node).size
      → content (write_at i (w.files i) node offset src w).ramfs node
        ≡ splice offset src (content w.ramfs node)
  unfolding write_at content
  write_at-content inside =
      let n = w.ramfs.nodes node in
      let size = if ltb n.size (offset + length src) then offset + length src else n.size in
      let at : update w.ramfs.nodes node (record n { size = size }) node
          ≡ record n { size = size } =
        ground arith in
      rw at (read_bytes-splice w.ramfs.bytes n.data_offset n.size offset src inside)

  write_at-others :
      (m : ℕ)
      → m ≢ node
      → m < w.ramfs.node_count
      → node < w.ramfs.node_count
      → offset + length src ≤ (w.ramfs.nodes node).data_capacity
      → content (write_at i (w.files i) node offset src w).ramfs m ≡ content w.ramfs m
  unfolding write_at content
  write_at-others m ne lt lt' room =
      let n = w.ramfs.nodes node in
      let size = if ltb n.size (offset + length src) then offset + length src else n.size in
      let at : update w.ramfs.nodes node (record n { size = size }) m ≡ w.ramfs.nodes m =
        ground arith in
      let fits = v.ramfs.fits m lt in
      let clear : (a : ℕ)
          → (w.ramfs.nodes m).data_offset ≤ a
          → a < (w.ramfs.nodes m).data_offset + (w.ramfs.nodes m).size
          → (a < n.data_offset + offset) ⊎ (n.data_offset + offset + length src ≤ a) =
        λ a l r. elim (Bool-cases (ltb m node)) [
          | inl b ↦ inl (omega (arith, v.ramfs.apart m node (ground arith) lt'))
          | inr b ↦ inr (omega (arith, v.ramfs.apart node m (ground arith) lt))
        ] in
      rw at (
        read_bytes-agree _ _ (w.ramfs.nodes m).data_offset (w.ramfs.nodes m).size
          (λ a l r. copy_bytes-outside w.ramfs.bytes (n.data_offset + offset) src a (clear a l r)))

file_node-node : (f : File) (node : ℕ) → file_node f ≡ some node → f.node ≡ some node
file_node-node f node h = elim (Bool-cases f.fs) [
  | inl b ↦ sym (rw b refl) ∙ h
  | inr b ↦ let h' : none ≡ some node = sym (rw b refl) ∙ h in absurd (cc)
]

module _ (w : World) (fd : ℤ) (src : List ℕ) (i node : ℕ) (v : IsValidWorld w)
    (entry : fd_get w fd ≡ some i) (of_node : (w.files i).node ≡ some node) where
  pub Written-same :
      (k : ℕ) (w' : World) → vfs_write fd src w ≡ done k w' → Written w fd src k w' i node
  Written-same k w' h =
      let (i', node', x) = vfs_write-Written w fd src k w' h in
      let same_i : i' ≡ i = let e = x.entry in cc in
      let n = file_node-node (w.files i') node' x.of_node in
      let n' : (w.files i').node ≡ some node = rw same_i of_node in
      let same_n : node' ≡ node = cc in rw (sym same_i, sym same_n) x

  -- In a valid state, a successful write on a descriptor puts its bytes into the contents of the
  -- descriptor's file from the offset on (from the end, when the descriptor appends), and keeps what
  -- stands before and after them, if the offset is not past the end of the file.
  pub vfs_write-content :
      (k : ℕ) (w' : World)
      → vfs_write fd src w ≡ done k w'
      → write_offset w i node ≤ (w.ramfs.nodes node).size
      → content w'.ramfs node ≡ splice (write_offset w i node) src (content w.ramfs node)
  vfs_write-content k w' h inside =
      let x = Written-same k w' h in
      rw x.left (write_at-content w i node (write_offset w i node) src v inside)

  -- In a valid state, a write on a descriptor changes the contents of no other file than the
  -- descriptor's, whether it succeeds or fails.
  pub vfs_write-others :
      (m : ℕ)
      → m ≢ node
      → m < w.ramfs.node_count
      → content (left_by (vfs_write fd src w)).ramfs m ≡ content w.ramfs m
  vfs_write-others m ne lt = elim (Outcome-cases (vfs_write fd src w)) [
    | inl (k, w', h) ↦
        let x = Written-same k w' h in
        rw (h, x.left)
          (write_at-others w i node (write_offset w i node) src v m ne lt
            (v.node_in_range i node of_node) x.room)
    | inr (e, w', h) ↦ rw (h, vfs_write-fail w fd src e w' h) refl
  ]
