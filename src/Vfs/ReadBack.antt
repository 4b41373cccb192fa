-- ===== src/Vfs/ReadBack.antt =====
-- mcs_vfs_lseek and mcs_vfs_read after a write.
use acep_reja_mcsos.Vfs.Contents.{read_bytes-copy_bytes}
use acep_reja_mcsos.Vfs.Writes.{write_offset, Written-same}
use acep_reja_mcsos.Vfs.State.{IsValidWorld}
use acep_reja_mcsos.Vfs.Files.{
  fd_get, file_node, vfs_lseek, seek_node, vfs_read, seek_base, read_node, seek_to, read_bytes,
  set_file, can_read, min_size, write_at, vfs_write,
}
use acep_reja_mcsos.Vfs.{File, World, is_dir, Error, eisdir}
use acep_reja_mcsos.Common.{
  ℕ, ◌+◌, ◌-◌, ◌≤◌, ◌≡◌, refl, sym, ap, ◌∙◌, inl, inr, true, false, Option, none, some, List, arith,
  ltb, leb, if◌then◌else◌, Bool-cases, length, left_by, Outcome, ℤ, done, fail, pos, negsuc,
}

-- The lookup of a descriptor reads only which entries are in use.
pub fd_get-kept :
    (w w' : World) (fd : ℤ) (i : ℕ)
    → ((j : ℕ) → (w'.files j).used ≡ (w.files j).used)
    → fd_get w fd ≡ some i
    → fd_get w' fd ≡ some i
unfolding fd_get
fd_get-kept w w' (negsuc n) i same h = absurd (cc)
fd_get-kept w w' (pos n) i same h = rw (same n) h

module _ (w : World) (fd : ℤ) (i node : ℕ) (entry : fd_get w fd ≡ some i)
    (of_node : (w.files i).node ≡ some node)
    (is_file : is_dir (w.ramfs.nodes node).type ≡ false) where
  vfs_lseek-seek_node :
      (offset whence : ℤ)
      → vfs_lseek fd offset whence w ≡ seek_node i (w.files i) node offset whence w
  unfolding vfs_lseek
  vfs_lseek-seek_node offset whence =
      let go : Option ℕ → Outcome Error World ℤ =
        λ r. elim r [ none ↦ fail eisdir w | some n ↦ seek_node i (w.files i) n offset whence w ] in
      rw (entry, vfs_lseek) (ap go of_node)

  -- A seek from the start of the file.
  vfs_lseek-set :
      (o : ℕ)
      → left_by (vfs_lseek fd (pos o) (pos 0) w) ≡ set_file w i (record (w.files i) { offset = o })
  unfolding seek_node seek_base seek_to
  vfs_lseek-set o =
      let z : 0 + o ≡ o = omega arith in
      ap (λ r. left_by r) (vfs_lseek-seek_node (pos o) (pos 0)) ∙ rw (is_file, z, seek_node) refl

  -- A read of bytes that are all in the file.
  vfs_read-bytes :
      (len : ℕ)
      → (w.files i).fs ≡ true
      → can_read (w.files i).flags ≡ true
      → (w.files i).offset + len ≤ (w.ramfs.nodes node).size
      → (w' : World) × (vfs_read fd len w
          ≡ done
              (read_bytes w.ramfs.bytes ((w.ramfs.nodes node).data_offset + (w.files i).offset) len)
              w')
  unfolding vfs_read read_node read_bytes
  vfs_read-bytes len fs readable inside =
      let f = w.files i in
      let n = w.ramfs.nodes node in
      let there : file_node f ≡ some node = rw fs of_node in
      let all : min_size len (n.size - f.offset) ≡ len = ground arith in
      elim (Bool-cases (leb n.size f.offset)) [
        | inl e ↦
            let z : len ≡ 0 = ground arith in
            (w, rw (entry, readable, there, is_file, e, z, vfs_read) refl)
        | inr e ↦ (
          set_file w i (record f { offset = f.offset + len }),
          rw (entry, readable, there, is_file, e, all, vfs_read) refl,
        )
      ]

file_node-fs : (f : File) (node : ℕ) → file_node f ≡ some node → f.fs ≡ true
file_node-fs f node h = elim (Bool-cases f.fs) [
  | inl b ↦ b
  | inr b ↦ let h' : none ≡ some node = sym (rw b refl) ∙ h in absurd (cc)
]

module _ (w : World) (fd : ℤ) (src : List ℕ) (i node : ℕ) (v : IsValidWorld w)
    (entry : fd_get w fd ≡ some i) (of_node : (w.files i).node ≡ some node) where
  -- In a valid state, after a successful write on a descriptor that may also read, a seek back to
  -- where the write started and a read of as many bytes return the bytes that were written.
  pub vfs_write-vfs_read :
      (k : ℕ) (w' : World)
      → can_read (w.files i).flags ≡ true
      → vfs_write fd src w ≡ done k w'
      → (w3 : World) × (vfs_read fd k
            (left_by (vfs_lseek fd (pos (write_offset w i node)) (pos 0) w'))
          ≡ done src w3)
  unfolding write_at
  vfs_write-vfs_read k w' readable h =
      let x = Written-same w fd src i node v entry of_node k w' h in
      let o = write_offset w i node in
      let f = w.files i in
      let n = w.ramfs.nodes node in
      let w1 = write_at i f node o src w in
      let w2 = set_file w1 i (record (w1.files i) { offset = o }) in
      let f1 : w1.files i ≡ record f { offset = o + length src } = ground arith in
      let n1 : w1.ramfs.nodes node
          ≡ record n { size = if ltb n.size (o + length src) then o + length src else n.size } =
        ground arith in
      let f2 : w2.files i ≡ record f { offset = o } = ground (arith, f1) in
      let node1 : (w1.files i).node ≡ some node = ap (λ g. g.node) f1 ∙ of_node in
      let node2 : (w2.files i).node ≡ some node = ap (λ g. g.node) f2 ∙ of_node in
      let type1 : is_dir (w1.ramfs.nodes node).type ≡ false =
        ap (λ g. is_dir g.type) n1 ∙ x.is_file in
      let entry1 = fd_get-kept w w1 fd i (λ j. ground arith) entry in
      let entry2 = fd_get-kept w w2 fd i (λ j. ground arith) entry in
      let fs2 : (w2.files i).fs ≡ true = ap (λ g. g.fs) f2 ∙ file_node-fs f node x.of_node in
      let read2 : can_read (w2.files i).flags ≡ true = ap (λ g. can_read g.flags) f2 ∙ readable in
      let inside : (w2.files i).offset + length src ≤ (w2.ramfs.nodes node).size =
        ground (arith, f2, n1) in
      let (w3, r) = vfs_read-bytes w2 fd i node entry2 node2 type1 (length src) fs2 read2 inside in
      let back = vfs_lseek-set w1 fd i node entry1 node1 type1 o in
      let base : (w2.ramfs.nodes node).data_offset + (w2.files i).offset ≡ n.data_offset + o =
        rw (f2, n1) refl in
      let bytes =
        ap (λ a. read_bytes w1.ramfs.bytes a (length src)) base
        ∙ read_bytes-copy_bytes w.ramfs.bytes (n.data_offset + o) src in
      let same : vfs_read fd k (left_by (vfs_lseek fd (pos o) (pos 0) w'))
          ≡ vfs_read fd (length src) w2 =
        rw (x.left, x.all_written, back) refl in
      (w3, same ∙ r ∙ ap (λ b. done b w3) bytes)
