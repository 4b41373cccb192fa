-- ===== src/Vfs/Calls.antt =====
-- The calls on the table of open files, one after the other.
use acep_reja_mcsos.Vfs.Nodes.{
  ramfs_lookup-in_range, ramfs_create_file-IsValid, ramfs_create_file-in_range,
}
use acep_reja_mcsos.Vfs.Ramfs.{ramfs_lookup, ramfs_create_file}
use acep_reja_mcsos.Vfs.State.{
  IsValidWorld, vfs_read-IsValidWorld, vfs_write-IsValidWorld, fd_alloc-IsValidWorld,
  vfs_lseek-IsValidWorld, set_file-IsValidWorld, vfs_close-IsValidWorld, vfs_dup-IsValidWorld,
  set_size-IsValidWorld,
}
use acep_reja_mcsos.Vfs.{World, max_open_files, enfile, is_dir, File}
use acep_reja_mcsos.Vfs.Files.{
  open_at, vfs_open, fd_alloc, fd_scan, vfs_read, vfs_write, vfs_lseek, set_file, vfs_close,
  vfs_dup, open_node, open_file, open_flags, has, can_write, o_trunc, o_creat,
}
use acep_reja_mcsos.Common.{
  ℕ, ◌<◌, ◌≡◌, refl, sym, ap, ◌∙◌, inl, inr, true, ◌&&◌, some, List, [], ◌∷◌, arith, Bool-cases,
  Option-cases, left_by, Result-cases, Outcome-cases, ℤ, done, fail,
}

module _ (w : World) (v : IsValidWorld w) where
  open_node-IsValidWorld :
      (path : List ℕ) (flags : ℕ) → IsValidWorld (left_by (open_node path flags w))
  unfolding open_node
  open_node-IsValidWorld path flags = elim (Result-cases (ramfs_lookup w.ramfs path)) [
    | inl (node, l) ↦ rw (l, open_node) v
    | inr (e, l) ↦ elim (Bool-cases (has flags o_creat)) [
      | inr c ↦ rw (l, c, open_node) v
      | inl c ↦ elim (Result-cases (ramfs_create_file w.ramfs path)) [
        | inr (e', r) ↦ rw (l, c, r, open_node) v
        | inl ((node, fs'), r) ↦
            rw (l, c, r, open_node)
              (record {
                ramfs = ramfs_create_file-IsValid w.ramfs v.ramfs path node fs' r;
                node_in_range = λ fd n is. omega (
                  arith,
                  v.node_in_range fd n is,
                  ramfs_create_file-in_range w.ramfs path node fs' v.ramfs.root r,
                );
              })
      ]
    ]
  ]

  open_node-in_range :
      (path : List ℕ) (flags node : ℕ) (w' : World)
      → open_node path flags w ≡ done node w'
      → node < w'.ramfs.node_count
  unfolding open_node
  open_node-in_range path flags node w' h = elim (Result-cases (ramfs_lookup w.ramfs path)) [
    | inl (node', l) ↦
        let h' : done node' w ≡ done node w' = sym (rw (l, open_node) refl) ∙ h in
        let at : node' ≡ node = cc in
        let same : w ≡ w' = cc in
        rw (sym at, sym same) (ramfs_lookup-in_range w.ramfs path node' v.ramfs.root l)
    | inr (e, l) ↦ elim (Bool-cases (has flags o_creat)) [
      | inr c ↦
          let h' : fail e w ≡ done node w' = sym (rw (l, c, open_node) refl) ∙ h in absurd (cc)
      | inl c ↦ elim (Result-cases (ramfs_create_file w.ramfs path)) [
        | inr (e', r) ↦
            let h' : fail e' w ≡ done node w' = sym (rw (l, c, r, open_node) refl) ∙ h in
            absurd (cc)
        | inl ((node', fs'), r) ↦
            let made : World = record w { ramfs = fs' } in
            let h' : done node' made ≡ done node w' = sym (rw (l, c, r, open_node) refl) ∙ h in
            let at : node' ≡ node = cc in
            let same : made ≡ w' = cc in
            rw (sym at, sym same)
              (ramfs_create_file-in_range w.ramfs path node' fs' v.ramfs.root r).0
      ]
    ]
  ]

  open_file-IsValidWorld :
      (flags node fd : ℕ)
      → node < w.ramfs.node_count
      → IsValidWorld (left_by (open_file flags node fd w))
  unfolding open_file
  open_file-IsValidWorld flags node fd lt = elim (Bool-cases (has flags o_trunc)) [
    | inr t ↦
        rw (t, open_file)
          (set_file-IsValidWorld w v fd _ (λ n is. let at : node ≡ n = cc in rw (sym at) lt))
    | inl t ↦ elim (Bool-cases (can_write flags)) [
      | inr c ↦ rw (t, c, open_file) (set_file-IsValidWorld w v fd _ (λ n is. absurd (cc)))
      | inl c ↦
          let f : File = record {
            used = (w.files fd).used;
            flags = flags;
            offset = 0;
            node = some node;
            fs = true;
          } in
          let v' : IsValidWorld (set_file w fd f) =
            set_file-IsValidWorld w v fd f (λ n is. let at : node ≡ n = cc in rw (sym at) lt) in
          rw (t, c, open_file)
            (set_size-IsValidWorld (set_file w fd f) v' _ node 0 (λ l. omega arith))
    ]
  ]

fd_alloc-done : (w : World) (fd : ℕ) (w' : World) → fd_alloc w ≡ done fd w' → w'.ramfs ≡ w.ramfs
unfolding fd_alloc
fd_alloc-done w fd w' h = elim (Option-cases (fd_scan w.files max_open_files 0)) [
  | inl e ↦ let h' : fail enfile w ≡ done fd w' = sym (rw (e, fd_alloc) refl) ∙ h in absurd (cc)
  | inr (i, e) ↦
      let there : World = set_file w i (record (w.files i) { used = true }) in
      let h' : done i there ≡ done fd w' = sym (rw (e, fd_alloc) refl) ∙ h in
      let same : there ≡ w' = cc in rw (sym same) refl
]

open_at-IsValidWorld :
    (w : World) (flags node : ℕ)
    → IsValidWorld w
    → node < w.ramfs.node_count
    → IsValidWorld (left_by (open_at flags node w))
unfolding open_at
open_at-IsValidWorld w flags node v lt =
    elim (Bool-cases (is_dir (w.ramfs.nodes node).type && can_write flags)) [
      | inl d ↦ rw (d, open_at) v
      | inr d ↦ elim (Outcome-cases (fd_alloc w)) [
        | inr (e, w', a) ↦
            let v' : IsValidWorld w' =
              rw (sym (ap (λ r. left_by r) a)) (fd_alloc-IsValidWorld w v) in
            rw (d, a, open_at) v'
        | inl (fd, w', a) ↦
            let v' : IsValidWorld w' =
              rw (sym (ap (λ r. left_by r) a)) (fd_alloc-IsValidWorld w v) in
            let lt' : node < w'.ramfs.node_count = rw (fd_alloc-done w fd w' a) lt in
            rw (d, a, open_at) (open_file-IsValidWorld w' v' flags node fd lt')
      ]
    ]

vfs_open-IsValidWorld :
    (w : World) (path : List ℕ) (flags : ℕ)
    → IsValidWorld w
    → IsValidWorld (left_by (vfs_open path flags w))
unfolding vfs_open
vfs_open-IsValidWorld w path flags v =
    let there = open_node-IsValidWorld w v path (open_flags flags) in
    elim (Outcome-cases (open_node path (open_flags flags) w)) [
      | inr (e, w', r) ↦
          let v' : IsValidWorld w' = rw (sym (ap (λ o. left_by o) r)) there in rw (r, vfs_open) v'
      | inl (node, w', r) ↦
          let v' : IsValidWorld w' = rw (sym (ap (λ o. left_by o) r)) there in
          rw (r, vfs_open)
            (open_at-IsValidWorld w' (open_flags flags) node v'
              (open_node-in_range w v path (open_flags flags) node w' r))
    ]

-- A call of kernel/vfs/fd.c with its arguments.
pub data Call : Type 0 where
  open_path : List ℕ → ℕ → Call
  read : ℤ → ℕ → Call
  write : ℤ → List ℕ → Call
  lseek : ℤ → ℤ → ℤ → Call
  close : ℤ → Call
  dup : ℤ → Call

unfoldable pub step : Call → World → World
step (open_path path flags) w = left_by (vfs_open path flags w)
step (read fd len) w = left_by (vfs_read fd len w)
step (write fd src) w = left_by (vfs_write fd src w)
step (lseek fd offset whence) w = left_by (vfs_lseek fd offset whence w)
step (close fd) w = left_by (vfs_close fd w)
step (dup fd) w = left_by (vfs_dup fd w)

unfoldable pub run : List Call → World → World
run [] w = w
run (c ∷ cs) w = run cs (step c w)

step-IsValidWorld : (c : Call) (w : World) → IsValidWorld w → IsValidWorld (step c w)
unfolding step
step-IsValidWorld (open_path path flags) w v = vfs_open-IsValidWorld w path flags v
step-IsValidWorld (read fd len) w v = vfs_read-IsValidWorld w v fd len
step-IsValidWorld (write fd src) w v = vfs_write-IsValidWorld w v fd src
step-IsValidWorld (lseek fd offset whence) w v = vfs_lseek-IsValidWorld w v fd offset whence
step-IsValidWorld (close fd) w v = vfs_close-IsValidWorld w v fd
step-IsValidWorld (dup fd) w v = vfs_dup-IsValidWorld w v fd

-- Whatever calls of open, read, write, lseek, close and dup are made one after the other, and whether
-- they succeed or fail, a valid state stays valid: the shares of the files stay apart, no file
-- outgrows its share, and every open file is a node of the file system.
pub run-IsValidWorld : (cs : List Call) (w : World) → IsValidWorld w → IsValidWorld (run cs w)
unfolding run
run-IsValidWorld [] w v = v
run-IsValidWorld (c ∷ cs) w v = run-IsValidWorld cs (step c w) (step-IsValidWorld c w v)
