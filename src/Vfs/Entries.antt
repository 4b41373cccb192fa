-- ===== src/Vfs/Entries.antt =====
-- The entries of the table of open files: which one a call takes, and a descriptor that is closed.
use acep_reja_mcsos.Vfs.Ramfs.{ramfs_lookup, ramfs_create_file}
use acep_reja_mcsos.Vfs.Files.{
  vfs_close, open_file, fd_scan, fd_get, open_node, vfs_open, fd_alloc, has, open_at, vfs_read,
  o_append, open_flags, set_file, vfs_write, o_trunc, closed_file, vfs_lseek, can_write, vfs_dup,
  set_node, o_creat,
}
use acep_reja_mcsos.Vfs.{File, World, max_open_files, ebadf, enfile, is_dir, eacces, eisdir}
use acep_reja_mcsos.Common.{
  ℕ, zero, suc, ◌+◌, ◌≤◌, ◌<◌, ◌≡◌, refl, sym, ◌∙◌, ◌≢◌, inl, inr, true, false, ◌&&◌, none, some,
  List, arith, leb, ◌==◌, if◌then◌else◌, Bool-cases, Option-cases, update, Result-cases,
  Outcome-cases, ℤ, done, fail, pos, negsuc,
}

-- The first unused entry: it is free, and every entry before it is in use.
record IsFirst (files : ℕ → File) (start bound fd : ℕ) : Type 0 where
  from : start ≤ fd
  below : fd < bound
  unused : (files fd).used ≡ false
  before : (j : ℕ) → start ≤ j → j < fd → (files j).used ≡ true

fd_scan-IsFirst :
    (files : ℕ → File) (n start fd : ℕ)
    → fd_scan files n start ≡ some fd
    → IsFirst files start (start + n) fd
unfolding fd_scan
fd_scan-IsFirst files zero start fd h = absurd (cc)
fd_scan-IsFirst files (suc n) start fd h = elim (Bool-cases (files start).used) [
  | inr u ↦
      let h' : some start ≡ some fd = sym (rw (u, fd_scan) refl) ∙ h in
      let at : start ≡ fd = cc in
      record {
        from = omega arith;
        below = omega arith;
        unused = rw (sym at) u;
        before = λ j l r. absurd (omega arith);
      }
  | inl u ↦
      let x = fd_scan-IsFirst files n (start + 1) fd (sym (rw (u, fd_scan) refl) ∙ h) in
      let l = x.from in
      let r = x.below in
      record {
        from = omega arith;
        below = omega arith;
        unused = x.unused;
        before = λ j l' r'. elim (Bool-cases (j == start)) [
          | inl e ↦ let at : j ≡ start = ground arith in rw at u
          | inr e ↦ x.before j (ground arith) r'
        ];
      }
]

-- What a call that returns a new descriptor has done to the table.
pub record IsFresh (w w' : World) (fd : ℕ) : Type 0 where
  pub in_table : fd < max_open_files
  pub was_free : (w.files fd).used ≡ false
  pub is_lowest : (j : ℕ) → j < fd → (w.files j).used ≡ true
  pub is_open : (w'.files fd).used ≡ true
  pub others : (j : ℕ) → j ≢ fd → w'.files j ≡ w.files j

fd_alloc-IsFresh : (w : World) (fd : ℕ) (w' : World) → fd_alloc w ≡ done fd w' → IsFresh w w' fd
unfolding fd_alloc
fd_alloc-IsFresh w fd w' h = elim (Option-cases (fd_scan w.files max_open_files 0)) [
  | inl e ↦ let h' : fail enfile w ≡ done fd w' = sym (rw (e, fd_alloc) refl) ∙ h in absurd (cc)
  | inr (i, e) ↦
      let there : World = set_file w i (record (w.files i) { used = true }) in
      let h' : done i there ≡ done fd w' = sym (rw (e, fd_alloc) refl) ∙ h in
      let same : there ≡ w' = cc in
      let at : i ≡ fd = cc in
      let x = fd_scan-IsFirst w.files max_open_files 0 i e in
      let r = x.below in
      let y : IsFresh w there i = record {
        in_table = omega arith;
        was_free = x.unused;
        is_lowest = λ j l. x.before j (omega arith) l;
        is_open = ground arith;
        others = λ j ne. ground arith;
      } in
      rw (sym same, sym at) y
]

-- What `open_file` does to the table.
record Opened (w w' : World) (fd node : ℕ) : Type 0 where
  use_kept : (w'.files fd).used ≡ (w.files fd).used
  on_node : (w'.files fd).node ≡ some node
  others_kept : (j : ℕ) → j ≢ fd → w'.files j ≡ w.files j

open_entry :
    (w w' : World) (fd node : ℕ) (f : File)
    → w'.files ≡ update w.files fd f
    → f.used ≡ (w.files fd).used
    → f.node ≡ some node
    → Opened w w' fd node
open_entry w w' fd node f h used on =
    let at : update w.files fd f fd ≡ f = ground arith in
    record {
      use_kept = rw (h, at) used;
      on_node = rw (h, at) on;
      others_kept =
          λ j ne. let keep : update w.files fd f j ≡ w.files j = ground arith in rw (h, keep) refl;
    }

open_file-Opened :
    (flags node fd : ℕ) (w : World) (fd' : ℕ) (w' : World)
    → open_file flags node fd w ≡ done fd' w'
    → (fd' ≡ fd) × Opened w w' fd node
unfolding open_file
open_file-Opened flags node fd w fd' w' h =
    let size = (w.ramfs.nodes node).size in
    let start = if has flags o_append then size else 0 in
    let f : File = record {
      used = (w.files fd).used;
      flags = flags;
      offset = start;
      node = some node;
      fs = true;
    } in
    let f0 : File = record {
      used = (w.files fd).used;
      flags = flags;
      offset = 0;
      node = some node;
      fs = true;
    } in
    elim (Bool-cases (has flags o_trunc)) [
      | inr t ↦
          let h' : done fd (set_file w fd f) ≡ done fd' w' = sym (rw (t, open_file) refl) ∙ h in
          let same : set_file w fd f ≡ w' = cc in
          (cc, open_entry w w' fd node f (rw (sym same) refl) refl refl)
      | inl t ↦ elim (Bool-cases (can_write flags)) [
        | inr c ↦
            let h' : fail eacces
                  (set_file w fd (record f { used = false; node = none; fs = false }))
                ≡ done fd' w' =
              sym (rw (t, c, open_file) refl) ∙ h in
            absurd (cc)
        | inl c ↦
            let there : World =
              set_node (set_file w fd f0) node (record (w.ramfs.nodes node) { size = 0 }) in
            let h' : done fd there ≡ done fd' w' = sym (rw (t, c, open_file) refl) ∙ h in
            let same : there ≡ w' = cc in
            (cc, open_entry w w' fd node f0 (rw (sym same) refl) refl refl)
      ]
    ]

open_node-files :
    (path : List ℕ) (flags : ℕ) (w : World) (node : ℕ) (w' : World)
    → open_node path flags w ≡ done node w'
    → w'.files ≡ w.files
unfolding open_node
open_node-files path flags w node w' h = elim (Result-cases (ramfs_lookup w.ramfs path)) [
  | inl (node', l) ↦ let h' : done node' w ≡ done node w' = sym (rw (l, open_node) refl) ∙ h in cc
  | inr (e, l) ↦ elim (Bool-cases (has flags o_creat)) [
    | inr c ↦ let h' : fail e w ≡ done node w' = sym (rw (l, c, open_node) refl) ∙ h in absurd (cc)
    | inl c ↦ elim (Result-cases (ramfs_create_file w.ramfs path)) [
      | inr (e', r) ↦
          let h' : fail e' w ≡ done node w' = sym (rw (l, c, r, open_node) refl) ∙ h in absurd (cc)
      | inl ((node', fs'), r) ↦
          let made : World = record w { ramfs = fs' } in
          let h' : done node' made ≡ done node w' = sym (rw (l, c, r, open_node) refl) ∙ h in
          let same : made ≡ w' = cc in rw (sym same) refl
    ]
  ]
]

-- When `mcs_vfs_open` succeeds, the descriptor that it returns is the lowest that was free, it is now
-- in use, and every other entry of the table is as it was.
pub vfs_open-IsFresh :
    (path : List ℕ) (flags : ℕ) (w : World) (fd : ℕ) (w' : World)
    → vfs_open path flags w ≡ done fd w'
    → IsFresh w w' fd
unfolding vfs_open open_at
vfs_open-IsFresh path flags w fd w' h =
    let o = open_flags flags in
    elim (Outcome-cases (open_node path o w)) [
      | inr (e, w1, n) ↦
          let h' : fail e w1 ≡ done fd w' = sym (rw (n, vfs_open) refl) ∙ h in absurd (cc)
      | inl (node, w1, n) ↦
          let h1 : open_at o node w1 ≡ done fd w' = sym (rw (n, vfs_open) refl) ∙ h in
          let files = open_node-files path o w node w1 n in
          elim (Bool-cases (is_dir (w1.ramfs.nodes node).type && can_write o)) [
            | inl d ↦
                let h2 : fail eisdir w1 ≡ done fd w' = sym (rw (d, open_at) refl) ∙ h1 in
                absurd (cc)
            | inr d ↦ elim (Outcome-cases (fd_alloc w1)) [
              | inr (e, w2, a) ↦
                  let h2 : fail e w2 ≡ done fd w' = sym (rw (d, a, open_at) refl) ∙ h1 in
                  absurd (cc)
              | inl (fd1, w2, a) ↦
                  let h2 : open_file o node fd1 w2 ≡ done fd w' =
                    sym (rw (d, a, open_at) refl) ∙ h1 in
                  let x = fd_alloc-IsFresh w1 fd1 w2 a in
                  let (at, y) = open_file-Opened o node fd1 w2 fd w' h2 in
                  let z : IsFresh w w' fd1 = record {
                    in_table = x.in_table;
                    was_free = rw (sym files) x.was_free;
                    is_lowest = λ j l. rw (sym files) (x.is_lowest j l);
                    is_open = y.use_kept ∙ x.is_open;
                    others = λ j ne. y.others_kept j ne ∙ x.others j ne ∙ rw files refl;
                  } in
                  rw at z
            ]
          ]
    ]

fd_get-pos : (w : World) (fd : ℤ) (i : ℕ) → fd_get w fd ≡ some i → fd ≡ pos i
unfolding fd_get
fd_get-pos w (negsuc n) i h = absurd (cc)
fd_get-pos w (pos n) i h = elim (Bool-cases (leb max_open_files n)) [
  | inl b ↦ let h' : none ≡ some i = sym (rw (b, fd_get) refl) ∙ h in absurd (cc)
  | inr b ↦ elim (Bool-cases (w.files n).used) [
    | inr u ↦ let h' : none ≡ some i = sym (rw (b, u, fd_get) refl) ∙ h in absurd (cc)
    | inl u ↦ let h' : some n ≡ some i = sym (rw (b, u, fd_get) refl) ∙ h in cc
  ]
]

vfs_close-none : (fd : ℤ) (w w' : World) → vfs_close fd w ≡ done tt w' → fd_get w' fd ≡ none
unfolding vfs_close fd_get
vfs_close-none fd w w' h = elim (Option-cases (fd_get w fd)) [
  | inl e ↦ let h' : fail ebadf w ≡ done tt w' = sym (rw (e, vfs_close) refl) ∙ h in absurd (cc)
  | inr (i, e) ↦
      let there : World = set_file w i closed_file in
      let h' : done tt there ≡ done tt w' = sym (rw (e, vfs_close) refl) ∙ h in
      let same : there ≡ w' = cc in
      let unused : (update w.files i closed_file i).used ≡ false = ground arith in
      let gone : fd_get there (pos i) ≡ none = elim (Bool-cases (leb max_open_files i)) [
        | inl b ↦ rw (b, fd_get) refl
        | inr b ↦ rw (b, unused, fd_get) refl
      ] in
      rw (sym same, fd_get-pos w fd i e) gone
]

-- After `mcs_vfs_close` succeeds on a descriptor, every further read, write, seek, close or dup of it
-- fails with EBADF and changes nothing.
pub vfs_close-stale :
    (fd : ℤ) (w w' : World) (len : ℕ) (src : List ℕ) (offset whence : ℤ)
    → vfs_close fd w ≡ done tt w'
    → (vfs_read fd len w' ≡ fail ebadf w')
      × (vfs_write fd src w' ≡ fail ebadf w')
      × (vfs_lseek fd offset whence w' ≡ fail ebadf w')
      × (vfs_close fd w' ≡ fail ebadf w')
      × (vfs_dup fd w' ≡ fail ebadf w')
unfolding vfs_close vfs_read vfs_write vfs_lseek vfs_dup
vfs_close-stale fd w w' len src offset whence h =
    let stale : fd_get w' fd ≡ none = vfs_close-none fd w w' h in
    (
      rw (stale, vfs_read) refl,
      rw (stale, vfs_write) refl,
      rw (stale, vfs_lseek) refl,
      rw (stale, vfs_close) refl,
      rw (stale, vfs_dup) refl,
    )
