-- ===== src/Vfs/Create.antt =====
-- mcs_ramfs_create_file: the file that it makes is the one that its path leads to.
use acep_reja_mcsos.Vfs.Scan.{
  Extends, streq_n-copy_name, resolve_parent-leaf, resolve-new, resolve-kept,
}
use acep_reja_mcsos.Vfs.Paths.{split_parent_leaf_lem, ramfs_lookup_lem, segments}
use acep_reja_mcsos.Vfs.Ramfs.{
  ramfs_create_file, create_in, new_node, alloc_node, ramfs_lookup, split_parent_leaf,
}
use acep_reja_mcsos.Vfs.{
  RamFs, VnodeType, is_dir, max_name, max_path, file, max_nodes, eisdir, data_bytes, Error, enotdir,
  einval, enospc, dir,
}
use acep_reja_mcsos.Common.{
  ℕ, ◌+◌, ◌-◌, ◌≤◌, ◌<◌, ◌≡◌, refl, sym, ap, ◌∙◌, ◌≢◌, inl, inr, false, ◌||◌, List, [], ◌∷◌, arith,
  ltb, leb, ◌==◌, Bool-cases, update, length, Result-cases, value, error,
}

-- What a successful creation leaves.
abbrev pub with_file : RamFs → ℕ → List ℕ → ℕ → RamFs
with_file fs parent leaf len = record {
  nodes = update fs.nodes fs.node_count (new_node fs (fs.nodes parent).id file leaf len 256);
  node_count = fs.node_count + 1;
  bytes = fs.bytes;
  data_used = fs.data_used + 256;
}

pub create_in-made :
    (fs : RamFs) (p : ℕ) (leaf : List ℕ) (len node : ℕ) (fs' : RamFs)
    → create_in fs (p, leaf, len) ≡ value (node, fs')
    → (node ≡ fs.node_count)
      × (fs' ≡ with_file fs p leaf len)
      × (0 < len)
      × (len < max_name)
      × (fs.node_count < max_nodes)
      × (fs.data_used + 256 ≤ data_bytes)
unfolding create_in alloc_node
create_in-made fs p leaf len node fs' h = elim (Bool-cases (is_dir (fs.nodes p).type)) [
  | inr d ↦ let h' : error enotdir ≡ value (node, fs') = sym (rw d refl) ∙ h in absurd (cc)
  | inl d ↦ elim (Bool-cases (len == 0 || leb max_name len)) [
    | inl b ↦ let h' : error einval ≡ value (node, fs') = sym (rw (d, b) refl) ∙ h in absurd (cc)
    | inr b ↦ elim (Bool-cases (leb max_nodes fs.node_count)) [
      | inl c ↦
          let h' : error enospc ≡ value (node, fs') = sym (rw (d, b, c) refl) ∙ h in absurd (cc)
      | inr c ↦ elim (Bool-cases (ltb data_bytes (fs.data_used + 256))) [
        | inl u ↦
            let h' : error enospc ≡ value (node, fs') = sym (rw (d, b, c, u) refl) ∙ h in
            absurd (cc)
        | inr u ↦
            let h' : value (fs.node_count, with_file fs p leaf len) ≡ value (node, fs') =
              sym (rw (d, b, c, u) refl) ∙ h in
            (cc, cc, ground arith, ground arith, ground arith, ground arith)
      ]
    ]
  ]
]

-- A creation that succeeds finds a file or makes one.
pub data Created (fs : RamFs) (path : List ℕ) (node : ℕ) (fs' : RamFs) : Type 0 where
  found :
      ramfs_lookup fs path ≡ value node
      → fs' ≡ fs
      → (fs.nodes node).type ≡ file
      → Created fs path node fs'
  made :
      (e : Error) (p : ℕ) (leaf : List ℕ) (len : ℕ)
      → ramfs_lookup fs path ≡ error e
      → split_parent_leaf fs path ≡ value (p, leaf, len)
      → create_in fs (p, leaf, len) ≡ value (node, fs')
      → Created fs path node fs'

not_dir : (t : VnodeType) → is_dir t ≡ false → t ≡ file
not_dir dir h = absurd (cc)
not_dir file h = refl

pub ramfs_create_file-Created :
    (fs : RamFs) (path : List ℕ) (node : ℕ) (fs' : RamFs)
    → ramfs_create_file fs path ≡ value (node, fs')
    → Created fs path node fs'
unfolding ramfs_create_file
ramfs_create_file-Created fs path node fs' h = elim (Result-cases (ramfs_lookup fs path)) [
  | inl (n, l) ↦ elim (Bool-cases (is_dir (fs.nodes n).type)) [
    | inl d ↦
        let h' : error eisdir ≡ value (node, fs') = sym (rw (l, d, ramfs_create_file) refl) ∙ h in
        absurd (cc)
    | inr d ↦
        let h' : value (n, fs) ≡ value (node, fs') = sym (rw (l, d, ramfs_create_file) refl) ∙ h in
        let n' : n ≡ node = cc in
        let same : fs' ≡ fs = cc in
        found (l ∙ ap (λ k. value k) n') same (rw (sym n') (not_dir _ d))
  ]
  | inr (e, l) ↦ elim (Result-cases (split_parent_leaf fs path)) [
    | inr (e', s) ↦
        let h' : error e' ≡ value (node, fs') = sym (rw (l, s, ramfs_create_file) refl) ∙ h in
        absurd (cc)
    | inl ((p, leaf, len), s) ↦ made e p leaf len l s (sym (rw (l, s, ramfs_create_file) refl) ∙ h)
  ]
]

with_file-Extends :
    (fs : RamFs) (p : ℕ) (leaf : List ℕ)
    → length leaf < max_name
    → Extends fs (with_file fs p leaf (length leaf)) p leaf (length leaf)
with_file-Extends fs p leaf h = record {
  count = refl;
  old = λ j lt. ground arith;
  used = ground arith;
  below = ground arith;
  named =
      let at : update fs.nodes fs.node_count
            (new_node fs (fs.nodes p).id file leaf (length leaf) 256) fs.node_count
          ≡ new_node fs (fs.nodes p).id file leaf (length leaf) 256 =
        ground arith in
      rw at (streq_n-copy_name leaf h);
}

create_in-Extends :
    (fs : RamFs) (p : ℕ) (leaf : List ℕ) (len node : ℕ) (fs' : RamFs)
    → len ≡ length leaf
    → create_in fs (p, leaf, len) ≡ value (node, fs')
    → (node ≡ fs.node_count) × Extends fs fs' p leaf len × ((fs'.nodes node).type ≡ file)
create_in-Extends fs p leaf len node fs' whole h =
    let (at, same, pos_len, short_len, room, space) = create_in-made fs p leaf len node fs' h in
    let step : with_file fs p leaf len ≡ with_file fs p leaf (length leaf) =
      ap (with_file fs p leaf) whole in
    let x = with_file-Extends fs p leaf (omega (arith, whole)) in
    let is_file : ((with_file fs p leaf len).nodes fs.node_count).type ≡ file = ground arith in
    (at, rw (same, step, whole) x, rw (same, at) is_file)

module _ (fs : RamFs) (path : List ℕ) (node : ℕ) (fs' : RamFs) (root : 0 < fs.node_count)
    (some_name : path ≢ []) (short : length path < max_path - 1)
    (created : ramfs_create_file fs (b'/' ∷ path) ≡ value (node, fs')) where
  -- When `mcs_ramfs_create_file` succeeds on a path of fewer than 128 bytes that is not the root's, in
  -- a file system that has its root, the same path leads to the node that it returns, and that node
  -- is a file.
  pub ramfs_create_file-lookup :
      (ramfs_lookup fs' (b'/' ∷ path) ≡ value node) × ((fs'.nodes node).type ≡ file)
  ramfs_create_file-lookup = elim (ramfs_create_file-Created fs (b'/' ∷ path) node fs' created) [
    | found l same t ↦ (rw same l, rw same t)
    | made e p leaf len l s c ↦
        let parent = sym (split_parent_leaf_lem fs path some_name short) ∙ s in
        let miss = sym (ramfs_lookup_lem fs path some_name short) ∙ l in
        let whole = resolve_parent-leaf fs 0 (segments path) p leaf len parent in
        let (at, x, is_file) = create_in-Extends fs p leaf len node fs' whole c in
        (
          ramfs_lookup_lem fs' path some_name short
              ∙ resolve-new fs fs' p leaf len x 0 (segments path) e root parent miss
              ∙ ap (λ k. value k) (sym at),
          is_file,
        )
  ]

  -- When `mcs_ramfs_create_file` succeeds on such a path, every such path that led to a node before
  -- leads to the same node after it.
  pub ramfs_create_file-kept :
      (other : List ℕ) (n : ℕ)
      → other ≢ []
      → length other < max_path - 1
      → ramfs_lookup fs (b'/' ∷ other) ≡ value n
      → ramfs_lookup fs' (b'/' ∷ other) ≡ value n
  ramfs_create_file-kept other n other_name other_short led =
      elim (ramfs_create_file-Created fs (b'/' ∷ path) node fs' created) [
        | found l same t ↦ rw same led
        | made e p leaf len l s c ↦
            let parent = sym (split_parent_leaf_lem fs path some_name short) ∙ s in
            let whole = resolve_parent-leaf fs 0 (segments path) p leaf len parent in
            let (at, x, is_file) = create_in-Extends fs p leaf len node fs' whole c in
            ramfs_lookup_lem fs' other other_name other_short
            ∙ resolve-kept fs fs' p leaf len x 0 (segments other) n root
                (sym (ramfs_lookup_lem fs other other_name other_short) ∙ led)
      ]
