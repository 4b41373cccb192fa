-- ===== src/Vfs/Nodes.antt =====
-- The nodes of the RAM file system and their share of the bytes.
use acep_reja_mcsos.Vfs.Scan.{find_child_from-hit, or_enoent-value}
use acep_reja_mcsos.Vfs.Create.{with_file, ramfs_create_file-Created, found, made, create_in-made}
use acep_reja_mcsos.Vfs.Ramfs.{
  ramfs_seed_file, walk, ramfs_init, ramfs_lookup, find_child, ramfs_create_file, seg_len,
  or_enoent, find_child_from,
}
use acep_reja_mcsos.Vfs.{
  RamFs, dir, max_nodes, max_name, einval, data_bytes, is_dir, max_path, enotdir, enametoolong,
}
use acep_reja_mcsos.Common.{
  ℕ, zero, suc, ◌+◌, ◌≤◌, ◌<◌, ◌≡◌, refl, sym, ◌∙◌, inl, inr, true, ◌||◌, List, arith, ltb, leb,
  ◌==◌, Bool-cases, update, length, get_or, drop, left_by, Result-cases, value, error,
}

-- Every node is in use and has its index as id, its file fits in its share of the bytes, and the shares
-- are one after the other.
pub record IsValid (fs : RamFs) : Type 0 where
  pub root : 0 < fs.node_count
  pub root_dir : (fs.nodes 0).type ≡ dir
  pub count : fs.node_count ≤ max_nodes
  pub space : fs.data_used ≤ data_bytes
  pub used : (i : ℕ) → i < fs.node_count → (fs.nodes i).used ≡ true
  pub id : (i : ℕ) → i < fs.node_count → (fs.nodes i).id ≡ i
  pub fits : (i : ℕ) → i < fs.node_count → (fs.nodes i).size ≤ (fs.nodes i).data_capacity
  pub share :
      (i : ℕ)
      → i < fs.node_count
      → (fs.nodes i).data_offset + (fs.nodes i).data_capacity ≤ fs.data_used
  pub apart :
      (i j : ℕ)
      → i < j
      → j < fs.node_count
      → (fs.nodes i).data_offset + (fs.nodes i).data_capacity ≤ (fs.nodes j).data_offset

-- The file system after `mcs_ramfs_init` is valid.
pub ramfs_init-IsValid : IsValid ramfs_init
unfolding ramfs_init
ramfs_init-IsValid = record {
  root = omega arith;
  root_dir = refl;
  count = omega arith;
  space = omega arith;
  used = λ i lt. ground arith;
  id = λ i lt. ground arith;
  fits = λ i lt. ground arith;
  share = λ i lt. ground arith;
  apart = λ i j lt lt'. ground arith;
}

module _ (fs : RamFs) (v : IsValid fs) where
  with_file-IsValid :
      (p : ℕ) (leaf : List ℕ) (len : ℕ)
      → fs.node_count < max_nodes
      → fs.data_used + 256 ≤ data_bytes
      → IsValid (with_file fs p leaf len)
  with_file-IsValid p leaf len room space = record {
    root = omega arith;
    root_dir = ground (arith, v.root, v.root_dir);
    count = omega arith;
    space = omega arith;
    used = λ i lt. ground (arith, v.used i);
    id = λ i lt. ground (arith, v.id i);
    fits = λ i lt. ground (arith, v.fits i);
    share = λ i lt. ground (arith, v.share i);
    apart = λ i j lt lt'. ground (arith, v.apart i j lt, v.share i);
  }

  -- Only the size of a node, and the bytes.
  pub set_size-IsValid :
      (bytes : ℕ → ℕ) (n size : ℕ)
      → (n < fs.node_count → size ≤ (fs.nodes n).data_capacity)
      → IsValid (record fs {
        bytes = bytes;
        nodes = update fs.nodes n (record (fs.nodes n) { size = size });
      })
  set_size-IsValid bytes n size fits = record {
    root = v.root;
    root_dir = ground (arith, v.root_dir);
    count = v.count;
    space = v.space;
    used = λ i lt. ground (arith, v.used i lt);
    id = λ i lt. ground (arith, v.id i lt);
    fits = λ i lt. ground (arith, v.fits i lt, fits);
    share = λ i lt. ground (arith, v.share i lt);
    apart = λ i j lt lt'. ground (arith, v.apart i j lt lt');
  }

  -- `mcs_ramfs_create_file` keeps a valid file system valid.
  pub ramfs_create_file-IsValid :
      (path : List ℕ) (node : ℕ) (fs' : RamFs)
      → ramfs_create_file fs path ≡ value (node, fs')
      → IsValid fs'
  ramfs_create_file-IsValid path node fs' h = elim (ramfs_create_file-Created fs path node fs' h) [
    | found l same t ↦ rw same v
    | made e p leaf len l s c ↦
        let (at, same, pos_len, short_len, room, space) = create_in-made fs p leaf len node fs' c in
        rw same (with_file-IsValid p leaf len room space)
  ]

find_child-in_range :
    (fs : RamFs) (parent : ℕ) (name : List ℕ) (len c : ℕ)
    → find_child fs parent name len ≡ value c
    → c < fs.node_count
unfolding find_child
find_child-in_range fs parent name len c h = elim (Bool-cases (len == 0 || leb max_name len)) [
  | inl b ↦ let h' : error einval ≡ value c = sym (rw b refl) ∙ h in absurd (cc)
  | inr b ↦
      let h' : or_enoent (find_child_from fs parent name len fs.node_count 0) ≡ value c =
        sym (rw b refl) ∙ h in
      omega
        (arith, find_child_from-hit parent name len fs fs.node_count 0 c (or_enoent-value _ c h'))
]

walk-in_range :
    (fs : RamFs) (n cur : ℕ) (seg : List ℕ) (c : ℕ)
    → walk fs n cur seg ≡ value c
    → c < fs.node_count
unfolding walk
walk-in_range fs zero cur seg c h = absurd (cc)
walk-in_range fs (suc n) cur seg c h =
    let len = seg_len seg in
    elim (Bool-cases (length seg == 0 || (len == 0 || leb max_name len))) [
      | inl b ↦ let h' : error einval ≡ value c = sym (rw (b, walk) refl) ∙ h in absurd (cc)
      | inr b ↦ elim (Result-cases (find_child fs (fs.nodes cur).id seg len)) [
        | inr (e, r) ↦ let h' : error e ≡ value c = sym (rw (b, r, walk) refl) ∙ h in absurd (cc)
        | inl (child, r) ↦ elim (Bool-cases (leb (length seg) len)) [
          | inl last ↦
              let h' : value child ≡ value c = sym (rw (b, r, last, walk) refl) ∙ h in
              let at : child ≡ c = cc in omega (arith, at, find_child-in_range fs _ seg len child r)
          | inr more ↦ elim (Bool-cases (is_dir (fs.nodes child).type)) [
            | inr d ↦
                let h' : error enotdir ≡ value c = sym (rw (b, r, more, d, walk) refl) ∙ h in
                absurd (cc)
            | inl d ↦
                walk-in_range fs n child (drop (len + 1) seg) c
                  (sym (rw (b, r, more, d, walk) refl) ∙ h)
          ]
        ]
      ]
    ]

-- A path leads to one of the nodes.
pub ramfs_lookup-in_range :
    (fs : RamFs) (path : List ℕ) (c : ℕ)
    → 0 < fs.node_count
    → ramfs_lookup fs path ≡ value c
    → c < fs.node_count
unfolding ramfs_lookup
ramfs_lookup-in_range fs path c root h = elim (Bool-cases (get_or path 0 0 == b'/')) [
  | inr s ↦ let h' : error einval ≡ value c = sym (rw (s, ramfs_lookup) refl) ∙ h in absurd (cc)
  | inl s ↦ elim (Bool-cases (leb max_path (length path))) [
    | inl l ↦
        let h' : error enametoolong ≡ value c = sym (rw (s, l, ramfs_lookup) refl) ∙ h in
        absurd (cc)
    | inr l ↦ elim (Bool-cases (length path == 1)) [
      | inl o ↦
          let h' : value 0 ≡ value c = sym (rw (s, l, o, ramfs_lookup) refl) ∙ h in
          let at : 0 ≡ c = cc in omega (arith, at)
      | inr o ↦
          walk-in_range fs (length path) 0 (drop 1 path) c
            (sym (rw (s, l, o, ramfs_lookup) refl) ∙ h)
    ]
  ]
]

-- So does a creation that succeeds.
pub ramfs_create_file-in_range :
    (fs : RamFs) (path : List ℕ) (node : ℕ) (fs' : RamFs)
    → 0 < fs.node_count
    → ramfs_create_file fs path ≡ value (node, fs')
    → (node < fs'.node_count) × (fs.node_count ≤ fs'.node_count)
ramfs_create_file-in_range fs path node fs' root h =
    elim (ramfs_create_file-Created fs path node fs' h) [
      | found l same t ↦ rw same (ramfs_lookup-in_range fs path node root l, omega arith)
      | made e p leaf len l s c ↦
          let (at, same, pos_len, short_len, room, space) =
            create_in-made fs p leaf len node fs' c in
          rw (same, at) (omega arith, omega arith)
    ]

-- `mcs_ramfs_seed_file` leaves a valid file system valid, whether it succeeds or fails.
pub ramfs_seed_file-IsValid :
    (fs : RamFs) (path src : List ℕ) → IsValid fs → IsValid (left_by (ramfs_seed_file fs path src))
unfolding ramfs_seed_file
ramfs_seed_file-IsValid fs path src v = elim (Result-cases (ramfs_create_file fs path)) [
  | inr (e, r) ↦ rw (r, ramfs_seed_file) v
  | inl ((node, fs'), r) ↦
      let v' = ramfs_create_file-IsValid fs v path node fs' r in
      elim (Bool-cases (ltb (fs'.nodes node).data_capacity (length src))) [
        | inl b ↦ rw (r, b, ramfs_seed_file) v'
        | inr b ↦
            rw (r, b, ramfs_seed_file)
              (set_size-IsValid fs' v' _ node (length src) (λ lt. ground arith))
      ]
]
