-- ===== src/Vfs/Paths.antt =====
-- What a path means: the names between its slashes, followed from the root.
use acep_reja_mcsos.Vfs.{RamFs, Error, max_name, einval, is_dir, enotdir, max_path}
use acep_reja_mcsos.Vfs.Ramfs.{
  find_child, walk, find_child_from, streq_n, seg_len, walk_parent, ramfs_lookup, split_parent_leaf,
}
use acep_reja_mcsos.Common.{
  ℕ, zero, suc, ◌+◌, ◌≤◌, ◌<◌, ◌≡◌, refl, ap, ◌∙◌, inl, inr, Bool, true, false, ◌&&◌, ◌||◌, List,
  [], ◌∷◌, arith, leb, ◌==◌, if◌then◌else◌, Bool-cases, length, get_or, take, drop, bind, bind_ext,
  bind-value, Result, value, error, ◌-◌, ◌≢◌, take-all,
}

abbrev cons_head : ℕ → List (List ℕ) → List (List ℕ)
cons_head c [] = (c ∷ []) ∷ []
cons_head c (s ∷ ss) = (c ∷ s) ∷ ss

pub segments : List ℕ → List (List ℕ)
segments [] = [] ∷ []
segments (c ∷ cs) = let rest = segments cs in if c == b'/' then [] ∷ rest else cons_head c rest

-- Follow the names from node `cur`; all but the last must be directories.
unfoldable pub resolve : RamFs → ℕ → List (List ℕ) → Result Error ℕ
resolve fs cur [] = error einval
resolve fs cur (s ∷ []) =
    if length s == 0 || leb max_name (length s)
    then error einval
    else find_child fs (fs.nodes cur).id s (length s)
resolve fs cur (s ∷ t ∷ ss) =
    if length s == 0 || leb max_name (length s)
    then error einval
    else bind (find_child fs (fs.nodes cur).id s (length s)) λ child.
      let rest = resolve fs child (t ∷ ss) in
      if is_dir (fs.nodes child).type then rest else error enotdir

-- The directory that all but the last name lead to, and the last name.
unfoldable pub resolve_parent : RamFs → ℕ → List (List ℕ) → Result Error (ℕ × List ℕ × ℕ)
resolve_parent fs cur [] = error einval
resolve_parent fs cur (s ∷ []) =
    if length s == 0 || leb max_name (length s) then error einval else value (cur, s, length s)
resolve_parent fs cur (s ∷ t ∷ ss) =
    if length s == 0 || leb max_name (length s)
    then error einval
    else bind (find_child fs (fs.nodes cur).id s (length s)) λ child.
      let rest = resolve_parent fs child (t ∷ ss) in
      if is_dir (fs.nodes child).type then rest else error enotdir

pub seg_len-le : (seg : List ℕ) → seg_len seg ≤ length seg
unfolding seg_len
seg_len-le [] = omega arith
seg_len-le (c ∷ cs) = ground (arith, seg_len-le cs)

-- The first name of a path, and the rest if a slash follows it.
abbrev rest_of : List ℕ → List (List ℕ)
rest_of seg = if leb (length seg) (seg_len seg) then [] else segments (drop (seg_len seg + 1) seg)

segments_lem : (seg : List ℕ) → segments seg ≡ take (seg_len seg) seg ∷ rest_of seg
unfolding segments seg_len
segments_lem [] = refl
segments_lem (c ∷ cs) =
    let more : leb (suc (length cs)) 0 ≡ false = ground arith in
    let shift : leb (suc (length cs)) (suc (seg_len cs)) ≡ leb (length cs) (seg_len cs) =
      ground arith in
    let next : suc (seg_len cs) + 1 ≡ suc (seg_len cs + 1) = omega arith in
    elim (Bool-cases (c == b'/')) [
      | inl e ↦ rw (e, more) refl
      | inr e ↦ rw (e, shift, next, segments_lem cs) refl
    ]

streq_n-take : (a b : List ℕ) (n : ℕ) → streq_n (take n a) b n ≡ streq_n a b n
unfolding streq_n
streq_n-take a b zero = refl
streq_n-take [] b (suc n) = refl
streq_n-take (x ∷ xs) b (suc n) =
    ap (λ (r : Bool). (x == get_or b 0 0) && r) (streq_n-take xs (drop 1 b) n)

length-take : (n : ℕ) (xs : List ℕ) → n ≤ length xs → length (take n xs) ≡ n
length-take zero xs h = refl
length-take (suc n) [] h = absurd (omega arith)
length-take (suc n) (x ∷ xs) h = ap suc (length-take n xs (omega arith))

find_child_from-take :
    (fs : RamFs) (parent : ℕ) (seg : List ℕ) (len n i : ℕ)
    → find_child_from fs parent (take len seg) len n i ≡ find_child_from fs parent seg len n i
unfolding find_child_from
find_child_from-take fs parent seg len zero i = refl
find_child_from-take fs parent seg len (suc n) i =
    rw (streq_n-take seg (fs.nodes i).name len, find_child_from-take fs parent seg len n (i + 1))
      refl

-- Only the bytes up to the length are compared.
find_child-take :
    (fs : RamFs) (parent : ℕ) (seg : List ℕ)
    → find_child fs parent (take (seg_len seg) seg) (seg_len seg)
      ≡ find_child fs parent seg (seg_len seg)
unfolding find_child
find_child-take fs parent seg =
    rw (find_child_from-take fs parent seg (seg_len seg) fs.node_count 0) refl

-- What follows a slash is shorter.
length-drop : (n : ℕ) (xs : List ℕ) → length (drop n xs) ≤ length xs
length-drop zero xs = omega arith
length-drop (suc n) [] = omega arith
length-drop (suc n) (x ∷ xs) = omega (arith, length-drop n xs)

drop_shorter : (n : ℕ) (xs : List ℕ) → n < length xs → length (drop (n + 1) xs) < length xs
drop_shorter n [] h = absurd (omega arith)
drop_shorter n (x ∷ xs) h =
    let e : n + 1 ≡ suc n = omega arith in rw e (omega (arith, length-drop n xs))

module _ (seg : List ℕ) where
  abbrev tail : List ℕ
  tail = drop (seg_len seg + 1) seg

  names_last : leb (length seg) (seg_len seg) ≡ true → segments seg ≡ take (seg_len seg) seg ∷ []
  names_last last = segments_lem seg ∙ rw last refl

  names_more :
      leb (length seg) (seg_len seg) ≡ false
      → segments seg ≡ take (seg_len seg) seg ∷ take (seg_len tail) tail ∷ rest_of tail
  names_more more =
      segments_lem seg ∙ rw more (ap (λ ss. take (seg_len seg) seg ∷ ss) (segments_lem tail))

-- The loop of `mcs_ramfs_lookup` follows the names of what is left of the path, with any fuel above
-- its length.
walk_lem :
    (fs : RamFs) (n cur : ℕ) (seg : List ℕ)
    → length seg < n
    → walk fs n cur seg ≡ resolve fs cur (segments seg)
unfolding walk resolve
walk_lem fs zero cur seg h = absurd (omega arith)
walk_lem fs (suc n) cur seg h =
    let le = seg_len-le seg in
    let same = length-take (seg_len seg) seg le in
    let found = find_child-take fs (fs.nodes cur).id seg in
    let bad = seg_len seg == 0 || leb max_name (seg_len seg) in
    let rest : (child : ℕ)
        → leb (length seg) (seg_len seg) ≡ false
        → walk fs n child (tail seg)
          ≡ resolve fs child (take (seg_len (tail seg)) (tail seg) ∷ rest_of (tail seg)) =
      λ child more.
        walk_lem fs n child (tail seg)
          (omega (arith, drop_shorter (seg_len seg) seg (ground arith)))
        ∙ ap (resolve fs child) (segments_lem (tail seg)) in
    elim (Bool-cases (leb (length seg) (seg_len seg))) [
      | inl last ↦ elim (Bool-cases bad) [
        | inl b ↦
            let g : (length seg == 0 || bad) ≡ true = ground arith in
            rw (names_last seg last, same, g, b, walk) refl
        | inr b ↦
            let g : (length seg == 0 || bad) ≡ false = ground arith in
            rw (names_last seg last, same, found, g, b, last, walk)
              (bind-value (find_child fs (fs.nodes cur).id seg (seg_len seg)))
      ]
      | inr more ↦ elim (Bool-cases bad) [
        | inl b ↦
            let g : (length seg == 0 || bad) ≡ true = ground arith in
            rw (names_more seg more, same, g, b, walk) refl
        | inr b ↦
            let g : (length seg == 0 || bad) ≡ false = ground arith in
            rw (names_more seg more, same, found, g, b, more, walk)
              (bind_ext (find_child fs (fs.nodes cur).id seg (seg_len seg)) _ _ λ child.
                ap (λ r. if is_dir (fs.nodes child).type then r else error enotdir)
                  (rest child more))
      ]
    ]

-- So does the loop of `mcs_split_parent_leaf`.
walk_parent_lem :
    (fs : RamFs) (n cur : ℕ) (seg : List ℕ)
    → length seg < n
    → walk_parent fs n cur seg ≡ resolve_parent fs cur (segments seg)
unfolding walk_parent resolve_parent
walk_parent_lem fs zero cur seg h = absurd (omega arith)
walk_parent_lem fs (suc n) cur seg h =
    let same = length-take (seg_len seg) seg (seg_len-le seg) in
    let found = find_child-take fs (fs.nodes cur).id seg in
    let bad = seg_len seg == 0 || leb max_name (seg_len seg) in
    elim (Bool-cases (leb (length seg) (seg_len seg))) [
      | inl last ↦
          let whole = take-all (seg_len seg) seg (ground arith) in
          elim (Bool-cases bad) [
            | inl b ↦ rw (names_last seg last, same, b, walk_parent) refl
            | inr b ↦ rw (names_last seg last, same, b, last, walk_parent, whole) refl
          ]
      | inr more ↦ elim (Bool-cases bad) [
        | inl b ↦ rw (names_more seg more, same, b, walk_parent) refl
        | inr b ↦
            let rest : (child : ℕ)
                → walk_parent fs n child (tail seg)
                  ≡ resolve_parent fs child
                      (take (seg_len (tail seg)) (tail seg) ∷ rest_of (tail seg)) =
              λ child.
                walk_parent_lem fs n child (tail seg)
                  (omega (arith, drop_shorter (seg_len seg) seg (ground arith)))
                ∙ ap (resolve_parent fs child) (segments_lem (tail seg)) in
            rw (names_more seg more, same, found, b, more, walk_parent)
              (bind_ext (find_child fs (fs.nodes cur).id seg (seg_len seg)) _ _ λ child.
                ap (λ r. if is_dir (fs.nodes child).type then r else error enotdir) (rest child))
      ]
    ]

-- On an absolute path of fewer than 128 bytes other than the root's, the loop of `mcs_ramfs_lookup`,
-- with fuel for as many rounds as the path has bytes, never runs out of it: it gives what following
-- the names of the path from the root gives, by recursion on the list of the names.
pub ramfs_lookup_lem :
    (fs : RamFs) (path : List ℕ)
    → path ≢ []
    → length path < max_path - 1
    → ramfs_lookup fs (b'/' ∷ path) ≡ resolve fs 0 (segments path)
unfolding ramfs_lookup
ramfs_lookup_lem fs [] some_name short = absurd (some_name refl)
ramfs_lookup_lem fs (c ∷ cs) some_name short =
    let room : leb max_path (suc (suc (length cs))) ≡ false = ground arith in
    let more : (suc (suc (length cs)) == 1) ≡ false = ground arith in
    rw (room, more) (walk_lem fs (suc (suc (length cs))) 0 (c ∷ cs) (omega arith))

pub split_parent_leaf_lem :
    (fs : RamFs) (path : List ℕ)
    → path ≢ []
    → length path < max_path - 1
    → split_parent_leaf fs (b'/' ∷ path) ≡ resolve_parent fs 0 (segments path)
unfolding split_parent_leaf
split_parent_leaf_lem fs [] some_name short = absurd (some_name refl)
split_parent_leaf_lem fs (c ∷ cs) some_name short =
    let room : leb max_path (suc (suc (length cs))) ≡ false = ground arith in
    let more : (suc (suc (length cs)) == 1) ≡ false = ground arith in
    rw (room, more) (walk_parent_lem fs (suc (suc (length cs))) 0 (c ∷ cs) (omega arith))
