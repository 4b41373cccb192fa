-- ===== src/Vfs/Scan.antt =====
-- The search for a name, in a file system with one node more.
use acep_reja_mcsos.Vfs.Paths.{resolve_parent, resolve}
use acep_reja_mcsos.Vfs.Ramfs.{or_enoent, streq_n, copy_name, find_child_from, find_child}
use acep_reja_mcsos.Vfs.{RamFs, Error, max_name, einval, is_dir, enotdir}
use acep_reja_mcsos.Common.{
  ℕ, zero, suc, ◌+◌, ◌-◌, ◌<◌, ◌≡◌, refl, sym, ap, ◌∙◌, inl, inr, true, false, ◌||◌, Option, none,
  some, List, [], ◌∷◌, ◌++◌, arith, ltb, leb, ◌==◌, if◌then◌else◌, Bool-cases, length, get_or,
  take-all, Result-cases, value, error,
}

module _ (parent : ℕ) (name : List ℕ) (len : ℕ) where
  -- The scan reads no node past its end.
  find_child_from-agree :
      (fs fs' : RamFs) (n i : ℕ)
      → ((j : ℕ) → j < i + n → fs'.nodes j ≡ fs.nodes j)
      → find_child_from fs' parent name len n i ≡ find_child_from fs parent name len n i
  unfolding find_child_from
  find_child_from-agree fs fs' zero i same = refl
  find_child_from-agree fs fs' (suc n) i same =
      rw
        (same i (omega arith), find_child_from-agree fs fs' n (i + 1) (λ j h. same j (omega arith)))
        refl

  -- A hit is in range.
  pub find_child_from-hit :
      (fs : RamFs) (n i c : ℕ) → find_child_from fs parent name len n i ≡ some c → c < i + n
  unfolding find_child_from
  find_child_from-hit fs zero i c h = absurd (cc)
  find_child_from-hit fs (suc n) i c h = ground (arith, find_child_from-hit fs n (i + 1) c)

  -- One more round looks at one more node, if the rounds before it miss.
  find_child_from-more :
      (fs : RamFs) (n i c : ℕ)
      → find_child_from fs parent name len n i ≡ some c
      → find_child_from fs parent name len (suc n) i ≡ some c
  unfolding find_child_from
  find_child_from-more fs zero i c h = absurd (cc)
  find_child_from-more fs (suc n) i c h = ground (arith, find_child_from-more fs n (i + 1) c)

  find_child_from-last :
      (fs : RamFs) (n i : ℕ)
      → find_child_from fs parent name len n i ≡ none
      → (fs.nodes (i + n)).used ≡ true
      → (fs.nodes (i + n)).parent ≡ parent
      → streq_n name (fs.nodes (i + n)).name len ≡ true
      → find_child_from fs parent name len (suc n) i ≡ some (i + n)
  unfolding find_child_from
  find_child_from-last fs zero i miss u p s =
      let e : i + 0 ≡ i = omega arith in
      let u' : (fs.nodes i).used ≡ true = rw (sym e) u in
      let p' : (fs.nodes i).parent ≡ parent = rw (sym e) p in
      let s' : streq_n name (fs.nodes i).name len ≡ true = rw (sym e) s in ground (arith, e)
  find_child_from-last fs (suc n) i miss u p s =
      let e : i + suc n ≡ i + 1 + n = omega arith in
      let u' : (fs.nodes (i + 1 + n)).used ≡ true = rw (sym e) u in
      let p' : (fs.nodes (i + 1 + n)).parent ≡ parent = rw (sym e) p in
      let s' : streq_n name (fs.nodes (i + 1 + n)).name len ≡ true = rw (sym e) s in
      ground (arith, e, find_child_from-last fs n (i + 1) (ground arith) u' p' s')

streq_n-append : (s r : List ℕ) → get_or r 0 0 ≡ 0 → streq_n s (s ++ r) (length s) ≡ true
unfolding streq_n
streq_n-append [] r h = rw h refl
streq_n-append (x ∷ xs) r h =
    let e : (x == x) ≡ true = ground arith in rw (e, streq_n-append xs r h) refl

-- A name of fewer than 32 bytes is stored whole.
pub streq_n-copy_name :
    (s : List ℕ) → length s < max_name → streq_n s (copy_name s (length s)) (length s) ≡ true
unfolding copy_name
streq_n-copy_name s h =
    let k : (if ltb (length s) (max_name - 1) then length s else max_name - 1) ≡ length s =
      ground arith in
    let z : max_name - length s ≡ suc (max_name - length s - 1) = omega arith in
    rw (k, take-all (length s) s (omega arith), z) (streq_n-append s _ refl)

-- A file system with one node more.
pub record Extends (fs fs' : RamFs) (parent : ℕ) (leaf : List ℕ) (len : ℕ) : Type 0 where
  pub count : fs'.node_count ≡ fs.node_count + 1
  pub old : (j : ℕ) → j < fs.node_count → fs'.nodes j ≡ fs.nodes j
  pub used : (fs'.nodes fs.node_count).used ≡ true
  pub below : (fs'.nodes fs.node_count).parent ≡ (fs.nodes parent).id
  pub named : streq_n leaf (fs'.nodes fs.node_count).name len ≡ true

pub or_enoent-value : (r : Option ℕ) (c : ℕ) → or_enoent r ≡ value c → r ≡ some c
or_enoent-value none c h = absurd (cc)
or_enoent-value (some i) c h = cc

or_enoent-error : (r : Option ℕ) (e : Error) → or_enoent r ≡ error e → r ≡ none
or_enoent-error none e h = refl
or_enoent-error (some i) e h = absurd (cc)

module _ (fs fs' : RamFs) (p : ℕ) (leaf : List ℕ) (plen : ℕ) (x : Extends fs fs' p leaf plen) where
  scan_more :
      (parent : ℕ) (name : List ℕ) (len : ℕ) (r : Option ℕ)
      → find_child_from fs' parent name len (suc fs.node_count) 0 ≡ r
      → find_child_from fs' parent name len fs'.node_count 0 ≡ r
  scan_more parent name len r h =
      ap (λ n. find_child_from fs' parent name len n 0) (x.count ∙ omega arith) ∙ h

  scan_same :
      (parent : ℕ) (name : List ℕ) (len : ℕ)
      → find_child_from fs' parent name len fs.node_count 0
        ≡ find_child_from fs parent name len fs.node_count 0
  scan_same parent name len =
      find_child_from-agree parent name len fs fs' fs.node_count 0 (λ j lt. x.old j (omega arith))

  find_child-kept :
      (parent : ℕ) (name : List ℕ) (len c : ℕ)
      → find_child fs parent name len ≡ value c
      → find_child fs' parent name len ≡ value c × c < fs.node_count
  unfolding find_child
  find_child-kept parent name len c h = elim (Bool-cases (len == 0 || leb max_name len)) [
    | inl b ↦ let h' : error einval ≡ value c = sym (rw b refl) ∙ h in absurd (cc)
    | inr b ↦
        let h' : or_enoent (find_child_from fs parent name len fs.node_count 0) ≡ value c =
          sym (rw b refl) ∙ h in
        let s = or_enoent-value _ c h' in
        let in_range = find_child_from-hit parent name len fs fs.node_count 0 c s in
        let more = scan_more parent name len (some c) (
          find_child_from-more parent name len fs' fs.node_count 0 c
            (scan_same parent name len ∙ s)) in
        (rw (b, more) refl, omega arith)
  ]

  -- The new node is found if nothing was.
  find_child-new :
      (e : Error)
      → find_child fs (fs.nodes p).id leaf plen ≡ error e
      → (plen == 0 || leb max_name plen) ≡ false
      → find_child fs' (fs.nodes p).id leaf plen ≡ value fs.node_count
  unfolding find_child
  find_child-new e h b =
      let h' : or_enoent (find_child_from fs (fs.nodes p).id leaf plen fs.node_count 0) ≡ error e =
        sym (rw b refl) ∙ h in
      let z : 0 + fs.node_count ≡ fs.node_count = omega arith in
      let last = scan_more (fs.nodes p).id leaf plen (some fs.node_count) (
        find_child_from-last (fs.nodes p).id leaf plen fs' fs.node_count 0
          (scan_same (fs.nodes p).id leaf plen ∙ or_enoent-error _ e h') (rw z x.used)
          (rw z x.below) (rw z x.named)
        ∙ ap some z) in
      rw (b, last) refl

  -- Every name that led to a node still does.
  pub resolve-kept :
      (cur : ℕ) (ss : List (List ℕ)) (c : ℕ)
      → cur < fs.node_count
      → resolve fs cur ss ≡ value c
      → resolve fs' cur ss ≡ value c
  unfolding resolve
  resolve-kept cur [] c lt h = absurd (cc)
  resolve-kept cur (s ∷ []) c lt h = elim (Bool-cases (length s == 0 || leb max_name (length s))) [
    | inl b ↦ let h' : error einval ≡ value c = sym (rw b refl) ∙ h in absurd (cc)
    | inr b ↦
        let h' : find_child fs (fs.nodes cur).id s (length s) ≡ value c = sym (rw b refl) ∙ h in
        rw (b, x.old cur lt) (find_child-kept _ _ _ c h').0
  ]
  resolve-kept cur (s ∷ t ∷ ss) c lt h =
      elim (Bool-cases (length s == 0 || leb max_name (length s))) [
        | inl b ↦ let h' : error einval ≡ value c = sym (rw b refl) ∙ h in absurd (cc)
        | inr b ↦ elim (Result-cases (find_child fs (fs.nodes cur).id s (length s))) [
          | inr (e, r) ↦ let h' : error e ≡ value c = sym (rw (b, r) refl) ∙ h in absurd (cc)
          | inl (child, r) ↦ elim (Bool-cases (is_dir (fs.nodes child).type)) [
            | inr d ↦ let h' : error enotdir ≡ value c = sym (rw (b, r, d) refl) ∙ h in absurd (cc)
            | inl d ↦
                let h' : resolve fs child (t ∷ ss) ≡ value c = sym (rw (b, r, d) refl) ∙ h in
                let kept = find_child-kept _ _ _ child r in
                rw (b, x.old cur lt, kept.0, x.old child kept.1, d)
                  (resolve-kept child (t ∷ ss) c kept.1 h')
          ]
        ]
      ]

  pub resolve-new :
      (cur : ℕ) (ss : List (List ℕ)) (e : Error)
      → cur < fs.node_count
      → resolve_parent fs cur ss ≡ value (p, leaf, plen)
      → resolve fs cur ss ≡ error e
      → resolve fs' cur ss ≡ value fs.node_count
  unfolding resolve resolve_parent
  resolve-new cur [] e lt parent miss = absurd (cc)
  resolve-new cur (s ∷ []) e lt parent miss =
      elim (Bool-cases (length s == 0 || leb max_name (length s))) [
        | inl b ↦
            let h' : error einval ≡ value (p, leaf, plen) = sym (rw b refl) ∙ parent in absurd (cc)
        | inr b ↦
            let at : value (cur, s, length s) ≡ value (p, leaf, plen) = sym (rw b refl) ∙ parent in
            let at_p : cur ≡ p = cc in
            let at_leaf : s ≡ leaf = cc in
            let at_len : length s ≡ plen = cc in
            let same : find_child fs (fs.nodes cur).id s (length s)
                ≡ find_child fs (fs.nodes p).id leaf plen =
              cc in
            let same' : find_child fs' (fs.nodes cur).id s (length s)
                ≡ find_child fs' (fs.nodes p).id leaf plen =
              cc in
            let miss' : find_child fs (fs.nodes p).id leaf plen ≡ error e =
              sym same ∙ sym (rw b refl) ∙ miss in
            let b' : (plen == 0 || leb max_name plen) ≡ false = rw (sym at_len) b in
            rw (b, x.old cur lt) (same' ∙ find_child-new e miss' b')
      ]
  resolve-new cur (s ∷ t ∷ ss) e lt parent miss =
      elim (Bool-cases (length s == 0 || leb max_name (length s))) [
        | inl b ↦
            let h' : error einval ≡ value (p, leaf, plen) = sym (rw b refl) ∙ parent in absurd (cc)
        | inr b ↦ elim (Result-cases (find_child fs (fs.nodes cur).id s (length s))) [
          | inr (e', r) ↦
              let h' : error e' ≡ value (p, leaf, plen) = sym (rw (b, r) refl) ∙ parent in
              absurd (cc)
          | inl (child, r) ↦ elim (Bool-cases (is_dir (fs.nodes child).type)) [
            | inr d ↦
                let h' : error enotdir ≡ value (p, leaf, plen) = sym (rw (b, r, d) refl) ∙ parent in
                absurd (cc)
            | inl d ↦
                let parent' : resolve_parent fs child (t ∷ ss) ≡ value (p, leaf, plen) =
                  sym (rw (b, r, d) refl) ∙ parent in
                let miss' : resolve fs child (t ∷ ss) ≡ error e = sym (rw (b, r, d) refl) ∙ miss in
                let kept = find_child-kept _ _ _ child r in
                rw (b, x.old cur lt, kept.0, x.old child kept.1, d)
                  (resolve-new child (t ∷ ss) e kept.1 parent' miss')
          ]
        ]
      ]

-- The directory that is found is one of the nodes, and the name is what the path ends with.
pub resolve_parent-leaf :
    (fs : RamFs) (cur : ℕ) (ss : List (List ℕ)) (p : ℕ) (leaf : List ℕ) (len : ℕ)
    → resolve_parent fs cur ss ≡ value (p, leaf, len)
    → len ≡ length leaf
unfolding resolve_parent
resolve_parent-leaf fs cur [] p leaf len h = absurd (cc)
resolve_parent-leaf fs cur (s ∷ []) p leaf len h =
    elim (Bool-cases (length s == 0 || leb max_name (length s))) [
      | inl b ↦ let h' : error einval ≡ value (p, leaf, len) = sym (rw b refl) ∙ h in absurd (cc)
      | inr b ↦ let at : value (cur, s, length s) ≡ value (p, leaf, len) = sym (rw b refl) ∙ h in cc
    ]
resolve_parent-leaf fs cur (s ∷ t ∷ ss) p leaf len h =
    elim (Bool-cases (length s == 0 || leb max_name (length s))) [
      | inl b ↦ let h' : error einval ≡ value (p, leaf, len) = sym (rw b refl) ∙ h in absurd (cc)
      | inr b ↦ elim (Result-cases (find_child fs (fs.nodes cur).id s (length s))) [
        | inr (e', r) ↦
            let h' : error e' ≡ value (p, leaf, len) = sym (rw (b, r) refl) ∙ h in absurd (cc)
        | inl (child, r) ↦ elim (Bool-cases (is_dir (fs.nodes child).type)) [
          | inr d ↦
              let h' : error enotdir ≡ value (p, leaf, len) = sym (rw (b, r, d) refl) ∙ h in
              absurd (cc)
          | inl d ↦ resolve_parent-leaf fs child (t ∷ ss) p leaf len (sym (rw (b, r, d) refl) ∙ h)
        ]
      ]
    ]
