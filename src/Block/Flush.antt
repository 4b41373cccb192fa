-- ===== src/Block/Flush.antt =====
-- blk_flush: the dirty blocks of a device go to the device.
use acep_reja_mcsos.Block.Entries.{cache_lookup-miss, cache_lookup-hit, holds-names}
use acep_reja_mcsos.Block.Coherence.{IsValid, view, same_block, view-device, view-entry}
use acep_reja_mcsos.Block.{
  Layer, Device, blk_flush, cleaned, flush_from, flush_driver, blk_get_device, cache_entries,
  cache_lookup, holds,
}
use acep_reja_mcsos.Common.{
  ℕ, zero, suc, ◌+◌, ◌<◌, ◌≡◌, refl, sym, ap, ◌∙◌, inl, inr, true, false, ◌&&◌, some, List, arith,
  ◌==◌, Bool-cases, Option-cases, done,
}

module _ {S : Type 0} (ok : S → Type 0) (peek : ℕ → ℕ → S → List ℕ) (l : Layer S)
    (v : IsValid ok peek l) (i : ℕ) (lt : i < cache_entries) (valid : (l.cache i).valid ≡ true)
    (s' : S) (ready : ok s')
    (written : peek (l.cache i).dev_id (l.cache i).lba s' ≡ (l.cache i).contents)
    (kept : (dev' lba' : ℕ)
      → same_block (l.cache i).dev_id (l.cache i).lba dev' lba' ≡ false
      → peek dev' lba' s' ≡ peek dev' lba' l.drv) where
  abbrev after : Layer S
  after = cleaned l i s'

  dev_kept : (j : ℕ) → (after.cache j).dev_id ≡ (l.cache j).dev_id
  dev_kept j = elim (Bool-cases (j == i)) [ inl e ↦ ground arith | inr e ↦ ground arith ]

  lba_kept : (j : ℕ) → (after.cache j).lba ≡ (l.cache j).lba
  lba_kept j = elim (Bool-cases (j == i)) [ inl e ↦ ground arith | inr e ↦ ground arith ]

  valid_kept : (j : ℕ) → (after.cache j).valid ≡ (l.cache j).valid
  valid_kept j = elim (Bool-cases (j == i)) [ inl e ↦ ground arith | inr e ↦ ground arith ]

  contents_kept : (j : ℕ) → (after.cache j).contents ≡ (l.cache j).contents
  contents_kept j = elim (Bool-cases (j == i)) [ inl e ↦ ground arith | inr e ↦ ground arith ]

  dirty_kept :
      (j : ℕ) → (after.cache j).dirty ≡ true → (l.cache j).dirty ≡ true × ((j == i) ≡ false)
  dirty_kept j h = elim (Bool-cases (j == i)) [
    | inl e ↦ absurd (ground arith)
    | inr e ↦ (ground arith, e)
  ]

  holds_kept : (dev lba j : ℕ) → holds dev lba (after.cache j) ≡ holds dev lba (l.cache j)
  holds_kept dev lba j = rw (dev_kept j, lba_kept j, valid_kept j) refl

  -- The blocks of the other entries are other blocks.
  other_block :
      (dev lba j : ℕ)
      → (j == i) ≡ false
      → j < cache_entries
      → holds dev lba (l.cache j) ≡ true
      → same_block (l.cache i).dev_id (l.cache i).lba dev lba ≡ false
  other_block dev lba j ne lj h =
      elim (Bool-cases (same_block (l.cache i).dev_id (l.cache i).lba dev lba)) [
        | inr s ↦ s
        | inl s ↦
            let same_dev : dev ≡ (l.cache i).dev_id = ground arith in
            let same_lba : lba ≡ (l.cache i).lba = ground arith in
            let h' : holds (l.cache i).dev_id (l.cache i).lba (l.cache j) ≡ true =
              rw (sym same_dev, sym same_lba) h in
            let one = v.unique i j lt lj valid h' in absurd (ground arith)
      ]

  pair_kept :
      (j k : ℕ)
      → holds (after.cache j).dev_id (after.cache j).lba (after.cache k)
        ≡ holds (l.cache j).dev_id (l.cache j).lba (l.cache k)
  pair_kept j k =
      ap (λ x. holds x (after.cache j).lba (after.cache k)) (dev_kept j)
      ∙ ap (λ x. holds (l.cache j).dev_id x (after.cache k)) (lba_kept j)
      ∙ holds_kept _ _ k

  peek_kept :
      (j : ℕ)
      → peek (after.cache j).dev_id (after.cache j).lba s'
        ≡ peek (l.cache j).dev_id (l.cache j).lba s'
  peek_kept j =
      ap (λ x. peek x (after.cache j).lba s') (dev_kept j)
      ∙ ap (λ x. peek (l.cache j).dev_id x s') (lba_kept j)

  -- An entry that is not dirty any more is what the device has now.
  current :
      (j : ℕ)
      → j < cache_entries
      → (l.cache j).valid ≡ true
      → (after.cache j).dirty ≡ false
      → (l.cache j).contents ≡ peek (l.cache j).dev_id (l.cache j).lba s'
  current j lj vj dj = elim (Bool-cases (j == i)) [
    | inl e ↦ let at : j ≡ i = ground arith in rw at (sym written)
    | inr e ↦
        let clean : (l.cache j).dirty ≡ false = ground arith in
        let self : holds (l.cache j).dev_id (l.cache j).lba (l.cache j) ≡ true = ground arith in
        v.agrees j lj vj clean ∙ sym (kept _ _ (other_block _ _ j e lj self))
  ]

  cleaned-IsValid : IsValid ok peek after
  unfolding blk_get_device
  cleaned-IsValid = record {
    ready = ready;
    serves = v.serves;
    unique =
        λ j k lj lk vj h. v.unique j k lj lk (sym (valid_kept j) ∙ vj) (sym (pair_kept j k) ∙ h);
    agrees = λ j lj vj dj.
        contents_kept j ∙ current j lj (sym (valid_kept j) ∙ vj) dj ∙ sym (peek_kept j);
    known = λ j lj vj.
        let (d, is, inside) = v.known j lj (sym (valid_kept j) ∙ vj) in
        (d, ap (λ x. blk_get_device x l) (dev_kept j) ∙ is, rw (lba_kept j) inside);
  }

  cleaned-view : (dev lba : ℕ) → view peek after dev lba ≡ view peek l dev lba
  cleaned-view dev lba = elim (Option-cases (cache_lookup dev lba l.cache)) [
    | inr (k, e) ↦
        let (lk, h) = cache_lookup-hit dev lba l.cache k e in
        view-entry ok peek after dev lba k cleaned-IsValid lk (holds_kept dev lba k ∙ h)
        ∙ contents_kept k
        ∙ sym (view-entry ok peek l dev lba k v lk h)
    | inl e ↦
        let miss = cache_lookup-miss dev lba l.cache e in
        let mine = miss i lt in
        let other : same_block (l.cache i).dev_id (l.cache i).lba dev lba ≡ false = ground arith in
        view-device ok peek after dev lba (λ k lk. holds_kept dev lba k ∙ miss k lk)
        ∙ kept dev lba other
        ∙ sym (view-device ok peek l dev lba miss)
  ]

-- No entry of the device below `k` is dirty.
abbrev IsClean : {S : Type 0} → ℕ → Layer S → ℕ → Type 0
IsClean dev l k =
    (j : ℕ)
    → j < k
    → (l.cache j).valid ≡ true
    → (l.cache j).dev_id ≡ dev
    → (l.cache j).dirty ≡ false

IsClean-more :
    {S : Type 0} (dev : ℕ) (l : Layer S) (i : ℕ)
    → IsClean dev l i
    → ((l.cache i).valid && ((l.cache i).dev_id == dev && (l.cache i).dirty)) ≡ false
    → IsClean dev l (i + 1)
IsClean-more dev l i c b = λ j lj vj dj. elim (Bool-cases (j == i)) [
  | inl e ↦
      let at : j ≡ i = ground arith in
      let vi : (l.cache i).valid ≡ true = rw (sym at) vj in
      let di : (l.cache i).dev_id ≡ dev = rw (sym at) dj in
      let clean : (l.cache i).dirty ≡ false = ground (arith, vi, di, b) in rw at clean
  | inr e ↦ c j (ground arith) vj dj
]

IsClean-cleaned :
    {S : Type 0} (dev : ℕ) (l : Layer S) (i : ℕ) (s' : S)
    → IsClean dev l i
    → IsClean dev (cleaned l i s') (i + 1)
IsClean-cleaned dev l i s' c = λ j lj vj dj. elim (Bool-cases (j == i)) [
  | inl e ↦ ground arith
  | inr e ↦
      let same : (cleaned l i s').cache j ≡ l.cache j = ground arith in
      let old =
        c j (ground arith) (sym (ap (λ x. x.valid) same) ∙ vj)
          (sym (ap (λ x. x.dev_id) same) ∙ dj) in
      ap (λ x. x.dirty) same ∙ old
]

-- What a run of the loop leaves.
record Flushed {S : Type 0} (ok : S → Type 0) (peek : ℕ → ℕ → S → List ℕ) (dev k : ℕ)
    (l l' : Layer S) : Type 0 where
  still : IsValid ok peek l'
  same_table : l'.table ≡ l.table
  same_view : (dev' lba' : ℕ) → view peek l' dev' lba' ≡ view peek l dev' lba'
  clean : IsClean dev l' k

write_entry :
    {S : Type 0} (ok : S → Type 0) (peek : ℕ → ℕ → S → List ℕ) (d : Device S) (l : Layer S) (i : ℕ)
    → IsValid ok peek l
    → i < cache_entries
    → (l.cache i).valid ≡ true
    → blk_get_device (l.cache i).dev_id l ≡ some d
    → (s' : S) × (d.driver.write (l.cache i).lba (l.cache i).contents l.drv ≡ done tt s')
      × ok s'
      × (peek (l.cache i).dev_id (l.cache i).lba s' ≡ (l.cache i).contents)
      × ((dev' lba' : ℕ)
          → same_block (l.cache i).dev_id (l.cache i).lba dev' lba' ≡ false
          → peek dev' lba' s' ≡ peek dev' lba' l.drv)
write_entry ok peek d l i v lt valid there =
    let (d', is, lt') = v.known i lt valid in
    let again : some d' ≡ some d = sym is ∙ there in
    let same : d' ≡ d = cc in
    let count : d'.block_count ≡ d.block_count = ap (λ x. x.block_count) same in
    (v.serves (l.cache i).dev_id d there).writes (l.cache i).lba (l.cache i).contents l.drv v.ready
      (omega (arith, count, lt'))

module _ {S : Type 0} (ok : S → Type 0) (peek : ℕ → ℕ → S → List ℕ) (dev : ℕ) (d : Device S) where
  flush_from-Flushed :
      (n i : ℕ) (l : Layer S)
      → IsValid ok peek l
      → blk_get_device dev l ≡ some d
      → i + n ≡ cache_entries
      → IsClean dev l i
      → (l' : Layer S) × (flush_from d dev n i l ≡ done tt l')
        × Flushed ok peek dev cache_entries l l'
  unfolding flush_from blk_get_device
  flush_from-Flushed zero i l v there sum c = (
    l,
    refl,
    record {
      still = v;
      same_table = refl;
      same_view = λ dev' lba'. refl;
      clean = λ j lj. c j (omega arith);
    },
  )
  flush_from-Flushed (suc n) i l v there sum c =
      elim (Bool-cases ((l.cache i).valid && ((l.cache i).dev_id == dev && (l.cache i).dirty))) [
        | inr b ↦
            let (l', r, x) =
              flush_from-Flushed n (i + 1) l v there (omega arith) (IsClean-more dev l i c b) in
            (l', rw (b, flush_from) r, x)
        | inl b ↦
            let valid : (l.cache i).valid ≡ true = ground arith in
            let mine : (l.cache i).dev_id ≡ dev = ground arith in
            let lt : i < cache_entries = omega arith in
            let there_i : blk_get_device (l.cache i).dev_id l ≡ some d =
              ap (λ x. blk_get_device x l) mine ∙ there in
            let (s', w, ready, put', kept') = write_entry ok peek d l i v lt valid there_i in
            let next = cleaned l i s' in
            let valid_next : IsValid ok peek next =
              cleaned-IsValid ok peek l v i lt valid s' ready put' kept' in
            let (l', r, x) =
              flush_from-Flushed n (i + 1) next valid_next there (omega arith)
                (IsClean-cleaned dev l i s' c) in
            (
              l',
              rw (b, w, flush_from) r,
              record {
                still = x.still;
                same_table = x.same_table;
                same_view = λ dev' lba'.
                    x.same_view dev' lba'
                    ∙ cleaned-view ok peek l v i lt valid s' ready put' kept' dev' lba';
                clean = x.clean;
              },
            )
      ]

-- Only the state of the drivers changes, and no block of a device.
module _ {S : Type 0} (ok : S → Type 0) (peek : ℕ → ℕ → S → List ℕ) (l : Layer S)
    (v : IsValid ok peek l) (s : S) (ready : ok s)
    (kept : (dev lba : ℕ) → peek dev lba s ≡ peek dev lba l.drv) where
  with_drv-IsValid : IsValid ok peek (record l { drv = s })
  unfolding blk_get_device
  with_drv-IsValid = record {
    ready = ready;
    serves = v.serves;
    unique = v.unique;
    agrees = λ i lt vi di. v.agrees i lt vi di ∙ sym (kept (l.cache i).dev_id (l.cache i).lba);
    known = v.known;
  }

  with_drv-view : (dev lba : ℕ) → view peek (record l { drv = s }) dev lba ≡ view peek l dev lba
  unfolding view
  with_drv-view dev lba = elim (Option-cases (cache_lookup dev lba l.cache)) [
    | inl e ↦ rw (e, view) (kept dev lba)
    | inr (k, e) ↦ rw (e, view) refl
  ]

-- A block of a device that has no dirty entry is what the device has.
clean-view :
    {S : Type 0} (ok : S → Type 0) (peek : ℕ → ℕ → S → List ℕ) (l : Layer S) (dev lba : ℕ)
    → IsValid ok peek l
    → IsClean dev l cache_entries
    → peek dev lba l.drv ≡ view peek l dev lba
clean-view ok peek l dev lba v c = elim (Option-cases (cache_lookup dev lba l.cache)) [
  | inl e ↦ sym (view-device ok peek l dev lba (cache_lookup-miss dev lba l.cache e))
  | inr (k, e) ↦
      let (lk, h) = cache_lookup-hit dev lba l.cache k e in
      let (va, de, ae) = holds-names dev lba (l.cache k) h in
      let same = v.agrees k lk va (c k lk va de) in
      let here : peek (l.cache k).dev_id (l.cache k).lba l.drv ≡ peek dev lba l.drv =
        ap (λ x. peek x (l.cache k).lba l.drv) de ∙ ap (λ x. peek dev x l.drv) ae in
      sym here ∙ sym same ∙ sym (view-entry ok peek l dev lba k v lk h)
]

-- In a valid state, `blk_flush` of a registered device succeeds and leaves the state valid; every block
-- holds what it held, and every block of the device is on the device as it was seen through the cache.
pub blk_flush-view :
    {S : Type 0} (ok : S → Type 0) (peek : ℕ → ℕ → S → List ℕ) (l : Layer S) (dev : ℕ)
    (d : Device S)
    → IsValid ok peek l
    → blk_get_device dev l ≡ some d
    → (l' : Layer S) × (blk_flush dev l ≡ done tt l')
      × IsValid ok peek l'
      × ((dev' lba' : ℕ) → view peek l' dev' lba' ≡ view peek l dev' lba')
      × ((lba : ℕ) → peek dev lba l'.drv ≡ view peek l dev lba)
unfolding blk_flush flush_driver
blk_flush-view ok peek l dev d v there =
    let (l1, r, x) =
      flush_from-Flushed ok peek dev d cache_entries 0 l v there (omega arith)
        (λ j lj. absurd (omega arith)) in
    let (s, f, ready, kept) = (v.serves dev d there).flushes l1.drv (x.still).ready in
    let l2 = record l1 { drv = s } in
    (
      l2,
      rw (there, r, blk_flush) (rw (f, flush_driver) refl),
      with_drv-IsValid ok peek l1 x.still s ready kept,
      λ dev' lba'. with_drv-view ok peek l1 x.still s ready kept dev' lba' ∙ x.same_view dev' lba',
      λ lba. kept dev lba ∙ clean-view ok peek l1 dev lba x.still x.clean ∙ x.same_view dev lba,
    )
