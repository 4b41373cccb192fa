-- ===== src/Block/Coherence.antt =====
-- What the blocks of a device hold, seen through the cache.
use acep_reja_mcsos.Block.Entries.{cache_lookup-miss, holds-names, cache_lookup-hit}
use acep_reja_mcsos.Block.{
  Layer, Device, cache_lookup, blk_get_device, cache_entries, holds, Entry, set_entry, new_entry,
}
use acep_reja_mcsos.Common.{
  ℕ, ◌<◌, ◌≡◌, refl, sym, ap, ◌∙◌, ◌⊎◌, inl, inr, Bool, true, false, ◌&&◌, none, some, List, arith,
  ◌==◌, Bool-cases, Option-cases, done,
}

-- The test whether two blocks are one.
abbrev pub same_block : ℕ → ℕ → ℕ → ℕ → Bool
same_block dev lba dev' lba' = dev' == dev && lba' == lba

-- What is asked of the driver of device number `dev`: in a state that is `ok`, a read returns what the
-- block holds, `peek`, a write changes the block and no other, and a flush changes none.
pub record Serves {S : Type 0} (ok : S → Type 0) (peek : ℕ → ℕ → S → List ℕ) (dev : ℕ)
    (d : Device S) : Type 0 where
  pub reads :
      (lba : ℕ) (s : S) → ok s → lba < d.block_count → d.driver.read lba s ≡ done (peek dev lba s) s
  pub writes :
      (lba : ℕ) (b : List ℕ) (s : S)
      → ok s
      → lba < d.block_count
      → (s' : S) × (d.driver.write lba b s ≡ done tt s')
        × ok s'
        × (peek dev lba s' ≡ b)
        × ((dev' lba' : ℕ)
            → same_block dev lba dev' lba' ≡ false
            → peek dev' lba' s' ≡ peek dev' lba' s)
  pub flushes :
      (s : S)
      → ok s
      → (s' : S) × (d.driver.flush s ≡ done tt s')
        × ok s'
        × ((dev' lba' : ℕ) → peek dev' lba' s' ≡ peek dev' lba' s)

-- What a block holds: its cache entry, or else what the device has.
unfoldable pub view : {S : Type 0} → (ℕ → ℕ → S → List ℕ) → Layer S → ℕ → ℕ → List ℕ
view peek l dev lba = elim (cache_lookup dev lba l.cache) [
  | some i ↦ (l.cache i).contents
  | none ↦ peek dev lba l.drv
]

-- Every device is served, no block has two entries, an entry that is not dirty is what the device has,
-- and every entry is for a block of a device.
pub record IsValid {S : Type 0} (ok : S → Type 0) (peek : ℕ → ℕ → S → List ℕ) (l : Layer S)
    : Type 0 where
  pub ready : ok l.drv
  pub serves : (dev : ℕ) (d : Device S) → blk_get_device dev l ≡ some d → Serves ok peek dev d
  pub unique :
      (i j : ℕ)
      → i < cache_entries
      → j < cache_entries
      → (l.cache i).valid ≡ true
      → holds (l.cache i).dev_id (l.cache i).lba (l.cache j) ≡ true
      → i ≡ j
  pub agrees :
      (i : ℕ)
      → i < cache_entries
      → (l.cache i).valid ≡ true
      → (l.cache i).dirty ≡ false
      → (l.cache i).contents ≡ peek (l.cache i).dev_id (l.cache i).lba l.drv
  pub known :
      (i : ℕ)
      → i < cache_entries
      → (l.cache i).valid ≡ true
      → (d : Device S) × (blk_get_device (l.cache i).dev_id l ≡ some d)
        × ((l.cache i).lba < d.block_count)

module _ {S : Type 0} (ok : S → Type 0) (peek : ℕ → ℕ → S → List ℕ) (l : Layer S) where
  pub view-entry :
      (dev lba k : ℕ)
      → IsValid ok peek l
      → k < cache_entries
      → holds dev lba (l.cache k) ≡ true
      → view peek l dev lba ≡ (l.cache k).contents
  unfolding view
  view-entry dev lba k v lt h = elim (Option-cases (cache_lookup dev lba l.cache)) [
    | inl e ↦ let miss = cache_lookup-miss dev lba l.cache e k lt in absurd (cc)
    | inr (j, e) ↦
        let (lt', h') = cache_lookup-hit dev lba l.cache j e in
        let (va, d, a) = holds-names dev lba (l.cache j) h' in
        let h2 : holds (l.cache j).dev_id (l.cache j).lba (l.cache k) ≡ true = rw (d, a) h in
        let at = v.unique j k lt' lt va h2 in rw (e, at, view) refl
  ]

  pub view-device :
      (dev lba : ℕ)
      → ((k : ℕ) → k < cache_entries → holds dev lba (l.cache k) ≡ false)
      → view peek l dev lba ≡ peek dev lba l.drv
  unfolding view
  view-device dev lba miss = elim (Option-cases (cache_lookup dev lba l.cache)) [
    | inl e ↦ rw (e, view) refl
    | inr (j, e) ↦
        let (lt', h') = cache_lookup-hit dev lba l.cache j e in let no = miss j lt' in absurd (cc)
  ]

-- An entry `i` that is empty or the block's own takes contents of the block.
module _ {S : Type 0} (ok : S → Type 0) (peek : ℕ → ℕ → S → List ℕ) (l : Layer S)
    (v : IsValid ok peek l) (dev lba i : ℕ) (d : Device S) (dirty : Bool) (b : List ℕ)
    (lt : i < cache_entries) (there : blk_get_device dev l ≡ some d) (inside : lba < d.block_count)
    (alone : (j : ℕ) → j < cache_entries → (j == i) ≡ false → holds dev lba (l.cache j) ≡ false)
    (free : ((l.cache i).valid ≡ false) ⊎ (holds dev lba (l.cache i) ≡ true))
    (clean : dirty ≡ false → b ≡ peek dev lba l.drv) where
  abbrev entry : Entry
  entry = new_entry dev lba dirty b

  abbrev after : Layer S
  after = set_entry l i entry

  at_i : (j : ℕ) → (j == i) ≡ true → after.cache j ≡ entry
  at_i j e = ground arith

  elsewhere : (j : ℕ) → (j == i) ≡ false → after.cache j ≡ l.cache j
  elsewhere j e = ground arith

  new_unique :
      (j k : ℕ)
      → j < cache_entries
      → k < cache_entries
      → (after.cache j).valid ≡ true
      → holds (after.cache j).dev_id (after.cache j).lba (after.cache k) ≡ true
      → j ≡ k
  new_unique j k lj lk vj h = elim (Bool-cases (j == i)) [
    | inl e ↦ elim (Bool-cases (k == i)) [
      | inl f ↦ ground arith
      | inr f ↦
          let h1 : holds dev lba (after.cache k) ≡ true =
            sym (ap (λ x. holds x.dev_id x.lba (after.cache k)) (at_i j e)) ∙ h in
          let h2 : holds dev lba (l.cache k) ≡ true =
            sym (ap (holds dev lba) (elsewhere k f)) ∙ h1 in
          let no = alone k lk f in absurd (cc)
    ]
    | inr e ↦ elim (Bool-cases (k == i)) [
      | inl f ↦
          let h1 : holds (after.cache j).dev_id (after.cache j).lba entry ≡ true =
            sym (ap (holds (after.cache j).dev_id (after.cache j).lba) (at_i k f)) ∙ h in
          let h2 : holds (l.cache j).dev_id (l.cache j).lba entry ≡ true =
            sym (ap (λ x. holds x.dev_id x.lba entry) (elsewhere j e)) ∙ h1 in
          let vj' : (l.cache j).valid ≡ true = sym (ap (λ x. x.valid) (elsewhere j e)) ∙ vj in
          let (ve, de, ae) = holds-names _ _ entry h2 in
          let h3 : holds dev lba (l.cache j) ≡ true = ground (arith, vj', de, ae) in
          let no = alone j lj e in absurd (cc)
      | inr f ↦
          let sj = elsewhere j e in
          let sk = elsewhere k f in v.unique j k lj lk (rw (sym sj) vj) (rw (sym sj, sym sk) h)
    ]
  ]

  pub put-IsValid : IsValid ok peek after
  unfolding blk_get_device
  put-IsValid = record {
    ready = v.ready;
    serves = v.serves;
    unique = new_unique;
    agrees = λ j lj vj dj. elim (Bool-cases (j == i)) [
      | inl e ↦
          let c = clean (sym (ap (λ x. x.dirty) (at_i j e)) ∙ dj) in
          ap (λ x. x.contents) (at_i j e) ∙ c ∙ sym (ap (λ x. peek x.dev_id x.lba l.drv) (at_i j e))
      | inr e ↦
          let same = elsewhere j e in
          let old =
            v.agrees j lj (sym (ap (λ x. x.valid) same) ∙ vj) (sym (ap (λ x. x.dirty) same) ∙ dj) in
          ap (λ x. x.contents) same ∙ old ∙ sym (ap (λ x. peek x.dev_id x.lba l.drv) same)
    ];
    known = λ j lj vj. elim (Bool-cases (j == i)) [
      | inl e ↦ (
        d,
        ap (λ x. blk_get_device x.dev_id l) (at_i j e) ∙ there,
        rw (ap (λ x. x.lba) (at_i j e)) inside,
      )
      | inr e ↦
          let same = elsewhere j e in
          let (d', is, lt') = v.known j lj (sym (ap (λ x. x.valid) same) ∙ vj) in
          (d', ap (λ x. blk_get_device x.dev_id l) same ∙ is, rw (ap (λ x. x.lba) same) lt')
    ];
  }

  pub put-view : view peek after dev lba ≡ b
  put-view =
      let self = at_i i (ground arith) in
      let h : holds dev lba (after.cache i) ≡ true = ap (holds dev lba) self ∙ ground arith in
      view-entry ok peek after dev lba i put-IsValid lt h ∙ ap (λ x. x.contents) self

  pub put-others :
      (dev' lba' : ℕ)
      → same_block dev lba dev' lba' ≡ false
      → view peek after dev' lba' ≡ view peek l dev' lba'
  put-others dev' lba' other = elim (Option-cases (cache_lookup dev' lba' l.cache)) [
    | inr (k, e) ↦
        let (lk, h) = cache_lookup-hit dev' lba' l.cache k e in
        elim (Bool-cases (k == i)) [
          | inl f ↦
              let at : k ≡ i = ground arith in
              let h' : holds dev' lba' (l.cache i) ≡ true = rw (sym at) h in
              let (va, de, ae) = holds-names dev' lba' (l.cache i) h' in
              elim free [
                | inl empty ↦ absurd (cc)
                | inr own ↦
                    let (vb, df, af) = holds-names dev lba (l.cache i) own in
                    absurd (ground (arith, de, ae, df, af))
              ]
          | inr f ↦
              let same = elsewhere k f in
              let h' : holds dev' lba' (after.cache k) ≡ true = ap (holds dev' lba') same ∙ h in
              view-entry ok peek after dev' lba' k put-IsValid lk h'
              ∙ ap (λ x. x.contents) same
              ∙ sym (view-entry ok peek l dev' lba' k v lk h)
        ]
    | inl e ↦
        let miss = cache_lookup-miss dev' lba' l.cache e in
        let gone : (k : ℕ) → k < cache_entries → holds dev' lba' (after.cache k) ≡ false = λ k lk.
          elim (Bool-cases (k == i)) [
            | inl f ↦ ap (holds dev' lba') (at_i k f) ∙ (ground arith)
            | inr f ↦ ap (holds dev' lba') (elsewhere k f) ∙ miss k lk
          ] in
        view-device ok peek after dev' lba' gone ∙ sym (view-device ok peek l dev' lba' miss)
  ]
