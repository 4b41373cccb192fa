-- ===== src/Block/Access.antt =====
-- blk_read and blk_write of a block of a registered device.
use acep_reja_mcsos.Block.Entries.{
  cache_lookup-miss, cache_lookup-hit, holds-names, cache_find_empty-hit,
}
use acep_reja_mcsos.Block.Coherence.{
  IsValid, view, same_block, view-device, put-IsValid, put-view, put-others,
}
use acep_reja_mcsos.Block.{
  Layer, Device, blk_get_device, write_slot, blk_read, read_device, blk_write, cache_entries, fill,
  holds, cache_lookup, set_entry, new_entry, cache_find_empty,
}
use acep_reja_mcsos.Common.{
  ℕ, ◌<◌, ◌≡◌, refl, sym, ap, ◌∙◌, ◌⊎◌, inl, inr, true, false, none, some, List, arith, leb, ◌==◌,
  Bool-cases, Option-cases, done, if◌then◌else◌,
}

module _ {S : Type 0} (ok : S → Type 0) (peek : ℕ → ℕ → S → List ℕ) (l : Layer S)
    (v : IsValid ok peek l) (dev lba : ℕ) (d : Device S) (there : blk_get_device dev l ≡ some d)
    (inside : lba < d.block_count) where
  slot_lem :
      (i : ℕ)
      → write_slot dev lba l.cache ≡ some i
      → (i < cache_entries)
        × ((j : ℕ) → j < cache_entries → (j == i) ≡ false → holds dev lba (l.cache j) ≡ false)
        × (((l.cache i).valid ≡ false) ⊎ (holds dev lba (l.cache i) ≡ true))
  unfolding write_slot
  slot_lem i slot = elim (Option-cases (cache_lookup dev lba l.cache)) [
    | inr (k, e) ↦
        let h' : some k ≡ some i = sym (rw (e, write_slot) refl) ∙ slot in
        let at : k ≡ i = cc in
        let (lk, h) = cache_lookup-hit dev lba l.cache k e in
        let (va, de, ae) = holds-names dev lba (l.cache k) h in
        (
          omega arith,
          λ j lj ne. elim (Bool-cases (holds dev lba (l.cache j))) [
            | inr out ↦ out
            | inl held ↦
                let h2 : holds (l.cache k).dev_id (l.cache k).lba (l.cache j) ≡ true =
                  rw (de, ae) held in
                let one = v.unique k j lk lj va h2 in absurd (ground arith)
          ],
          inr (rw (sym at) h),
        )
    | inl e ↦
        let h' : cache_find_empty l.cache ≡ some i = sym (rw (e, write_slot) refl) ∙ slot in
        let (li, em) = cache_find_empty-hit l.cache i h' in
        let miss = cache_lookup-miss dev lba l.cache e in (li, λ j lj ne. miss j lj, inl em)
  ]

  blk_read-device : blk_read dev lba l ≡ read_device d dev lba l
  unfolding blk_read
  blk_read-device =
      let room : leb d.block_count lba ≡ false = ground arith in rw (there, room, blk_read) refl

  read_miss :
      cache_lookup dev lba l.cache ≡ none
      → read_device d dev lba l ≡ done (view peek l dev lba) (fill dev lba (peek dev lba l.drv) l)
  unfolding read_device view
  read_miss e =
      let r = (v.serves dev d there).reads lba l.drv v.ready inside in
      let hit : view peek l dev lba ≡ peek dev lba l.drv = rw (e, view) refl in
      rw (hit, e, read_device) (rw r refl)

  -- In a valid state, `blk_read` of a block of a registered device succeeds with what the block holds,
  -- leaves the state valid, and changes what no block holds.
  pub blk_read-view :
      (l' : Layer S) × (blk_read dev lba l ≡ done (view peek l dev lba) l')
      × IsValid ok peek l'
      × ((dev' lba' : ℕ) → view peek l' dev' lba' ≡ view peek l dev' lba')
  unfolding read_device fill view
  blk_read-view = elim (Option-cases (cache_lookup dev lba l.cache)) [
    | inr (k, e) ↦ (l, blk_read-device ∙ rw (e, read_device, view) refl, v, λ dev' lba'. refl)
    | inl e ↦
        let miss = cache_lookup-miss dev lba l.cache e in
        elim (Option-cases (cache_find_empty l.cache)) [
          | inl f ↦ (l, blk_read-device ∙ read_miss e ∙ rw (f, fill) refl, v, λ dev' lba'. refl)
          | inr (i, f) ↦
              let (lt, em) = cache_find_empty-hit l.cache i f in
              let b = peek dev lba l.drv in
              let alone : (j : ℕ)
                  → j < cache_entries
                  → (j == i) ≡ false
                  → holds dev lba (l.cache j) ≡ false =
                λ j lj ne. miss j lj in
              let l' = set_entry l i (new_entry dev lba false b) in
              (
                l',
                blk_read-device ∙ read_miss e ∙ rw (f, fill) refl,
                put-IsValid ok peek l v dev lba i d false b lt there inside alone (inl em)
                    (λ h. refl),
                λ dev' lba'. elim (Bool-cases (same_block dev lba dev' lba')) [
                  | inl s ↦
                      let same_dev : dev' ≡ dev = ground arith in
                      let same_lba : lba' ≡ lba = ground arith in
                      rw (same_dev, same_lba)
                        (put-view ok peek l v dev lba i d false b lt there inside alone (inl em)
                            (λ h. refl)
                          ∙ sym (view-device ok peek l dev lba miss))
                  | inr s ↦
                      put-others ok peek l v dev lba i d false b lt there inside alone (inl em)
                        (λ h. refl) dev' lba' s
                ],
              )
        ]
  ]

  -- In a valid state, when the cache has an entry of the block or an empty one, `blk_write` to a block of
  -- a registered device succeeds and leaves the state valid; the block then holds what was written, and
  -- every other block what it held.
  pub blk_write-view :
      (b : List ℕ) (i : ℕ)
      → write_slot dev lba l.cache ≡ some i
      → (l' : Layer S) × (blk_write dev lba b l ≡ done tt l')
        × IsValid ok peek l'
        × ((dev' lba' : ℕ)
            → view peek l' dev' lba'
              ≡ (if same_block dev lba dev' lba' then b else view peek l dev' lba'))
  unfolding blk_write write_slot
  blk_write-view b i slot =
      let room : leb d.block_count lba ≡ false = ground arith in
      let (lt, alone, free) = slot_lem i slot in
      let no : true ≡ false → b ≡ peek dev lba l.drv = λ h. absurd (cc) in
      (
        set_entry l i (new_entry dev lba true b),
        rw (there, room, slot, blk_write) refl,
        put-IsValid ok peek l v dev lba i d true b lt there inside alone free no,
        λ dev' lba'. elim (Bool-cases (same_block dev lba dev' lba')) [
          | inl s ↦
              let same_dev : dev' ≡ dev = ground arith in
              let same_lba : lba' ≡ lba = ground arith in
              rw s (
                ap (λ x. view peek (set_entry l i (new_entry dev lba true b)) x lba') same_dev
                ∙ ap (view peek (set_entry l i (new_entry dev lba true b)) dev) same_lba
                ∙ put-view ok peek l v dev lba i d true b lt there inside alone free no)
          | inr s ↦
              rw s (
                put-others ok peek l v dev lba i d true b lt there inside alone free no dev' lba' s)
        ],
      )

  full_lem :
      ((k : ℕ) → k < cache_entries → (l.cache k).valid ≡ true)
      → ((k : ℕ) → k < cache_entries → holds dev lba (l.cache k) ≡ false)
      → write_slot dev lba l.cache ≡ none
  unfolding write_slot
  full_lem full miss = elim (Option-cases (cache_lookup dev lba l.cache)) [
    | inr (k, e) ↦
        let (lk, h) = cache_lookup-hit dev lba l.cache k e in let no = miss k lk in absurd (cc)
    | inl e ↦ elim (Option-cases (cache_find_empty l.cache)) [
      | inl f ↦ rw (e, write_slot) f
      | inr (k, f) ↦
          let (lk, em) = cache_find_empty-hit l.cache k f in let used = full k lk in absurd (cc)
    ]
  ]

  -- In a valid state in which every cache entry is in use and none holds the block, `blk_write` to a
  -- block of a registered device reports success, and the `blk_read` that follows returns what the
  -- device had before.
  pub blk_write-lost :
      (b : List ℕ)
      → ((k : ℕ) → k < cache_entries → (l.cache k).valid ≡ true)
      → ((k : ℕ) → k < cache_entries → holds dev lba (l.cache k) ≡ false)
      → (l1 l2 : Layer S) × (blk_write dev lba b l ≡ done tt l1)
        × (blk_read dev lba l1 ≡ done (peek dev lba l.drv) l2)
  unfolding blk_write
  blk_write-lost b full miss =
      let room : leb d.block_count lba ≡ false = ground arith in
      let slot = full_lem full miss in
      let (l2, r, v2, same) = blk_read-view in
      let seen = view-device ok peek l dev lba miss in
      (l, l2, rw (there, room, slot, blk_write) refl, r ∙ ap (λ c. done c l2) seen)
