-- ===== src/Journal/Crash.antt =====
-- The blocks that a commit leaves when it is cut short, and a recovery on them.
use acep_reja_mcsos.Journal.Replay.{journal_recover}
use acep_reja_mcsos.Journal.{
  BlockDev, Tx, desc_lba, journal_end, max_records, journal_start, header_bytes, zero_header,
  make_header, done,
}
use acep_reja_mcsos.Journal.Commit.{
  home_writes, journal_writes, commit_writes, header_write, clear_write,
}
use acep_reja_mcsos.Journal.Writes.{
  Blocks, AllValid, apply, Avoids, AllValid-append, apply-Avoids, Avoids-take, apply-append,
  apply-apply-take, write_all-healthy, AllValid-store,
}
use acep_reja_mcsos.Journal.Recover.{
  IsJournal, AllHome, journal_writes-outside, Journalled, journal_recover-clean, Journalled-agree,
  journal_writes-Journalled, journal_recover-committed, AllHome-shift,
}
use acep_reja_mcsos.Common.{
  ℕ, zero, suc, ◌+◌, ◌^◌, ◌≤◌, ◌<◌, ◌≡◌, refl, ◌∙◌, ◌⊎◌, inl, inr, [], ◌∷◌, ◌++◌, arith, ltb,
  Bool-cases, update, length, take, none,
}

-- The home blocks of one device as those of another.
abbrev pub SameHomes : Blocks → Blocks → Type 0
SameHomes b c = (lba : ℕ) → ¬ IsJournal lba → c lba ≡ b lba

-- What a commit may be asked to do: a device that has the whole journal, which is clean, and a
-- transaction of at most 8 records, each for a block outside of it.
pub record Ready (d : BlockDev) (tx : Tx) (seq : ℕ) : Type 0 where
  pub big : journal_end ≤ d.total_blocks
  pub few : length tx ≤ max_records
  pub small : seq < 2 ^ 32
  pub homes : AllHome d tx
  pub clean : d.blocks journal_start ≡ header_bytes zero_header

journal_writes-valid :
    (d : BlockDev) (i : ℕ) (rs : Tx)
    → i + length rs ≤ max_records
    → journal_end ≤ d.total_blocks
    → AllValid d (journal_writes i rs)
unfolding journal_writes
journal_writes-valid d i [] h big = tt
journal_writes-valid d i (r ∷ rs) h big = (
  omega arith,
  omega arith,
  (omega arith, omega arith, journal_writes-valid d (i + 1) rs (omega arith) big),
)

home_writes-valid : (d : BlockDev) (rs : Tx) → AllHome d rs → AllValid d (home_writes rs)
unfolding home_writes
home_writes-valid d [] h = tt
home_writes-valid d (r ∷ rs) h = (h.0.0, h.0.1, home_writes-valid d rs h.1)

home_writes-Avoids :
    (d : BlockDev) (lba : ℕ) (rs : Tx) → AllHome d rs → IsJournal lba → Avoids lba (home_writes rs)
unfolding home_writes
home_writes-Avoids d lba [] h j = tt
home_writes-Avoids d lba (r ∷ rs) h j = ((λ e. h.0.2 (rw e j)), home_writes-Avoids d lba rs h.1 j)

outside-cases : (lba : ℕ) → ¬ IsJournal lba → (lba < desc_lba 0) ⊎ (journal_end ≤ lba)
outside-cases lba out = elim (Bool-cases (ltb lba (desc_lba 0))) [
  | inl e ↦ inl (ground arith)
  | inr e ↦ inr (ground arith)
]

module _ (d : BlockDev) (tx : Tx) (seq : ℕ) (ready : Ready d tx seq) where
  open ready use {big, few, small, homes, clean}

  pub commit-valid : AllValid d (commit_writes tx seq)
  commit-valid =
      AllValid-append d (clear_write ∷ journal_writes 0 tx)
        (header_write seq (length tx) ∷ (home_writes tx ++ clear_write ∷ []))
        (omega arith, omega arith, journal_writes-valid d 0 tx (omega arith) big)
        (
          omega arith,
          omega arith,
          AllValid-append d (home_writes tx) (clear_write ∷ []) (home_writes-valid d tx homes)
              (omega arith, omega arith, tt),
        )

  -- The blocks once the records and the header are written, and `m` payloads have gone home.
  unfoldable pub past_header : ℕ → Blocks
  past_header m = apply (take m (home_writes tx)) (
      apply (header_write seq (length tx) ∷ [])
        (apply (clear_write ∷ journal_writes 0 tx) d.blocks))

  -- The journal is clean, and the home blocks are as before the commit, or as it makes them.
  pub record IsOld (b : Blocks) : Type 0 where
    pub idle : b journal_start ≡ header_bytes zero_header
    pub same : SameHomes d.blocks b

  pub record IsNew (b : Blocks) : Type 0 where
    pub idle : b journal_start ≡ header_bytes zero_header
    pub same : SameHomes (apply (home_writes tx) d.blocks) b

  records-home : SameHomes d.blocks (apply (clear_write ∷ journal_writes 0 tx) d.blocks)
  unfolding apply
  records-home lba out =
      apply-Avoids lba (journal_writes 0 tx)
        (update d.blocks journal_start (header_bytes zero_header))
        (journal_writes-outside lba 0 tx (omega arith) (outside-cases lba out))
      ∙ ground arith

  header-home : SameHomes d.blocks (
      apply
        (header_write seq (length tx) ∷ [])
        (apply (clear_write ∷ journal_writes 0 tx) d.blocks))
  unfolding apply
  header-home lba out = ground (arith, records-home lba out)

  -- Cut short before the header is written.
  pub stopped_early :
      (n : ℕ)
      → n ≤ length (clear_write ∷ journal_writes 0 tx)
      → IsOld (apply (take n (clear_write ∷ journal_writes 0 tx)) d.blocks)
  unfolding apply
  stopped_early zero h = record { idle = clean; same = λ lba out. refl }
  stopped_early (suc n) h =
      let first = update d.blocks journal_start (header_bytes zero_header) in
      record {
        idle =
            apply-Avoids journal_start (take n (journal_writes 0 tx)) first (
              Avoids-take journal_start n (journal_writes 0 tx)
                (journal_writes-outside journal_start 0 tx (omega arith) (inl (omega arith))))
            ∙ ground arith;
        same = λ lba out.
            apply-Avoids lba (take n (journal_writes 0 tx)) first (
              Avoids-take lba n (journal_writes 0 tx)
                (journal_writes-outside lba 0 tx (omega arith) (outside-cases lba out)))
            ∙ ground arith;
      }

  -- The payloads and the last clear, from any number of payloads that are home already.
  pub finished : (m : ℕ) → IsNew (apply (home_writes tx ++ clear_write ∷ []) (past_header m))
  unfolding past_header
  finished m =
      let split = apply-append (home_writes tx) (clear_write ∷ []) (past_header m) in
      record {
        idle = (λ i. split i journal_start) ∙ unfold apply in ground arith;
        same = λ lba out.
            (λ i. split i lba)
            ∙ (home_last lba out (apply (home_writes tx) (past_header m))
                ∙ apply-apply-take lba m (home_writes tx)
                    (apply (header_write seq (length tx) ∷ [])
                      (apply (clear_write ∷ journal_writes 0 tx) d.blocks))
                    d.blocks (header-home lba out));
      }
    where
      home_last :
          (lba : ℕ) → ¬ IsJournal lba → (b : Blocks) → apply (clear_write ∷ []) b lba ≡ b lba
      home_last lba out b = apply-Avoids lba (clear_write ∷ []) b ((λ e. out (omega arith)), tt)

  past_header-header :
      (m : ℕ) → past_header m journal_start ≡ header_bytes (make_header seq (length tx))
  unfolding past_header apply
  past_header-header m =
      apply-Avoids journal_start (take m (home_writes tx)) _ (
        Avoids-take journal_start m (home_writes tx)
          (home_writes-Avoids d journal_start tx homes (omega arith)))
      ∙ ground arith

  -- The blocks once the records are written, and once the header is.
  abbrev recorded : Blocks
  recorded = apply (journal_writes 0 tx) (update d.blocks journal_start (header_bytes zero_header))

  abbrev headed : Blocks
  headed = update recorded journal_start (header_bytes (make_header seq (length tx)))

  recorded-home :
      (m lba : ℕ)
      → desc_lba 0 ≤ lba
      → lba < journal_end
      → apply (take m (home_writes tx)) headed lba ≡ recorded lba
  recorded-home m lba lo hi =
      apply-Avoids lba (take m (home_writes tx)) headed (
        Avoids-take lba m (home_writes tx)
          (home_writes-Avoids d lba tx homes (omega arith, omega arith)))
      ∙ ground arith

  past_header_lem : (m : ℕ) → past_header m ≡ apply (take m (home_writes tx)) headed
  unfolding past_header apply
  past_header_lem m = refl

  past_header-Journalled : (m : ℕ) → Journalled (past_header m) 0 tx
  past_header-Journalled m =
      Journalled-agree recorded (past_header m) 0 tx (omega arith)
        (λ lba lo hi. (λ i. past_header_lem m i lba) ∙ recorded-home m lba lo hi)
        (journal_writes-Journalled 0 tx (update d.blocks journal_start (header_bytes zero_header)))

  tail-valid : AllValid d (home_writes tx ++ clear_write ∷ [])
  tail-valid =
      AllValid-append d (home_writes tx) (clear_write ∷ []) (home_writes-valid d tx homes)
        (omega arith, omega arith, tt)

  -- What a recovery makes of a device without faults.
  abbrev pub Recovers : BlockDev → (Blocks → Type 0) → Type 0
  Recovers c P = (e : BlockDev) × (journal_recover c ≡ done tt e) × P e.blocks

  pub recover-committed :
      (m : ℕ) (c : BlockDev)
      → c.total_blocks ≡ d.total_blocks
      → c.fail_after ≡ none
      → c.blocks ≡ past_header m
      → Recovers c IsNew
  recover-committed m c total fine e =
      let run =
        write_all-healthy (home_writes tx ++ clear_write ∷ []) c
          (AllValid-store (home_writes tx ++ clear_write ∷ []) d c total tail-valid) fine in
      let r =
        journal_recover-committed tx seq c few small (omega arith)
          (AllHome-shift d c tx total homes) fine ((λ i. e i journal_start) ∙ past_header-header m)
          (rw e (past_header-Journalled m)) in
      (run.0, r ∙ run.1, rw (run.2, e) (finished m))

  pub recover-IsNew :
      (c : BlockDev) → c.total_blocks ≡ d.total_blocks → IsNew c.blocks → Recovers c IsNew
  recover-IsNew c total p = (c, journal_recover-clean c (omega arith) p.idle, p)

  pub recover-IsOld :
      (c : BlockDev) → c.total_blocks ≡ d.total_blocks → IsOld c.blocks → Recovers c IsOld
  recover-IsOld c total p = (c, journal_recover-clean c (omega arith) p.idle, p)
