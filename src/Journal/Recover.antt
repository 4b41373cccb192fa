-- ===== src/Journal/Recover.antt =====
-- What a recovery does on a clean journal and on a committed one.
use acep_reja_mcsos.Journal.Layout.{
  desc_bytes, header_bytes, zero_header, checksum, FitsDesc, FitsHeader, checksum-lt,
  read_header-header_bytes, read_desc-desc_bytes,
}
use acep_reja_mcsos.Journal.Commit.{journal_writes, home_writes, clear_write, clear_lem}
use acep_reja_mcsos.Journal.Replay.{
  journal_recover, replay_from, replay_record, replay_desc, replay_header, replay_payload,
  replay_all, header_ok,
}
use acep_reja_mcsos.Journal.Writes.{
  Blocks, apply, Avoids, write_all, apply-Avoids, write_all-append,
}
use acep_reja_mcsos.Journal.{
  BlockDev, journal_start, make_desc, Tx, journal_end, JournalRecord, desc_lba, max_records,
  max_blocks, store, write_block, make_header, done, valid_lba, read_block, journal_magic,
  header_checksum, and_then, M,
}
use acep_reja_mcsos.Common.{
  ℕ, ◌+◌, ◌^◌, ◌≤◌, ◌<◌, ◌≡◌, refl, ◌∙◌, ◌⊎◌, true, none, [], ◌∷◌, ◌++◌, arith, ◌==◌, update,
  length, sym, ap,
}

-- Blocks that belong to the journal, its header first.
abbrev pub IsJournal : ℕ → Type 0
IsJournal lba = (journal_start ≤ lba) × (lba < journal_end)

-- What a transaction must be: few enough records, each for a block of the device outside of the
-- journal.
abbrev pub IsHome : BlockDev → JournalRecord → Type 0
IsHome d r =
    (r.target_lba < d.total_blocks) × (r.target_lba < max_blocks) × ¬ IsJournal r.target_lba

abbrev pub AllHome : BlockDev → Tx → Type 0
AllHome d [] = Unit {0}
AllHome d (r ∷ rs) = IsHome d r × AllHome d rs

-- From record `i` on, the journal's blocks hold the records.
abbrev pub Journalled : Blocks → ℕ → Tx → Type 0
Journalled b i [] = Unit {0}
Journalled b i (r ∷ rs) =
    (b (desc_lba i) ≡ desc_bytes (make_desc r))
    × (b (desc_lba i + 1) ≡ r.payload)
    × Journalled b (i + 1) rs

pub Journalled-agree :
    (b c : Blocks) (i : ℕ) (rs : Tx)
    → i + length rs ≤ max_records
    → ((lba : ℕ) → desc_lba 0 ≤ lba → lba < journal_end → c lba ≡ b lba)
    → Journalled b i rs
    → Journalled c i rs
Journalled-agree b c i [] h agree j = tt
Journalled-agree b c i (r ∷ rs) h agree j = (
  agree (desc_lba i) (omega arith) (omega arith) ∙ j.0,
  agree (desc_lba i + 1) (omega arith) (omega arith) ∙ j.1,
  Journalled-agree b c (i + 1) rs (omega arith) agree j.2,
)

journal_writes-Avoids :
    (lba i : ℕ) (rs : Tx)
    → ((lba < desc_lba i) ⊎ (desc_lba (i + length rs) ≤ lba))
    → Avoids lba (journal_writes i rs)
unfolding journal_writes
journal_writes-Avoids lba i [] h = tt
journal_writes-Avoids lba i (r ∷ rs) h =
    (omega arith, (omega arith, journal_writes-Avoids lba (i + 1) rs (omega arith)))

-- The journal's own writes leave every block before the records and after them alone.
pub journal_writes-outside :
    (lba i : ℕ) (rs : Tx)
    → i + length rs ≤ max_records
    → ((lba < desc_lba i) ⊎ (journal_end ≤ lba))
    → Avoids lba (journal_writes i rs)
journal_writes-outside lba i rs h o = journal_writes-Avoids lba i rs (omega arith)

pub journal_writes-Journalled :
    (i : ℕ) (rs : Tx) (b : Blocks) → Journalled (apply (journal_writes i rs) b) i rs
unfolding journal_writes apply
journal_writes-Journalled i [] b = tt
journal_writes-Journalled i (r ∷ rs) b =
    let c = update (update b (desc_lba i) (desc_bytes (make_desc r))) (desc_lba i + 1) r.payload in
    (
      apply-Avoids (desc_lba i) (journal_writes (i + 1) rs) c
            (journal_writes-Avoids (desc_lba i) (i + 1) rs (omega arith))
          ∙ ground arith,
      apply-Avoids (desc_lba i + 1) (journal_writes (i + 1) rs) c
            (journal_writes-Avoids (desc_lba i + 1) (i + 1) rs (omega arith))
          ∙ ground arith,
      journal_writes-Journalled (i + 1) rs c,
    )

make_desc-FitsDesc : (d : BlockDev) (r : JournalRecord) → IsHome d r → FitsDesc (make_desc r)
unfolding make_desc
make_desc-FitsDesc d r h = record {
  magic = omega arith;
  target_lba = omega arith;
  payload_checksum = checksum-lt r.payload;
}

-- Replaying a record that the journal holds is the write of its payload to its home.
replay_record_lem :
    (e : BlockDev) (i : ℕ) (r : JournalRecord)
    → e.blocks (desc_lba i) ≡ desc_bytes (make_desc r)
    → e.blocks (desc_lba i + 1) ≡ r.payload
    → i < max_records
    → journal_end ≤ e.total_blocks
    → IsHome e r
    → replay_record i e ≡ write_block r.target_lba r.payload e
unfolding replay_record replay_desc replay_payload
replay_record_lem e i r hd hp lt big home =
    let r1 : read_block (desc_lba i) e ≡ done (desc_bytes (make_desc r)) e =
      unfold read_block valid_lba in ground arith in
    let r2 : read_block (desc_lba i + 1) e ≡ done r.payload e =
      unfold read_block valid_lba in ground arith in
    let r3 : (make_desc r).magic ≡ journal_magic = unfold make_desc in refl in
    let r4 : valid_lba e (make_desc r).target_lba ≡ true =
      unfold make_desc valid_lba in ground arith in
    let r5 : (checksum r.payload == (make_desc r).payload_checksum) ≡ true =
      unfold make_desc in ground arith in
    let r6 : (make_desc r).target_lba ≡ r.target_lba = unfold make_desc in refl in
    rw (r1, read_desc-desc_bytes (make_desc r) (make_desc-FitsDesc e r home), r3, r4, r2, r5, r6)

pub AllHome-shift :
    (d e : BlockDev) (rs : Tx) → e.total_blocks ≡ d.total_blocks → AllHome d rs → AllHome e rs
AllHome-shift d e [] h a = tt
AllHome-shift d e (r ∷ rs) h a = ((omega arith, a.0.1, a.0.2), AllHome-shift d e rs h a.1)

-- The loop replays the records that are in the journal, in order.
replay_from_lem :
    (rs : Tx) (i : ℕ) (e : BlockDev)
    → i + length rs ≤ max_records
    → journal_end ≤ e.total_blocks
    → AllHome e rs
    → e.fail_after ≡ none
    → Journalled e.blocks i rs
    → replay_from (length rs) i e ≡ write_all (home_writes rs) e
unfolding replay_from home_writes write_all
replay_from_lem [] i e h big homes healthy_e j = refl
replay_from_lem (r ∷ rs) i e h big homes healthy_e j =
    let e' = store r.target_lba r.payload none e in
    let w : write_block r.target_lba r.payload e ≡ done tt e' =
      unfold write_block valid_lba in ground (arith, homes.0.0, homes.0.1) in
    let one : replay_record i e ≡ done tt e' =
      replay_record_lem e i r j.0 j.1 (omega arith) big homes.0 ∙ w in
    let rest =
      replay_from_lem rs (i + 1) e' (omega arith) (unfold store in big)
        (AllHome-shift e e' rs (unfold store in refl) homes.1) (unfold store in refl)
        (Journalled-agree e.blocks e'.blocks (i + 1) rs (omega arith)
          (λ lba lo hi. unfold store in update-home lba lo hi) j.2) in
    rw (one, w) rest
  where
    update-home :
        (lba : ℕ)
        → desc_lba 0 ≤ lba
        → lba < journal_end
        → update e.blocks r.target_lba r.payload lba ≡ e.blocks lba
    update-home lba lo hi = ground (arith, homes.0.2)

-- On a clean journal a recovery does nothing.
pub journal_recover-clean :
    (d : BlockDev)
    → journal_end ≤ d.total_blocks
    → d.blocks journal_start ≡ header_bytes zero_header
    → journal_recover d ≡ done tt d
unfolding journal_recover replay_header
journal_recover-clean d big clean =
    let r1 : read_block journal_start d ≡ done (header_bytes zero_header) d =
      unfold read_block valid_lba in ground arith in
    rw (r1, read_header-header_bytes zero_header (unfold zero_header in omega arith))
      (unfold zero_header in refl)

make_header-FitsHeader :
    (seq count : ℕ) → seq < 2 ^ 32 → count ≤ max_records → FitsHeader (make_header seq count)
unfolding make_header zero_header header_checksum
make_header-FitsHeader seq count small few = record {
  magic = omega arith;
  version = omega arith;
  state = omega arith;
  seq = small;
  count = omega arith;
  header_checksum = checksum-lt _;
}

-- The header that a commit writes passes the checks of a recovery.
replay_header-committed :
    (seq count : ℕ) (d : BlockDev)
    → count ≤ max_records
    → replay_header (make_header seq count) d ≡ replay_all count d
unfolding replay_header header_ok make_header zero_header header_checksum
replay_header-committed seq count d few = ground arith

-- On a device without faults that has the whole journal and whose journal holds a committed
-- transaction of at most 8 records for blocks outside of the journal, with a sequence number below
-- 2^32, m16_journal_recover is the run of writes that brings the payloads home in order and clears
-- the header.
pub journal_recover-committed :
    (tx : Tx) (seq : ℕ) (d : BlockDev)
    → length tx ≤ max_records
    → seq < 2 ^ 32
    → journal_end ≤ d.total_blocks
    → AllHome d tx
    → d.fail_after ≡ none
    → d.blocks journal_start ≡ header_bytes (make_header seq (length tx))
    → Journalled d.blocks 0 tx
    → journal_recover d ≡ write_all (home_writes tx ++ clear_write ∷ []) d
unfolding journal_recover replay_header replay_all
journal_recover-committed tx seq d few small big homes ok head j =
    let h = make_header seq (length tx) in
    let r1 : read_block journal_start d ≡ done (header_bytes h) d =
      unfold read_block valid_lba in ground arith in
    let r2 : replay_header h d ≡ replay_all (length tx) d =
      replay_header-committed seq (length tx) d few in
    let r3 : replay_from (length tx) 0 d ≡ write_all (home_writes tx) d =
      replay_from_lem tx 0 d (omega arith) big homes ok j in
    rw
      (
        r1,
        read_header-header_bytes h (make_header-FitsHeader seq (length tx) small few),
        r2,
        r3,
        write_all-append (home_writes tx) (clear_write ∷ []) d,
      )
      (ap (λ (m : M (Unit {0})). and_then (write_all (home_writes tx) d) (λ _. m)) (sym clear_lem))
