-- ===== src/Journal/Commit.antt =====
-- m16_journal_commit as one run of block writes.
use acep_reja_mcsos.Journal.Writes.{write_all, Write, write_all-append}
use acep_reja_mcsos.Journal.{
  write_home, Tx, write_records, journal_commit, apply_home, Outcome, journal_start, desc_lba,
  and_then, journal_clear, ◌>>◌, M, max_records, header_bytes, desc_bytes, pure, zero_header,
  make_desc, make_header, done, fail, write_block,
}
use acep_reja_mcsos.Common.{
  ℕ, ◌+◌, ◌≤◌, ◌≡◌, refl, sym, ap, ◌∙◌, fun_ext, false, List, [], ◌∷◌, ◌++◌, arith, ltb, length,
}

abbrev pub clear_write : Write
clear_write = (journal_start, header_bytes zero_header)

unfoldable pub journal_writes : ℕ → Tx → List Write
journal_writes i [] = []
journal_writes i (r ∷ rs) =
    (desc_lba i, desc_bytes (make_desc r)) ∷ (desc_lba i + 1, r.payload) ∷ journal_writes (i + 1) rs

abbrev pub header_write : ℕ → ℕ → Write
header_write seq count = (journal_start, header_bytes (make_header seq count))

unfoldable pub home_writes : Tx → List Write
home_writes [] = []
home_writes (r ∷ rs) = (r.target_lba, r.payload) ∷ home_writes rs

-- The writes of a commit in order: the old header is cleared, the records are written, the new header
-- makes them count, the payloads go home, and the header is cleared again.
abbrev pub commit_writes : Tx → ℕ → List Write
commit_writes tx seq =
    (clear_write ∷ journal_writes 0 tx)
    ++ (header_write seq (length tx) ∷ (home_writes tx ++ clear_write ∷ []))

write_records_lem : (i : ℕ) (tx : Tx) → write_records i tx ≡ write_all (journal_writes i tx)
unfolding write_records journal_writes write_all
write_records_lem i [] = refl
write_records_lem i (r ∷ rs) =
    ap
      (λ (m : M (Unit {0})).
        write_block (desc_lba i) (desc_bytes (make_desc r))
        >> (write_block (desc_lba i + 1) r.payload >> m))
      (write_records_lem (i + 1) rs)

write_home_lem : (tx : Tx) → write_home tx ≡ write_all (home_writes tx)
unfolding write_home home_writes write_all
write_home_lem [] = refl
write_home_lem (r ∷ rs) =
    ap (λ (m : M (Unit {0})). write_block r.target_lba r.payload >> m) (write_home_lem rs)

and_then-pure : (r : Outcome (Unit {0})) → and_then r (λ _. pure tt) ≡ r
and_then-pure (done a d) = refl
and_then-pure (fail e d) = refl

pub clear_lem : write_all (clear_write ∷ []) ≡ journal_clear
unfolding write_all journal_clear
clear_lem = fun_ext λ d. and_then-pure (write_block journal_start (header_bytes zero_header) d)

pub >>-append : (xs ys : List Write) → (write_all xs >> write_all ys) ≡ write_all (xs ++ ys)
>>-append xs ys = fun_ext λ d. sym (write_all-append xs ys d)

pub apply_home_lem : (tx : Tx) → apply_home tx ≡ write_all (home_writes tx ++ clear_write ∷ [])
unfolding apply_home
apply_home_lem tx =
    ap (λ (m : M (Unit {0})). m >> journal_clear) (write_home_lem tx)
    ∙ (ap (λ (m : M (Unit {0})). write_all (home_writes tx) >> m) (sym clear_lem)
        ∙ >>-append (home_writes tx) (clear_write ∷ []))

-- A commit is the run of its writes.
pub journal_commit_lem :
    (tx : Tx) (seq : ℕ)
    → length tx ≤ max_records
    → journal_commit tx seq false ≡ write_all (commit_writes tx seq)
unfolding journal_commit
journal_commit_lem tx seq h =
    let r : ltb max_records (length tx) ≡ false = ground arith in
    rw r (
      unfold write_all journal_clear in
      ap (λ (m : M (Unit {0})). write_block journal_start (header_bytes zero_header) >> m)
        (ap
            (λ (m : M (Unit {0})).
              write_records 0 tx
              >> (write_block journal_start (header_bytes (make_header seq (length tx))) >> m))
            (apply_home_lem tx)
          ∙ (ap
                (λ (m : M (Unit {0})).
                  m
                  >> write_all
                      (header_write seq (length tx) ∷ (home_writes tx ++ clear_write ∷ [])))
                (write_records_lem 0 tx)
              ∙ >>-append (journal_writes 0 tx)
                  (header_write seq (length tx) ∷ (home_writes tx ++ clear_write ∷ [])))))
