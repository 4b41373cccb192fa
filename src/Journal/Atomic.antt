-- ===== src/Journal/Atomic.antt =====
-- The journal's promise to its callers.
use acep_reja_mcsos.Journal.Writes.{
  healthy, apply, device, succeeded, faulty, write_all-faulty, Write, apply-append,
  write_all-healthy,
}
use acep_reja_mcsos.Journal.Crash.{
  Ready, Recovers, IsOld, IsNew, recover-IsOld, stopped_early, commit-valid, recover-committed,
  recover-IsNew, finished, past_header,
}
use acep_reja_mcsos.Journal.Commit.{
  journal_writes, clear_write, header_write, home_writes, commit_writes, journal_commit_lem,
}
use acep_reja_mcsos.Journal.{BlockDev, Tx, journal_commit, done}
use acep_reja_mcsos.Common.{
  ℕ, suc, ◌+◌, ◌-◌, ◌*◌, ◌≤◌, ◌<◌, ◌≡◌, refl, ap, ◌∙◌, inl, inr, false, none, List, [], ◌∷◌, ◌++◌,
  arith, leb, Bool-cases, length, take, length-append, take-append_left, take-append_right,
  take-all, sym,
}

length-journal_writes : (i : ℕ) (rs : Tx) → length (journal_writes i rs) ≡ 2 * length rs
unfolding journal_writes
length-journal_writes i [] = refl
length-journal_writes i (r ∷ rs) = omega (arith, length-journal_writes (i + 1) rs)

module _ (d : BlockDev) (tx : Tx) (seq : ℕ) (ready : Ready d tx seq) where
  -- The device that a commit leaves when its first `n` writes succeed and all later ones fail,
  -- started again without faults.
  abbrev pub crashed : ℕ → BlockDev
  crashed n = healthy (device (journal_commit tx seq false (faulty d n)))

  crashed_lem :
      (n : ℕ)
      → ((crashed n).blocks ≡ apply (take n (commit_writes tx seq)) d.blocks)
        × ((crashed n).total_blocks ≡ d.total_blocks)
        × (succeeded (journal_commit tx seq false (faulty d n))
            ≡ leb (length (commit_writes tx seq)) n)
  crashed_lem n =
      rw (journal_commit_lem tx seq ready.few)
        (write_all-faulty (commit_writes tx seq) d n (commit-valid d tx seq ready))

  abbrev tail : List Write
  tail = home_writes tx ++ clear_write ∷ []

  -- From the write of the header on, the writes that a cut leaves.
  late_writes :
      (m : ℕ)
      → apply (take (2 + 2 * length tx + m) (commit_writes tx seq)) d.blocks
        ≡ apply (take m tail) (past_header d tx seq ready 0)
  unfolding past_header apply
  late_writes m =
      let head = clear_write ∷ journal_writes 0 tx in
      let k = 2 + 2 * length tx + m in
      let l = length-journal_writes 0 tx in
      let whole =
        ap (λ ws. apply ws d.blocks)
          (take-append_right k head (header_write seq (length tx) ∷ tail) (omega arith)) in
      let rest : k - length head ≡ suc m = omega arith in
      whole
      ∙ (ap (λ j. apply (head ++ take j (header_write seq (length tx) ∷ tail)) d.blocks) rest
          ∙ apply-append head (header_write seq (length tx) ∷ take m tail) d.blocks)

  past_all : (m : ℕ) → length (home_writes tx) < m → take m tail ≡ tail
  past_all m h = take-all m tail (omega (arith, length-append (home_writes tx) (clear_write ∷ [])))

  recover-late :
      (m : ℕ) (c : BlockDev)
      → c.blocks ≡ apply (take m tail) (past_header d tx seq ready 0)
      → c.total_blocks ≡ d.total_blocks
      → c.fail_after ≡ none
      → Recovers d tx seq ready c (IsNew d tx seq ready)
  recover-late m c e total fine = elim (Bool-cases (leb m (length (home_writes tx)))) [
    | inl le ↦ recover-committed d tx seq ready m c total fine (
        e
        ∙ (ap (λ ws. apply ws (past_header d tx seq ready 0))
              (take-append_left m (home_writes tx) (clear_write ∷ []) (ground arith))
            ∙ unfold past_header apply in refl))
    | inr gt ↦
        recover-IsNew d tx seq ready c total
          (rw (e, past_all m (ground arith)) (finished d tx seq ready 0))
  ]

  -- For a transaction of at most 8 records for blocks outside of the journal, and a sequence number
  -- below 2^32, on a device that has the whole journal and whose journal is clean: if any number of
  -- the writes of m16_journal_commit succeed and the rest fail, m16_journal_recover on the restarted
  -- device succeeds, leaves the journal clean, and finds every block outside of the journal as
  -- before the commit if the commit record was not written, and as the transaction makes it
  -- otherwise.
  pub commit_atomic :
      (n : ℕ)
      → (n ≤ 1 + 2 * length tx → Recovers d tx seq ready (crashed n) (IsOld d tx seq ready))
        × (1 + 2 * length tx < n → Recovers d tx seq ready (crashed n) (IsNew d tx seq ready))
  commit_atomic n = (λ h. early h, λ h. late h)
    where
      c : (crashed n).total_blocks ≡ d.total_blocks
      c = (crashed_lem n).1

      early : n ≤ 1 + 2 * length tx → Recovers d tx seq ready (crashed n) (IsOld d tx seq ready)
      early h = recover-IsOld d tx seq ready (crashed n) c (
          rw
            (
              (crashed_lem n).0,
              take-append_left n (clear_write ∷ journal_writes 0 tx)
                  (header_write seq (length tx) ∷ (home_writes tx ++ clear_write ∷ []))
                  (omega (arith, length-journal_writes 0 tx)),
            )
            (stopped_early d tx seq ready n (omega (arith, length-journal_writes 0 tx))))

      late : 1 + 2 * length tx < n → Recovers d tx seq ready (crashed n) (IsNew d tx seq ready)
      late h =
          recover-late (n - (2 + 2 * length tx)) (crashed n)
            ((crashed_lem n).0
              ∙ (ap (λ k. apply (take k (commit_writes tx seq)) d.blocks) (omega arith)
                  ∙ late_writes (n - (2 + 2 * length tx))))
            c refl

  -- On a device without faults that has the whole journal and whose journal is clean,
  -- m16_journal_commit of a transaction of at most 8 records for blocks outside of the journal, with
  -- a sequence number below 2^32, succeeds, writes every payload home, changes no other block
  -- outside of the journal, and leaves the journal clean.
  pub journal_commit-done :
      d.fail_after ≡ none
      → (e : BlockDev) × (journal_commit tx seq false d ≡ done tt e) × IsNew d tx seq ready e.blocks
  journal_commit-done fine =
      let run = write_all-healthy (commit_writes tx seq) d (commit-valid d tx seq ready) fine in
      let m = length tail in
      let whole = take-all (2 + 2 * length tx + m) (commit_writes tx seq) (
        omega (
          arith,
          length-journal_writes 0 tx,
          length-append (clear_write ∷ journal_writes 0 tx) (header_write seq (length tx) ∷ tail),
        )) in
      let blocks =
        run.2
        ∙ (ap (λ ws. apply ws d.blocks) (sym whole)
            ∙ (late_writes m
                ∙ ap (λ ws. apply ws (past_header d tx seq ready 0))
                    (take-all m tail (omega arith)))) in
      (run.0, rw (journal_commit_lem tx seq ready.few) run.1, rw blocks (finished d tx seq ready 0))
