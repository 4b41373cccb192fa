-- ===== src/Journal/Tests.antt =====
-- A commit of two records on a device with a clean journal.
use acep_reja_mcsos.Journal.Atomic.{crashed, journal_commit-done, commit_atomic}
use acep_reja_mcsos.Journal.Crash.{Recovers, Ready, IsNew, IsOld}
use acep_reja_mcsos.Common.{
  ◌+◌, ◌*◌, ◌≤◌, ◌<◌, ◌≡◌, refl, false, none, [], ◌∷◌, arith, ◌==◌, if◌then◌else◌,
}
use acep_reja_mcsos.Journal.{
  done, BlockDev, Tx, journal_start, journal_commit, header_bytes, zero_header,
}

abbrev disk : BlockDev
disk = record {
  blocks = λ lba. if lba == journal_start then header_bytes zero_header else [];
  total_blocks = 128;
  writes = 0;
  fail_after = none;
}

abbrev two_records : Tx
two_records =
    record { target_lba = 20; payload = 1 ∷ 2 ∷ [] }
    ∷ record { target_lba = 30; payload = 3 ∷ [] }
    ∷ []

two_records-Ready : Ready disk two_records 7
two_records-Ready = record {
  big = omega arith;
  few = omega arith;
  small = omega arith;
  homes = (
    (omega arith, omega arith, λ h. omega arith),
    ((omega arith, omega arith, λ h. omega arith), tt),
  );
  clean = refl;
}

commit_atomic_example :
    (4 ≤ 1 + 2 * 2
      → Recovers disk two_records 7 two_records-Ready
          (crashed disk two_records 7 two_records-Ready 4)
          (IsOld disk two_records 7 two_records-Ready))
    × (1 + 2 * 2 < 4
        → Recovers disk two_records 7 two_records-Ready
            (crashed disk two_records 7 two_records-Ready 4)
            (IsNew disk two_records 7 two_records-Ready))
commit_atomic_example = commit_atomic disk two_records 7 two_records-Ready 4

journal_commit-done_example :
    (e : BlockDev) × (journal_commit two_records 7 false disk ≡ done tt e)
    × IsNew disk two_records 7 two_records-Ready e.blocks
journal_commit-done_example = journal_commit-done disk two_records 7 two_records-Ready refl
