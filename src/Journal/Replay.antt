-- ===== src/Journal/Replay.antt =====
-- m16_journal_recover: what a mount does with the journal that it finds.
use acep_reja_mcsos.Journal.{
  M, journal_magic, Block, pure, state_empty, version, checksum, valid_lba, header_checksum,
  state_committed, write_block, and_then, throw, max_records, corrupt, read_block, desc_lba, fail,
  journal_clear, journal_start, ◌>>◌, ◌>>=◌,
}
use acep_reja_mcsos.Journal.Layout.{JournalDesc, JournalHeader, read_desc, read_header}
use acep_reja_mcsos.Common.{ℕ, zero, suc, ◌+◌, Bool, ◌&&◌, leb, ◌==◌, if◌then◌else◌}

-- Whether the header is one that a commit wrote.
unfoldable pub header_ok : JournalHeader → Bool
header_ok h =
    h.magic == journal_magic
    && (h.version == version && (h.state == state_committed && leb h.count max_records))

-- What the loop does with the payload that it has read for a descriptor.
unfoldable pub replay_payload : JournalDesc → Block → M (Unit {0})
replay_payload d payload =
    if checksum payload == d.payload_checksum
    then write_block d.target_lba payload
    else throw corrupt

unfoldable pub replay_desc : ℕ → JournalDesc → M (Unit {0})
replay_desc i d dev =
    if d.magic == journal_magic && valid_lba dev d.target_lba
    then and_then (read_block (desc_lba i + 1) dev) (λ payload. replay_payload d payload)
    else fail corrupt dev

unfoldable pub replay_record : ℕ → M (Unit {0})
replay_record i = do b ← read_block (desc_lba i); replay_desc i (read_desc b)

-- `for (i = …; i < h.count; i++)` with `n` rounds left.
unfoldable pub replay_from : ℕ → ℕ → M (Unit {0})
replay_from zero i = pure tt
replay_from (suc n) i = do replay_record i; replay_from n (i + 1)

unfoldable pub replay_all : ℕ → M (Unit {0})
replay_all count = do replay_from count 0; journal_clear

unfoldable pub replay_header : JournalHeader → M (Unit {0})
replay_header h =
    if h.magic == 0 && h.state == state_empty
    then pure tt
    else if header_ok h && header_checksum h == h.header_checksum
    then replay_all h.count
    else throw corrupt

unfoldable pub journal_recover : M (Unit {0})
journal_recover = do b ← read_block journal_start; replay_header (read_header b)
