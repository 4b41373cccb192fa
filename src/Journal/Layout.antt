-- ===== src/Journal/Layout.antt =====
-- How the structs of the journal lie in their blocks, and the checksum over bytes.
use acep_reja_mcsos.Common.{
  ℕ, zero, suc, ◌+◌, ◌*◌, ◌/◌, ◌%◌, ◌^◌, ◌<◌, ◌≡◌, refl, List, [], ◌∷◌, ◌++◌, arith, drop,
  replicate, u32_mod,
}
use Prim.Native.Nat.{bit_xor}
use Prim.Native.Nat.pow
use native.Mathlib.Nat.{pow-suc}

-- The low `k` bytes of a number, the lowest first.
unfoldable pub le : ℕ → ℕ → List ℕ
le zero n = []
le (suc k) n = n % 256 ∷ le k (n / 256)

unfoldable pub of_le : ℕ → List ℕ → ℕ
of_le zero xs = 0
of_le (suc k) [] = 0
of_le (suc k) (x ∷ xs) = x + 256 * of_le k xs

-- struct m16_journal_header; `reserved` is raw bytes.
pub record JournalHeader : Type 0 where
  pub magic : ℕ
  pub version : ℕ
  pub state : ℕ
  pub seq : ℕ
  pub count : ℕ
  pub header_checksum : ℕ
  pub reserved : List ℕ

unfoldable pub zero_header : JournalHeader
zero_header = record {
  magic = 0;
  version = 0;
  state = 0;
  seq = 0;
  count = 0;
  header_checksum = 0;
  reserved = replicate 484 0;
}

pub header_bytes : JournalHeader → List ℕ
header_bytes h =
    le 8 h.magic
    ++ (le 4 h.version
        ++ (le 4 h.state
            ++ (le 4 h.seq ++ (le 4 h.count ++ (le 4 h.header_checksum ++ h.reserved)))))

pub read_header : List ℕ → JournalHeader
read_header b =
    let b1 = drop 8 b in
    let b2 = drop 4 b1 in
    let b3 = drop 4 b2 in
    let b4 = drop 4 b3 in
    let b5 = drop 4 b4 in
    record {
      magic = of_le 8 b;
      version = of_le 4 b1;
      state = of_le 4 b2;
      seq = of_le 4 b3;
      count = of_le 4 b4;
      header_checksum = of_le 4 b5;
      reserved = drop 4 b5;
    }

-- struct m16_journal_desc
pub record JournalDesc : Type 0 where
  pub magic : ℕ
  pub target_lba : ℕ
  pub payload_checksum : ℕ
  pub reserved : List ℕ

pub desc_bytes : JournalDesc → List ℕ
desc_bytes d = le 8 d.magic ++ (le 4 d.target_lba ++ (le 4 d.payload_checksum ++ d.reserved))

pub read_desc : List ℕ → JournalDesc
read_desc b =
    let b1 = drop 8 b in
    let b2 = drop 4 b1 in
    record {
      magic = of_le 8 b;
      target_lba = of_le 4 b1;
      payload_checksum = of_le 4 b2;
      reserved = drop 4 b2;
    }

-- The loop of `m16_checksum`, from the hash so far.
pub checksum_from : ℕ → List ℕ → ℕ
checksum_from h [] = h
checksum_from h (x ∷ xs) = checksum_from (bit_xor h x * 16777619 % u32_mod) xs

pub checksum : List ℕ → ℕ
checksum b = checksum_from 2166136261 b

pub of_le-le : (k n : ℕ) (rest : List ℕ) → n < 256 ^ k → of_le k (le k n ++ rest) ≡ n
unfolding le of_le
of_le-le zero n rest h = omega (arith, pow.zero 256)
of_le-le (suc k) n rest h = omega (arith, of_le-le k (n / 256) rest (omega (arith, pow-suc 256 k)))

pub drop-le : (k n : ℕ) (rest : List ℕ) → drop k (le k n ++ rest) ≡ rest
unfolding le
drop-le zero n rest = refl
drop-le (suc k) n rest = drop-le k (n / 256) rest

-- The header's words fit the widths of their fields.
pub record FitsHeader (h : JournalHeader) : Type 0 where
  pub magic : h.magic < 2 ^ 64
  pub version : h.version < 2 ^ 32
  pub state : h.state < 2 ^ 32
  pub seq : h.seq < 2 ^ 32
  pub count : h.count < 2 ^ 32
  pub header_checksum : h.header_checksum < 2 ^ 32

pub record FitsDesc (d : JournalDesc) : Type 0 where
  pub magic : d.magic < 2 ^ 64
  pub target_lba : d.target_lba < 2 ^ 32
  pub payload_checksum : d.payload_checksum < 2 ^ 32

-- A journal header whose words fit their fields is read back from its block as it was written.
pub read_header-header_bytes : (h : JournalHeader) → FitsHeader h → read_header (header_bytes h) ≡ h
unfolding read_header header_bytes
read_header-header_bytes h f = simp (drop-le) (
    rw
      (
        of_le-le 8 h.magic _ f.magic,
        of_le-le 4 h.version _ f.version,
        of_le-le 4 h.state _ f.state,
        of_le-le 4 h.seq _ f.seq,
        of_le-le 4 h.count _ f.count,
        of_le-le 4 h.header_checksum _ f.header_checksum,
      )
      refl)

-- A journal descriptor whose words fit their fields is read back from its block as it was written.
pub read_desc-desc_bytes : (d : JournalDesc) → FitsDesc d → read_desc (desc_bytes d) ≡ d
unfolding read_desc desc_bytes
read_desc-desc_bytes d f = simp (drop-le) (
    rw
      (
        of_le-le 8 d.magic _ f.magic,
        of_le-le 4 d.target_lba _ f.target_lba,
        of_le-le 4 d.payload_checksum _ f.payload_checksum,
      )
      refl)

checksum_from-lt : (h : ℕ) (xs : List ℕ) → h < 2 ^ 32 → checksum_from h xs < 2 ^ 32
unfolding checksum_from
checksum_from-lt h [] lt = lt
checksum_from-lt h (x ∷ xs) lt =
    checksum_from-lt (bit_xor h x * 16777619 % u32_mod) xs (omega arith)

pub checksum-lt : (xs : List ℕ) → checksum xs < 2 ^ 32
unfolding checksum
checksum-lt xs = checksum_from-lt 2166136261 xs (omega arith)
