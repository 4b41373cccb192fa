-- ===== src/Sync/System.antt =====
-- Threads over one shared object, interleaved in any order, one atomic access at a time. The accesses
-- are taken to be sequentially consistent.
use acep_reja_mcsos.Common.{ℕ, update}

module _ {Mem Pc : Type 0} (Move : ℕ → Mem → Pc → Mem → Pc → Type 0) where
  -- What the threads share, and where each of them stands. Thread `i` is any number.
  pub record System : Type 0 where
    pub mem : Mem
    pub pc : ℕ → Pc

  pub data Step (s : System) : System → Type 0 where
    pick :
        (i : ℕ) {m : Mem} {p : Pc}
        → Move i s.mem (s.pc i) m p
        → Step s (record { mem = m; pc = update s.pc i p })

  pub data Reach (s : System) : System → Type 0 where
    here : Reach s s
    later : {t u : System} → Reach s t → Step t u → Reach s u
