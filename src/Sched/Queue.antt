-- ===== src/Sched/Queue.antt =====
-- The ready queue as a list: the chain of links from its head, its last thread, and its length.
use acep_reja_mcsos.Sched.{Machine, Thread, thread_magic, ready}
use acep_reja_mcsos.Common.{
  ℕ, ◌≡◌, refl, sym, ◌∙◌, ◌≢◌, inl, inr, List, [], ◌∷◌, ◌++◌, arith, ◌==◌, Bool-cases, update,
  length,
}

abbrev pub Chain : (ℕ → Thread) → ℕ → List ℕ → Type 0
Chain t head [] = head ≡ 0
Chain t head (x ∷ xs) = (head ≡ x) × (x ≢ 0) × Chain t (t x).next xs

abbrev pub NotIn : ℕ → List ℕ → Type 0
NotIn x [] = Unit {0}
NotIn x (y ∷ ys) = (y ≢ x) × NotIn x ys

abbrev pub Distinct : List ℕ → Type 0
Distinct [] = Unit {0}
Distinct (x ∷ xs) = NotIn x xs × Distinct xs

abbrev pub AllReady : (ℕ → Thread) → List ℕ → Type 0
AllReady t [] = Unit {0}
AllReady t (x ∷ xs) = ((t x).magic ≡ thread_magic) × ((t x).state ≡ ready) × AllReady t xs

abbrev pub last_or : ℕ → List ℕ → ℕ
last_or x [] = x
last_or x (y ∷ ys) = last_or y ys

-- The links from `head` to `tail` are those of the list: no thread twice, each valid and ready.
pub record Links (head tail count : ℕ) (t : ℕ → Thread) (q : List ℕ) : Type 0 where
  pub chain : Chain t head q
  pub distinct : Distinct q
  pub all_ready : AllReady t q
  pub last : tail ≡ last_or 0 q
  pub counted : count ≡ length q

abbrev pub IsQueue : Machine → List ℕ → Type 0
IsQueue m q = Links m.sched.ready_head m.sched.ready_tail m.sched.runnable_count m.threads q

-- The threads of the list have the same links, magic and state in both stores.
abbrev pub Agrees : (t t' : ℕ → Thread) → List ℕ → Type 0
Agrees t t' [] = Unit {0}
Agrees t t' (x ∷ xs) =
    ((t' x).next ≡ (t x).next)
    × ((t' x).magic ≡ (t x).magic)
    × ((t' x).state ≡ (t x).state)
    × Agrees t t' xs

module _ (t : ℕ → Thread) (p : ℕ) (v : Thread) where
  pub Agrees-outside : (q : List ℕ) → NotIn p q → Agrees t (update t p v) q
  Agrees-outside [] n = tt
  Agrees-outside (x ∷ xs) n = (ground arith, ground arith, ground arith, Agrees-outside xs n.1)

  pub Agrees-same :
      (q : List ℕ)
      → v.next ≡ (t p).next
      → v.magic ≡ (t p).magic
      → v.state ≡ (t p).state
      → Agrees t (update t p v) q
  Agrees-same [] a b c = tt
  Agrees-same (x ∷ xs) a b c = elim (Bool-cases (p == x)) [
    | inl e ↦
        let w : p ≡ x = ground arith in
        (
          rw (← w) (ground arith),
          rw (← w) (ground arith),
          rw (← w) (ground arith),
          Agrees-same xs a b c,
        )
    | inr e ↦ (ground arith, ground arith, ground arith, Agrees-same xs a b c)
  ]

module _ (t t' : ℕ → Thread) where
  Chain-Agrees : (head : ℕ) (q : List ℕ) → Agrees t t' q → Chain t head q → Chain t' head q
  Chain-Agrees head [] a c = c
  Chain-Agrees head (x ∷ xs) a c = (c.0, c.1, rw a.0 (Chain-Agrees (t x).next xs a.3 c.2))

  AllReady-Agrees : (q : List ℕ) → Agrees t t' q → AllReady t q → AllReady t' q
  AllReady-Agrees [] a r = tt
  AllReady-Agrees (x ∷ xs) a r = (a.1 ∙ r.0, a.2 ∙ r.1, AllReady-Agrees xs a.3 r.2)

  pub Links-Agrees :
      {head tail count : ℕ} (q : List ℕ)
      → Agrees t t' q
      → Links head tail count t q
      → Links head tail count t' q
  Links-Agrees {head} q a l = record {
    chain = Chain-Agrees head q a l.chain;
    distinct = l.distinct;
    all_ready = AllReady-Agrees q a l.all_ready;
    last = l.last;
    counted = l.counted;
  }

pub NotIn-last : (x y : ℕ) (ys : List ℕ) → NotIn x (y ∷ ys) → last_or y ys ≢ x
NotIn-last x y [] n = n.0
NotIn-last x y (z ∷ zs) n = NotIn-last x z zs n.1

pub Chain-last :
    (t : ℕ → Thread) (head y : ℕ) (ys : List ℕ) → Chain t head (y ∷ ys) → last_or y ys ≢ 0
Chain-last t head y [] c = c.1
Chain-last t head y (z ∷ zs) c = Chain-last t (t y).next z zs c.2

-- A thread that is linked behind the last one ends the chain.
pub Chain-snoc :
    (t : ℕ → Thread) (head x y : ℕ) (ys : List ℕ)
    → Distinct (y ∷ ys)
    → NotIn x (y ∷ ys)
    → x ≢ 0
    → (t x).next ≡ 0
    → Chain t head (y ∷ ys)
    → Chain
        (update t (last_or y ys) (record (t (last_or y ys)) { next = x }))
        head
        (y ∷ (ys ++ x ∷ []))
Chain-snoc t head x y [] d n nz e c = (c.0, c.1, (ground arith, nz, ground arith))
Chain-snoc t head x y (z ∷ zs) d n nz e c =
    let l = last_or z zs in
    let far : l ≢ y = NotIn-last y z zs d.0 in
    let same : (update t l (record (t l) { next = x }) y).next ≡ (t y).next = ground arith in
    (c.0, c.1, rw same (Chain-snoc t (t y).next x z zs d.1 n.1 nz e c.2))

pub NotIn-snoc : (x y : ℕ) (q : List ℕ) → NotIn x q → y ≢ x → NotIn x (q ++ y ∷ [])
NotIn-snoc x y [] n h = (h, tt)
NotIn-snoc x y (z ∷ zs) n h = (n.0, NotIn-snoc x y zs n.1 h)

pub Distinct-snoc : (x : ℕ) (q : List ℕ) → Distinct q → NotIn x q → Distinct (q ++ x ∷ [])
Distinct-snoc x [] d n = (tt, tt)
Distinct-snoc x (y ∷ ys) d n =
    (NotIn-snoc y x ys d.0 (λ e. n.0 (sym e)), Distinct-snoc x ys d.1 n.1)

pub AllReady-snoc :
    (t : ℕ → Thread) (x : ℕ) (q : List ℕ)
    → AllReady t q
    → (t x).magic ≡ thread_magic
    → (t x).state ≡ ready
    → AllReady t (q ++ x ∷ [])
AllReady-snoc t x [] r m s = (m, s, tt)
AllReady-snoc t x (y ∷ ys) r m s = (r.0, r.1, AllReady-snoc t x ys r.2 m s)

pub last_or-snoc : (d x : ℕ) (q : List ℕ) → last_or d (q ++ x ∷ []) ≡ x
last_or-snoc d x [] = refl
last_or-snoc d x (y ∷ ys) = last_or-snoc y x ys

pub AllReady-next :
    (t : ℕ → Thread) (p v : ℕ) (q : List ℕ)
    → AllReady t q
    → AllReady (update t p (record (t p) { next = v })) q
AllReady-next t p v [] r = tt
AllReady-next t p v (x ∷ xs) r = elim (Bool-cases (p == x)) [
  | inl e ↦
      let w : p ≡ x = ground arith in
      (rw (← w) (ground (arith, r.0)), rw (← w) (ground (arith, r.1)), AllReady-next t p v xs r.2)
  | inr e ↦ (ground (arith, r.0), ground (arith, r.1), AllReady-next t p v xs r.2)
]
