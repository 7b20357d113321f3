-- ===== src/Apply/Wait.antt =====
-- The bounded waits of config_apply.py and coraza_probe.py: read, test the clock, sleep, again.
-- Every round's sleep moves the clock by at least the interval, so `rounds` are enough.
use guard_proxy.Prelude.{
  ℕ, zero, suc, ◌+◌, ◌*◌, ◌/◌, ◌≤◌, ◌<◌, ◌≡◌, Option, none, some, arith, leb, if◌then◌else◌,
  Bool-cases, Option-cases, inl, inr, false, ◌≢◌, subst, sym,
}
use native.Mathlib.Decide.{ℕ_discrete}
use guard_proxy.Apply.Disk.{Polls}

-- The rounds that fit into a wait of `timeout` milliseconds, with one to spare at either end.
abbrev pub rounds : ℕ → ℕ → ℕ
rounds interval timeout = timeout / interval + 2

-- `none` means that the fuel ran out, `some none` that the deadline passed without an answer.
unfoldable pub poll :
    {A B : Type 0} → (Option A → Option B) → Polls A → ℕ → ℕ → ℕ → Option (Option B)
poll answer p deadline k zero = none
poll answer p deadline k (suc fuel) =
    let rest = poll answer p deadline (suc k) fuel in
    elim (answer (p.read k)) [
      | some b ↦ some (some b)
      | none ↦ if leb deadline (p.now k) then some none else rest
    ]

-- The documented behaviour of `time.monotonic` and `time.sleep`.
pub record IsClock {A : Type 0} (interval : ℕ) (p : Polls A) : Type 0 where
  pub starts : p.started ≤ p.now 0
  pub sleeps : (k : ℕ) → p.now k + interval ≤ p.now (suc k)

below : (k n : ℕ) → k ≤ n → k ≢ n → suc k ≤ n
below k n h ne = omega arith

refute : {a b : ℕ} → leb a b ≡ false → a ≤ b → ⊥
refute h le = ground arith

module _ {A : Type 0} (interval : ℕ) (p : Polls A) (clock : IsClock interval p) where
  pub IsClock-elapsed : (k : ℕ) → p.started + k * interval ≤ p.now k
  IsClock-elapsed zero = omega (arith, clock.starts)
  IsClock-elapsed (suc k) = grind (arith, clock.sleeps k, IsClock-elapsed k)

-- With a round at or past the deadline within the fuel, the loop ends.
pub poll_total :
    {A B : Type 0} (answer : Option A → Option B) (p : Polls A) (deadline last k fuel : ℕ)
    → k ≤ last
    → last < k + fuel
    → deadline ≤ p.now last
    → (o : Option B) × (poll answer p deadline k fuel ≡ some o)
unfolding poll
poll_total answer p deadline last k zero h h' late = absurd (omega arith)
poll_total answer p deadline last k (suc fuel) h h' late = elim (Option-cases (answer (p.read k))) [
  | inr (b, e) ↦ (some b, ground arith)
  | inl e ↦ elim (Bool-cases (leb deadline (p.now k))) [
    | inl over ↦ (none, ground arith)
    | inr going ↦
        let (o, r) =
          poll_total answer p deadline last (suc k) fuel (later going) (omega arith) late in
        (o, ground arith)
  ]
]
  where
    later : leb deadline (p.now k) ≡ false → suc k ≤ last
    later going =
        below k last h (λ same. refute going (subst (λ j. deadline ≤ p.now j) (sym same) late))

-- An answer is the first one, and every round before it came ahead of the deadline.
pub poll_first :
    {A B : Type 0} (answer : Option A → Option B) (p : Polls A) (deadline k fuel : ℕ) (b : B)
    → poll answer p deadline k fuel ≡ some (some b)
    → (j : ℕ) × (answer (p.read j) ≡ some b)
      × ((i : ℕ) → k ≤ i → i < j → (answer (p.read i) ≡ none) × (p.now i < deadline))
unfolding poll
poll_first answer p deadline k zero b e = cc
poll_first answer p deadline k (suc fuel) b e = elim (Option-cases (answer (p.read k))) [
  | inr (c, found) ↦ (k, ground arith, λ i low high. absurd (omega arith))
  | inl nothing ↦
      let (j, at, before) = poll_first answer p deadline (suc k) fuel b (ground arith) in
      (
        j,
        at,
        λ i low high. elim (ℕ_discrete k i) [
          | yes same ↦
              subst (λ m. (answer (p.read m) ≡ none) × (p.now m < deadline)) same
                (nothing, ground arith)
          | no differs ↦ before i (below k i low differs) high
        ],
      )
]

-- A round whose clock stands ahead of a deadline that a later round has passed is not that round.
pub still_early :
    {A : Type 0} (p : Polls A) (deadline last k : ℕ)
    → deadline ≤ p.now last
    → k ≤ last
    → leb deadline (p.now k) ≡ false
    → suc k ≤ last
still_early p deadline last k late h going =
    below k last h (λ same. refute going (subst (λ j. deadline ≤ p.now j) (sym same) late))
