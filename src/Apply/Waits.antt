-- ===== src/Apply/Waits.antt =====
-- The waits of config_apply.py and coraza_probe.py end, and what their answers mean.
use guard_proxy.Prelude.{
  ℕ, zero, suc, ◌+◌, ◌*◌, ◌/◌, ◌≤◌, ◌<◌, ◌≡◌, refl, String, Bool, true, false, Option, none, some,
  List, [], ◌∷◌, arith, leb, codes, text_eq, Bool-cases, Option-cases, inl, inr, ◌⊎◌, subst,
  is_empty, difference, contains, All, keep, not, eq_refl, insert_by, text_leb, ◌||◌, sort_by,
}
use guard_proxy.Apply.Disk.{Text, CommandResult, Polls, World}
use guard_proxy.Apply.Wait.{
  poll, rounds, IsClock, IsClock-elapsed, poll_total, poll_first, still_early,
}
use guard_proxy.Apply.Coraza.{
  status_answer, status_result, status_interval, status_wait, parse_coraza_reload_status,
  served_loop, wait_until_served, attempt,
}

-- The round after the last that starts before a deadline.
late_enough :
    (interval timeout started now : ℕ)
    → started + (timeout / interval + 1) * interval ≤ now
    → timeout < (timeout / interval + 1) * interval
    → started + timeout ≤ now
late_enough interval timeout started now h k = omega arith

poll_ends :
    {A B : Type 0} (answer : Option A → Option B) (interval timeout : ℕ) (p : Polls A)
    → IsClock interval p
    → timeout < (timeout / interval + 1) * interval
    → (o : Option B) × (poll answer p (p.started + timeout) 0 (rounds interval timeout) ≡ some o)
poll_ends answer interval timeout p clock enough =
    poll_total answer p (p.started + timeout) (timeout / interval + 1) 0 (rounds interval timeout)
      (omega arith) (omega arith)
      (late_enough interval timeout p.started _
        (IsClock-elapsed interval p clock (timeout / interval + 1)) enough)

-- The wait for Coraza's status returns: every round sleeps for 200 milliseconds at least.
pub status_wait-ends :
    (w : World) (p : Polls Text) (release : Text)
    → IsClock status_interval p
    → (o : Option CommandResult) × (status_wait w p release ≡ some o)
unfolding status_wait
status_wait-ends w p release clock =
    poll_ends (status_answer release) status_interval w.coraza_reload_timeout p clock (omega arith)

-- A status text that names the release and carries this verdict.
abbrev pub Reports : Text → Bool → Text → Type 0
Reports release ok text =
    (named : Text) × (result : Text) × (detail : Text) × (parse_coraza_reload_status text
      ≡ some (named, result, detail))
    × (text_eq named release ≡ true)
    × (text_eq result (codes "ok") ≡ ok)

status_result-eq-some :
    (release named result detail : Text) (r : CommandResult)
    → status_result release (named, result, detail) ≡ some r
    → (text_eq named release ≡ true) × (text_eq result (codes "ok") ≡ r.ok)
unfolding status_result
status_result-eq-some release named result detail r e = ground arith

status_answer-Reports :
    (release : Text) (o : Option Text) (r : CommandResult)
    → status_answer release o ≡ some r
    → (text : Text) × (o ≡ some text) × Reports release r.ok text
unfolding status_answer
status_answer-Reports release none r e = cc
status_answer-Reports release (some text) r e =
    elim (Option-cases (parse_coraza_reload_status text)) [
      | inl nothing ↦ absurd (ground arith)
      | inr ((named, result, detail), parsed) ↦
          let (same, ok) = status_result-eq-some release named result detail r (ground arith) in
          (text, refl, (named, result, detail, parsed, same, ok))
    ]

-- An answer of the wait for Coraza is a status that the file held in some round, for this very
-- release and with this verdict; in the rounds before, the clock stood ahead of the deadline and
-- the file was missing, torn or about another release.
pub status_wait-Reports :
    (w : World) (p : Polls Text) (release : Text) (r : CommandResult)
    → status_wait w p release ≡ some (some r)
    → (j : ℕ) × ((text : Text) × (p.read j ≡ some text) × Reports release r.ok text)
      × ((i : ℕ)
          → i < j
          → (status_answer release (p.read i) ≡ none)
            × (p.now i < p.started + w.coraza_reload_timeout))
unfolding status_wait
status_wait-Reports w p release r e =
    let (j, at, before) =
      poll_first (status_answer release) p (p.started + w.coraza_reload_timeout) 0
        (rounds status_interval w.coraza_reload_timeout) r e in
    (j, status_answer-Reports release (p.read j) r at, λ i high. before i (omega arith) high)

||-eq-false : (a b : Bool) → (a || b) ≡ false → (a ≡ false) × (b ≡ false)
||-eq-false a b h = ground arith

module _ (p : Polls (List String)) (deadline last : ℕ) (late : deadline ≤ p.now last) where
  served_loop-ends :
      (k fuel : ℕ) (names : List String)
      → k ≤ last
      → last < k + fuel
      → (o : List String) × (served_loop p deadline k fuel names ≡ some o)
  unfolding served_loop
  served_loop-ends k fuel [] h h' = ([], refl)
  served_loop-ends k zero (n ∷ ns) h h' = absurd (omega arith)
  served_loop-ends k (suc fuel) (n ∷ ns) h h' =
      let pending = difference (n ∷ ns) (attempt (p.read k)) in
      elim (Bool-cases (is_empty pending || leb deadline (p.now k))) [
        | inl over ↦ (pending, ground arith)
        | inr going ↦
            let (o, r) =
              served_loop-ends (suc k) fuel pending
                (still_early p deadline last k late h
                  (||-eq-false (is_empty pending) (leb deadline (p.now k)) going).1)
                (omega arith) in
            (o, ground arith)
      ]

keep-true :
    {A : Type 0} (q : A → Bool) (x : A) (xs : List A) → q x ≡ true → keep q (x ∷ xs) ≡ x ∷ keep q xs
keep-true q x xs h = ground arith

keep-false :
    {A : Type 0} (q : A → Bool) (x : A) (xs : List A) → q x ≡ false → keep q (x ∷ xs) ≡ keep q xs
keep-false q x xs h = ground arith

All-keep :
    {A : Type 0} (P : A → Type 0) (q : A → Bool) (xs : List A)
    → ((x : A) → q x ≡ false → P x)
    → All P (keep q xs)
    → All P xs
All-keep P q [] dropped h = tt
All-keep P q (x ∷ xs) dropped h = elim (Bool-cases (q x)) [
  | inl kept ↦
      (let h' = subst (All P) (keep-true q x xs kept) h in (h'.0, All-keep P q xs dropped h'.1))
  | inr gone ↦ (dropped x gone, All-keep P q xs dropped (subst (All P) (keep-false q x xs gone) h))
]

All-contains :
    (xs ys : List String)
    → ((n : String) → contains xs n ≡ true → contains ys n ≡ true)
    → All (λ n. contains ys n ≡ true) xs
All-contains [] ys f = tt
All-contains (x ∷ xs) ys f =
    (f x (ground (arith, eq_refl x)), All-contains xs ys (λ n h. f n (ground arith)))

All-map :
    {A : Type 0} (P Q : A → Type 0) (xs : List A) → ((x : A) → P x → Q x) → All P xs → All Q xs
All-map P Q [] f h = tt
All-map P Q (x ∷ xs) f (p, h) = (f x p, All-map P Q xs f h)

-- A name that the agent answered for in some round.
abbrev pub Served : Polls (List String) → String → Type 0
Served p name = (j : ℕ) × (contains (attempt (p.read j)) name ≡ true)

served_loop-Served :
    (p : Polls (List String)) (deadline k fuel : ℕ) (names missing : List String)
    → served_loop p deadline k fuel names ≡ some missing
    → All (λ n. Served p n ⊎ (contains missing n ≡ true)) names
unfolding served_loop
served_loop-Served p deadline k fuel [] missing e = tt
served_loop-Served p deadline k zero (n ∷ ns) missing e = cc
served_loop-Served p deadline k (suc fuel) (n ∷ ns) missing e =
    let pending = difference (n ∷ ns) (attempt (p.read k)) in
    elim (Bool-cases (is_empty pending || leb deadline (p.now k))) [
      | inl over ↦
          let same : pending ≡ missing = ground arith in
          All-keep (λ m. Served p m ⊎ (contains missing m ≡ true))
            (λ m. not (contains (attempt (p.read k)) m)) (n ∷ ns) (λ m gone. inl (k, ground arith))
            (All-map (λ m. contains missing m ≡ true)
              (λ m. Served p m ⊎ (contains missing m ≡ true)) pending (λ m h. inr h)
              (All-contains pending missing (λ m h. subst (λ l. contains l m ≡ true) same h)))
      | inr going ↦
          All-keep (λ m. Served p m ⊎ (contains missing m ≡ true))
            (λ m. not (contains (attempt (p.read k)) m)) (n ∷ ns) (λ m gone. inl (k, ground arith))
            (served_loop-Served p deadline (suc k) fuel pending missing (ground arith))
    ]

All-insert_by :
    (P : String → Type 0) (a : String) (bs : List String)
    → All P (insert_by (λ (n : String). n) a bs)
    → P a × All P bs
All-insert_by P a [] h = h
All-insert_by P a (b ∷ bs) h = elim (Bool-cases (text_leb (codes a) (codes b))) [
  | inl first ↦ rw first at h
  | inr later ↦
      let h' = rw later at h in let (pa, rest) = All-insert_by P a bs h'.1 in (pa, (h'.0, rest))
]

All-sort_by :
    (P : String → Type 0) (names : List String)
    → All P (sort_by (λ (n : String). n) names)
    → All P names
All-sort_by P [] h = tt
All-sort_by P (n ∷ ns) h =
    let (pn, rest) = All-insert_by P n (sort_by (λ (m : String). m) ns) h in
    (pn, All-sort_by P ns rest)

-- `wait_until_served` returns, with rounds of 200 milliseconds at least; and of the names that it was
-- given each is among those it returns as missing, or the agent answered for it in some round.
pub wait_until_served-Served :
    (p : Polls (List String)) (timeout : ℕ) (names : List String)
    → IsClock status_interval p
    → (missing : List String) × (wait_until_served p timeout names ≡ some missing)
      × All (λ n. Served p n ⊎ (contains missing n ≡ true)) names
unfolding wait_until_served
wait_until_served-Served p timeout names clock =
    let last = timeout / status_interval + 1 in
    let late =
      late_enough status_interval timeout p.started (p.now last)
        (IsClock-elapsed status_interval p clock last) (omega arith) in
    let (missing, e) =
      served_loop-ends p (p.started + timeout) last late 0 (rounds status_interval timeout)
        (sort_by (λ (n : String). n) names) (omega arith) (omega arith) in
    (
      missing,
      e,
      All-sort_by (λ n. Served p n ⊎ (contains missing n ≡ true)) names
          (served_loop-Served p (p.started + timeout) 0 (rounds status_interval timeout) _ missing
            e),
    )
