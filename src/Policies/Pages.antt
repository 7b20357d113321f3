-- ===== src/Policies/Pages.antt =====
-- The pages of a list hold each of its rows once, in order.
use guard_proxy.Prelude.{
  ℕ, zero, ◌+◌, ◌-◌, ◌*◌, ◌≤◌, ◌≡◌, refl, sym, ap, subst, ◌∙◌, Bool, Option, List, [], ◌∷◌, ◌++◌,
  take, drop, length, arith, if-intro, leb, if◌then◌else◌, suc, true, false, none, some, All, keep,
  strip, is_empty, ◌&&◌, ◌||◌, Bool-cases, inl, inr,
}
use guard_proxy.Policies.Syntax.{Text}
use guard_proxy.Policies.Rows.{Policy, Store}
use guard_proxy.Policies.Tables.{All-map}
use guard_proxy.VHosts.Tables.{keep-true, keep-false}
use guard_proxy.Policies.Reads.{insert_row, order_by, page_of, search_in, list_policies}

module _ {A : Type 0} where
  take_nil : (n : ℕ) → (λ (l : List A). take n l) [] ≡ []
  take_nil zero = refl
  take_nil (suc n) = refl

  take-plus : (m n : ℕ) (l : List A) → take (m + n) l ≡ take m l ++ take n (drop m l)
  take-plus zero n l = let e : 0 + n ≡ n = omega arith in ap (λ k. take k l) e
  take-plus (suc m) n [] = take_nil (suc m + n) ∙ sym (take_nil n)
  take-plus (suc m) n (a ∷ l) =
      let e : suc m + n ≡ suc (m + n) = omega arith in
      ap (λ k. take k (a ∷ l)) e ∙ ap (λ t. a ∷ t) (take-plus m n l)

  take_all : (n : ℕ) (l : List A) → length l ≤ n → take n l ≡ l
  take_all zero [] h = refl
  take_all zero (a ∷ l) h = absurd (omega (arith, h))
  take_all (suc n) [] h = refl
  take_all (suc n) (a ∷ l) h = ap (λ t. a ∷ t) (take_all n l (omega (arith, h)))

  -- The first pages, one after the other
  abbrev pub pages : (ℕ → List A) → ℕ → List A
  pages page zero = []
  pages page (suc n) = pages page n ++ page (suc n)

  pages-take :
      (per_page n : ℕ) (l : List A)
      → pages (λ page. page_of page per_page l) n ≡ take (n * per_page) l
  pages-take per_page zero l = let e : 0 ≡ 0 * per_page = omega arith in ap (λ k. take k l) e
  pages-take per_page (suc n) l =
      let last : suc n - 1 ≡ n = omega arith in
      let one_more : n * per_page + per_page ≡ suc n * per_page = grind arith in
      ap (λ t. t ++ page_of (suc n) per_page l) (pages-take per_page n l)
      ∙ (ap (λ k. take (n * per_page) l ++ take per_page (drop (k * per_page) l)) last
          ∙ (sym (take-plus (n * per_page) per_page l) ∙ ap (λ k. take k l) one_more))

  length-insert_row :
      (before : A → A → Bool) (a : A) (l : List A) → length (insert_row before a l) ≡ suc (length l)
  unfolding insert_row
  length-insert_row before a [] = refl
  length-insert_row before a (b ∷ l) =
      if-intro (λ t. length t ≡ suc (suc (length l))) (before a b) (a ∷ b ∷ l)
        (b ∷ insert_row before a l) (λ _. refl) (λ _. ap suc (length-insert_row before a l))

  length-order_by : (before : A → A → Bool) (l : List A) → length (order_by before l) ≡ length l
  unfolding order_by
  length-order_by before [] = refl
  length-order_by before (a ∷ l) =
      length-insert_row before a (order_by before l) ∙ ap suc (length-order_by before l)

  all_pages :
      (before : A → A → Bool) (per_page n : ℕ) (l : List A)
      → length l ≤ n * per_page
      → pages (λ page. page_of page per_page (order_by before l)) n ≡ order_by before l
  all_pages before per_page n l h =
      pages-take per_page n (order_by before l)
      ∙ take_all (n * per_page) (order_by before l)
          (subst (λ k. k ≤ n * per_page) (sym (length-order_by before l)) h)

-- The rows for which a test holds, counted
abbrev pub count : {A : Type 0} → (A → Bool) → List A → ℕ
count p [] = 0
count p (a ∷ l) = if p a then suc (count p l) else count p l

-- Each number is followed by none that is smaller.
abbrev pub IsOrdered : List Policy → Type 0
IsOrdered [] = Unit
IsOrdered (p ∷ l) = All (λ (r : Policy). p.id ≤ r.id) l × IsOrdered l

-- What a search asks of a name: nothing without a term, or with a blank one
abbrev pub asks : (Text → Text → Bool) → Option Text → Policy → Bool
asks ilike none p = true
asks ilike (some q) p = is_empty (strip q) || ilike p.name (b'%' ∷ strip q ++ b'%' ∷ [])

abbrev by_number : Policy → Policy → Bool
by_number a b = leb a.id b.id

insert_row-All :
    (P : Policy → Type 0) (p : Policy) (l : List Policy)
    → P p
    → All P l
    → All P (insert_row by_number p l)
unfolding insert_row
insert_row-All P p [] h k = (h, tt)
insert_row-All P p (r ∷ l) h k =
    if-intro (All P) (leb p.id r.id) (p ∷ r ∷ l) (r ∷ insert_row by_number p l) (λ _. (h, k))
      (λ _. (k.0, insert_row-All P p l h k.1))

le_of : (m n : ℕ) → leb m n ≡ true → m ≤ n
le_of m n h = ground arith

ge_of : (m n : ℕ) → leb m n ≡ false → n ≤ m
ge_of m n h = ground arith

insert_row-IsOrdered :
    (p : Policy) (l : List Policy) → IsOrdered l → IsOrdered (insert_row by_number p l)
unfolding insert_row
insert_row-IsOrdered p [] h = (tt, tt)
insert_row-IsOrdered p (r ∷ l) h =
    if-intro IsOrdered (leb p.id r.id) (p ∷ r ∷ l) (r ∷ insert_row by_number p l)
      (λ first. (
        (
          le_of p.id r.id first,
          All-map (λ (q : Policy). r.id ≤ q.id) (λ (q : Policy). p.id ≤ q.id) l
              (λ q later. omega (arith, le_of p.id r.id first, later)) h.0,
        ),
        h,
      ))
      (λ later. (
        insert_row-All (λ (q : Policy). r.id ≤ q.id) p l (ge_of p.id r.id later) h.0,
        insert_row-IsOrdered p l h.1,
      ))

order_by-IsOrdered : (l : List Policy) → IsOrdered (order_by by_number l)
unfolding order_by
order_by-IsOrdered [] = tt
order_by-IsOrdered (p ∷ l) = insert_row-IsOrdered p (order_by by_number l) (order_by-IsOrdered l)

swapped :
    (a b : Bool) (n : ℕ)
    → (if b then suc (if a then suc n else n) else if a then suc n else n)
      ≡ (if a then suc (if b then suc n else n) else if b then suc n else n)
swapped true true n = refl
swapped true false n = refl
swapped false true n = refl
swapped false false n = refl

count-insert_row :
    (t : Policy → Bool) (p : Policy) (l : List Policy)
    → count t (insert_row by_number p l) ≡ count t (p ∷ l)
unfolding insert_row
count-insert_row t p [] = refl
count-insert_row t p (r ∷ l) =
    if-intro (λ k. count t k ≡ count t (p ∷ r ∷ l)) (leb p.id r.id) (p ∷ r ∷ l)
      (r ∷ insert_row by_number p l) (λ _. refl)
      (λ _.
        ap (λ n. if t r then suc n else n) (count-insert_row t p l)
        ∙ swapped (t p) (t r) (count t l))

count-order_by : (t : Policy → Bool) (l : List Policy) → count t (order_by by_number l) ≡ count t l
unfolding order_by
count-order_by t [] = refl
count-order_by t (p ∷ l) =
    count-insert_row t p (order_by by_number l)
    ∙ ap (λ n. if t p then suc n else n) (count-order_by t l)

and_true : (a b : Bool) → b ≡ true → (a && b) ≡ a
and_true a b h = ground arith

and_false : (a b : Bool) → b ≡ false → (a && b) ≡ false
and_false a b h = ground arith

count-same :
    (t u : Policy → Bool) (l : List Policy) → ((p : Policy) → t p ≡ u p) → count t l ≡ count u l
count-same t u [] h = refl
count-same t u (p ∷ l) h =
    ap (λ b. if b then suc (count t l) else count t l) (h p)
    ∙ ap (λ n. if u p then suc n else n) (count-same t u l h)

count-keep :
    (t f : Policy → Bool) (l : List Policy) → count t (keep f l) ≡ count (λ p. t p && f p) l
count-keep t f [] = refl
count-keep t f (p ∷ l) =
    let rest = count (λ p. t p && f p) l in
    elim (Bool-cases (f p)) [
      | inl kept ↦
          ap (count t) (keep-true f p l kept)
          ∙ (ap (λ n. if t p then suc n else n) (count-keep t f l)
              ∙ ap (λ b. if b then suc rest else rest) (sym (and_true (t p) (f p) kept)))
      | inr left ↦
          ap (count t) (keep-false f p l left)
          ∙ (count-keep t f l
              ∙ ap (λ b. if b then suc rest else rest) (sym (and_false (t p) (f p) left)))
    ]

count-search_in :
    (ilike : Text → Text → Bool) (t : Policy → Bool) (q : Option Text) (l : List Policy)
    → count t (search_in ilike (λ (p : Policy). p.name) q l) ≡ count (λ p. t p && asks ilike q p) l
unfolding search_in
count-search_in ilike t none l =
    count-same t (λ p. t p && true) l (λ p. sym (and_true (t p) true refl))
count-search_in ilike t (some q) l =
    let found = λ (p : Policy). ilike p.name (b'%' ∷ strip q ++ b'%' ∷ []) in
    if-intro (λ k. count t k ≡ count (λ p. t p && (is_empty (strip q) || found p)) l)
      (is_empty (strip q)) l (keep found l)
      (λ blank.
        count-same t (λ p. t p && (is_empty (strip q) || found p)) l
          (λ p.
            sym (and_true (t p) (is_empty (strip q) || found p) (ap (λ b. b || found p) blank))))
      (λ asked.
        count-keep t found l
        ∙ count-same (λ p. t p && found p) (λ p. t p && (is_empty (strip q) || found p)) l
            (λ p. ap (λ b. t p && (b || found p)) (sym asked)))

-- Of policies, filtered or not, the first pages of `per_page` rows are, one after the other, rows
-- in the order of their numbers, as many of any kind as there are policies of that kind in the
-- table whose name the search asks for, when the pages have room for the total that each of them
-- reports: every such policy stands on one page, once, and no other does.
pub list_policies-pages :
    (ilike : Text → Text → Bool) (per_page n : ℕ) (q : Option Text) (s : Store) (t : Policy → Bool)
    → (list_policies ilike 1 per_page q s).1 ≤ n * per_page
    → IsOrdered (pages (λ page. (list_policies ilike page per_page q s).0) n)
      × (count t (pages (λ page. (list_policies ilike page per_page q s).0) n)
          ≡ count (λ p. t p && asks ilike q p) s.policies)
unfolding list_policies
list_policies-pages ilike per_page n q s t h =
    let rows = search_in ilike (λ (p : Policy). p.name) q s.policies in
    let whole = all_pages by_number per_page n rows h in
    (
      subst IsOrdered (sym whole) (order_by-IsOrdered rows),
      ap (count t) whole ∙ (count-order_by t rows ∙ count-search_in ilike t q s.policies),
    )
