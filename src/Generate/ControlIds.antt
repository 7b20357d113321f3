-- ===== src/Generate/ControlIds.antt =====
-- The numbers of the control rules of path-scoped exclusions are each used once.
use guard_proxy.Prelude.{
  ℕ, ◌+◌, ◌≤◌, ◌<◌, ◌≢◌, Option, none, some, List, [], ◌∷◌, ◌++◌, map, All, arith, if-intro,
}
use guard_proxy.Policies.Syntax.{Text, ends_in}
use guard_proxy.Policies.Rows.{RuleExclusion, custom_rule_id_max}
use guard_proxy.Policies.Tables.{All-map, All-append}
use guard_proxy.Generate.Tuning.{
  ScopeMatcher, ExclusionContext, valid_exclusion_context, scope_matchers, control_rule_id,
  exclusion_context, to_rule_exclusion_contexts,
}

-- No number stands in the list twice.
abbrev pub AreDistinct : List ℕ → Type 0
AreDistinct [] = Unit
AreDistinct (n ∷ ns) = All (λ m. n ≢ m) ns × AreDistinct ns

append-AreDistinct :
    (l k : List ℕ)
    → AreDistinct l
    → AreDistinct k
    → All (λ n. All (λ m. n ≢ m) k) l
    → AreDistinct (l ++ k)
append-AreDistinct [] k h j apart = j
append-AreDistinct (n ∷ l) k h j apart =
    (All-append (λ m. n ≢ m) l k h.0 apart.0, append-AreDistinct l k h.1 j apart.1)

abbrev pub matcher_ids : Option (Text × ℕ) → List ℕ
matcher_ids none = []
matcher_ids (some (path, control)) =
    map (λ (m : ScopeMatcher). m.rule_id) (scope_matchers path control)

-- The numbers of all control rules of a policy's exclusions
unfoldable pub control_ids : List ExclusionContext → List ℕ
control_ids [] = []
control_ids (e ∷ rest) = matcher_ids e.scope ++ control_ids rest

-- A number of the block that the exclusion with the number `id` owns
abbrev InBlock : ℕ → ℕ → Type 0
InBlock id n = (control_rule_id id ≤ n) × (n < control_rule_id id + 3)

matchers-InBlock :
    (id : ℕ) (path : Text) → All (InBlock id) (matcher_ids (some (path, control_rule_id id)))
unfolding scope_matchers
matchers-InBlock id path =
    if-intro
      (λ (ms : List ScopeMatcher). All (InBlock id) (map (λ (m : ScopeMatcher). m.rule_id) ms))
      (ends_in b'/' path) _ _ (λ _. ((omega arith, omega arith), tt))
      (λ _. (
        (omega arith, omega arith),
        ((omega arith, omega arith), ((omega arith, omega arith), tt)),
      ))

matchers-AreDistinct : (base : ℕ) (path : Text) → AreDistinct (matcher_ids (some (path, base)))
unfolding scope_matchers
matchers-AreDistinct base path =
    if-intro (λ (ms : List ScopeMatcher). AreDistinct (map (λ (m : ScopeMatcher). m.rule_id) ms))
      (ends_in b'/' path) _ _ (λ _. (tt, tt))
      (λ _. ((omega arith, (omega arith, tt)), ((omega arith, tt), (tt, tt))))

context-InBlock : (e : RuleExclusion) → All (InBlock e.id) (matcher_ids (exclusion_context e).scope)
unfolding exclusion_context
context-InBlock e = by_scope e.scope_path
  where
    by_scope :
        (o : Option Text)
        → All (InBlock e.id) (
            matcher_ids (elim o as (λ _. Option (Text × ℕ)) [
              | none ↦ none
              | some path ↦ some (path, control_rule_id e.id)
            ]))
    by_scope none = tt
    by_scope (some path) = matchers-InBlock e.id path

context-AreDistinct : (e : RuleExclusion) → AreDistinct (matcher_ids (exclusion_context e).scope)
unfolding exclusion_context
context-AreDistinct e = by_scope e.scope_path
  where
    by_scope :
        (o : Option Text)
        → AreDistinct (
            matcher_ids (elim o as (λ _. Option (Text × ℕ)) [
              | none ↦ none
              | some path ↦ some (path, control_rule_id e.id)
            ]))
    by_scope none = tt
    by_scope (some path) = matchers-AreDistinct (control_rule_id e.id) path

blocks_apart : (i j m n : ℕ) → i ≢ j → InBlock i m → InBlock j n → m ≢ n
unfolding control_rule_id
blocks_apart i j m n apart h k = omega (arith, apart, h, k)

above_custom : (id n : ℕ) → InBlock id n → custom_rule_id_max < n
unfolding control_rule_id
above_custom id n h = omega (arith, h)

-- What the numbers of the other exclusions are not
others-apart :
    (id : ℕ) (rest : List RuleExclusion)
    → All (λ e. id ≢ e.id) rest
    → (n : ℕ) → InBlock id n
    → All (λ m. n ≢ m) (control_ids (to_rule_exclusion_contexts rest))
unfolding to_rule_exclusion_contexts control_ids
others-apart id [] apart n h = tt
others-apart id (e ∷ rest) apart n h =
    let later = others-apart id rest apart.1 n h in
    if-intro (λ es. All (λ m. n ≢ m) (control_ids es))
      (valid_exclusion_context (exclusion_context e)) _ _
      (λ _.
        All-append (λ m. n ≢ m) (matcher_ids (exclusion_context e).scope)
          (control_ids (to_rule_exclusion_contexts rest))
          (All-map (InBlock e.id) (λ m. n ≢ m) (matcher_ids (exclusion_context e).scope)
            (λ m k. blocks_apart id e.id n m apart.0 h k) (context-InBlock e))
          later)
      (λ _. later)

-- When the exclusions of a policy have different numbers, as rows of a table have, the control
-- rules that are written for them have different numbers, each above the range of the custom
-- rules.
pub control_ids-AreDistinct :
    (exclusions : List RuleExclusion)
    → AreDistinct (map (λ (e : RuleExclusion). e.id) exclusions)
    → AreDistinct (control_ids (to_rule_exclusion_contexts exclusions))
      × All (λ n. custom_rule_id_max < n) (control_ids (to_rule_exclusion_contexts exclusions))
unfolding to_rule_exclusion_contexts control_ids
control_ids-AreDistinct [] h = (tt, tt)
control_ids-AreDistinct (e ∷ rest) h =
    let (later, above) = control_ids-AreDistinct rest h.1 in
    if-intro
      (λ es. AreDistinct (control_ids es) × All (λ n. custom_rule_id_max < n) (control_ids es))
      (valid_exclusion_context (exclusion_context e)) _ _
      (λ _. (
        append-AreDistinct (matcher_ids (exclusion_context e).scope)
            (control_ids (to_rule_exclusion_contexts rest)) (context-AreDistinct e) later
            (All-map (InBlock e.id)
              (λ n. All (λ m. n ≢ m) (control_ids (to_rule_exclusion_contexts rest)))
              (matcher_ids (exclusion_context e).scope)
              (others-apart e.id rest (apart_rows e.id rest h.0)) (context-InBlock e)),
        All-append (λ n. custom_rule_id_max < n) (matcher_ids (exclusion_context e).scope)
            (control_ids (to_rule_exclusion_contexts rest))
            (All-map (InBlock e.id) (λ n. custom_rule_id_max < n)
              (matcher_ids (exclusion_context e).scope) (λ n k. above_custom e.id n k)
              (context-InBlock e))
            above,
      ))
      (λ _. (later, above))
  where
    apart_rows :
        (id : ℕ) (l : List RuleExclusion)
        → All (λ n. id ≢ n) (map (λ (e : RuleExclusion). e.id) l)
        → All (λ e. id ≢ e.id) l
    apart_rows id [] h = tt
    apart_rows id (e ∷ l) h = (h.0, apart_rows id l h.1)
