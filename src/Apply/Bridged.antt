-- ===== src/Apply/Bridged.antt =====
-- Where `current` leads when a release of config_apply.py both adds and drops applications.
use guard_proxy.Prelude.{
  List, String, Bool, true, false, ◌≡◌, refl, Option, none, some, arith, is_some, lookup, Dict,
  lookup-put_ne, put, if◌then◌else◌, lookup-without, exists, str_eq, eq_iff, if-intro, option-intro,
  sym, ap, ◌∙◌, subst, Bool-cases, inl, inr,
}
use Prim.Native.String.{len}
use text.Mathlib.TextPositions.{len-append}
use guard_proxy.Apply.Disk.{
  Link, absent, directory, symlink, Runtime, World, Release, release, resolve_current, resolve_link,
}
use guard_proxy.Apply.Haproxy.{validate_haproxy}
use guard_proxy.Apply.Release.{rmtree, removed, write_bridge, write_candidate}
use guard_proxy.Apply.Attempt.{Attempt, haproxy_cfg_at, release_at, swapped_dir}
use guard_proxy.Apply.Run.{
  bridge_name, needs_bridge, activate, bridge_stage, switch, plan, validate_stage, write_stage,
}
use guard_proxy.Apply.Ends.{
  Ends, lookup-removed, target_of, IsKept, is_directory, IsBridge, IsUnderWay, IsKept-ne,
  exists-without, swap-current,
}
use guard_proxy.Apply.Written.{IsFresh, IsKept-resolve, write_candidate-Written}
use guard_proxy.Apply.Restore.{after_swap-Ends}

pub bridge_name-ne : (id : String) → str_eq (bridge_name id) id ≡ false
bridge_name-ne id = elim (Bool-cases (str_eq (bridge_name id) id)) [
  | inr differs ↦ differs
  | inl same ↦
      absurd (omega (arith, ap len ((eq_iff (bridge_name id) id).0 same), len-append id "-bridge"))
]

-- Removing another release's directory leaves the link's target alone.
both_ways : (b : Bool) → b ≡ true → b ≡ false → ⊥
both_ways true h k = cc
both_ways false h k = cc

-- A release that is not there is not there after another removal, or its own.
removed-gone :
    (left : Option Release) (name n : String) (releases : Dict Release)
    → is_some (lookup n releases) ≡ false
    → is_some (lookup n (removed left name releases)) ≡ false
unfolding removed exists
removed-gone none name n releases h = ground (arith, lookup-without name n releases, h)
removed-gone (some left) name n releases h =
    if-intro (λ d. is_some (lookup n d) ≡ false) (exists name releases) (put name left releases)
      releases
      (λ there. elim (Bool-cases (str_eq name n)) [
        | inl same ↦ absurd (
            both_ways (is_some (lookup n releases))
              (subst (λ k. is_some (lookup k releases) ≡ true) ((eq_iff name n).0 same) there) h)
        | inr differs ↦ ap is_some (lookup-put_ne name n left releases differs) ∙ h
      ])
      (λ _. h)

gone_of : (b : Bool) (n : String) → (if b then some (release n) else none) ≡ none → b ≡ false
gone_of true n h = cc
gone_of false n h = refl

pub resolve-without :
    (left : Option Release) (name : String) (p : Option String) (l : Link) (releases : Dict Release)
    → ((old : String) → p ≡ some old → str_eq name old ≡ false)
    → resolve_link l releases ≡ target_of p
    → resolve_link l (removed left name releases) ≡ target_of p
unfolding resolve_link
resolve-without left name none absent releases differs h = h
resolve-without left name (some old) absent releases differs h = h
resolve-without left name none (directory d) releases differs h = h
resolve-without left name (some old) (directory d) releases differs h = h
resolve-without left name none (symlink n) releases differs h =
    rw (removed-gone left name n releases (gone_of (is_some (lookup n releases)) n h)) refl
resolve-without left name (some old) (symlink n) releases differs h =
    ground (arith, lookup-removed left name n releases, differs old refl)

pub resolve-kept :
    (old : String) (l : Link) (before after : Dict Release)
    → resolve_link l before ≡ some (release old)
    → is_some (lookup old after) ≡ true
    → resolve_link l after ≡ some (release old)
unfolding resolve_link
resolve-kept old absent before after h there = h
resolve-kept old (directory d) before after h there = h
resolve-kept old (symlink n) before after h there = ground arith

pub release_at-some :
    (p : Option String) (rt : Runtime) (r : Release)
    → release_at p rt ≡ some r
    → (old : String) × (p ≡ some old)
release_at-some none rt r e = cc
release_at-some (some old) rt r e = (old, refl)

-- A bridge changes its own directory only.
pub write_bridge-lookup :
    (w : World) (bridge name : String) (candidate old : Release) (retired : List String)
    (rt : Runtime)
    → str_eq bridge name ≡ false
    → lookup name (write_bridge w bridge candidate old retired rt).0.releases
      ≡ lookup name rt.releases
unfolding write_bridge
write_bridge-lookup w bridge name candidate old retired rt ne =
    if-intro (λ (r : Runtime × Bool). lookup name r.0.releases ≡ lookup name rt.releases)
      (exists bridge rt.releases) _ _ (λ _. refl)
      (λ _.
        option-intro (λ (r : Runtime × Bool). lookup name r.0.releases ≡ lookup name rt.releases)
          (w.bridge_fault rt) _ _ (λ _. lookup-put_ne bridge name _ rt.releases ne)
          (λ partial _. lookup-put_ne bridge name partial rt.releases ne))

pub write_bridge-current :
    (w : World) (bridge : String) (candidate old : Release) (retired : List String) (rt : Runtime)
    → (write_bridge w bridge candidate old retired rt).0.current ≡ rt.current
unfolding write_bridge
write_bridge-current w bridge candidate old retired rt = ground arith

pub IsKept-same :
    (p : Option String) (candidate : String) (before after : Dict Release)
    → IsKept p candidate before
    → ((n : String) → str_eq (bridge_name candidate) n ≡ false → lookup n after ≡ lookup n before)
    → IsKept p candidate after
IsKept-same none candidate before after kept same = tt
IsKept-same (some old) candidate before after (there, ne, ne') same =
    (rw (same old ne') there, ne, ne')

module _ (w : World) where
  pub activate-Ends :
      (a : Attempt) (rt : Runtime)
      → IsUnderWay a rt
      → Ends w (target_of a.previous_target) a.correlation_id (activate w a rt)
  unfolding activate
  activate-Ends a rt (ok, there, kept, is, fresh) = rw (swap-current w (swapped_dir a) rt ok) (
      after_swap-Ends w a (record rt { current = symlink (swapped_dir a) }) refl
        (refl, there, kept, is, fresh))

module _ (w : World) (a : Attempt) where
  pub bridge_stage-Ends :
      (name : String) (candidate old : Release) (rt : Runtime)
      → a.previous_target ≡ some name
      → IsUnderWay a rt
      → resolve_current rt ≡ target_of a.previous_target
      → Ends w (target_of a.previous_target) a.correlation_id (bridge_stage w a candidate old rt)
  unfolding bridge_stage
  bridge_stage-Ends name candidate old rt e (ok, there, kept, is, fresh) leads =
      let bridge = bridge_name a.correlation_id in
      let written = write_bridge w bridge candidate old a.retired_apps rt in
      let same = λ (n : String). write_bridge-lookup w bridge n candidate old a.retired_apps rt in
      let current = write_bridge-current w bridge candidate old a.retired_apps rt in
      if-intro (λ r. Ends w (target_of a.previous_target) a.correlation_id r) written.1 _ _
        (λ _.
          activate-Ends w (record a { bridge_dir = some bridge }) written.0
            (
              rw current ok,
              rw (same a.correlation_id fresh) there,
              IsKept-same a.previous_target a.correlation_id rt.releases written.0.releases kept
                  same,
              refl,
              fresh,
            ))
        (λ _. record {
          ends =
              let (there', ne, ne') = subst (λ p. IsKept p a.correlation_id rt.releases) e kept in
              unfold resolve_current rmtree in
              rw current (
                resolve-kept name rt.current rt.releases _ (leads ∙ ap target_of e) (
                  exists-without _ bridge name _ ne'
                    (exists-without _ a.correlation_id name _ ne (rw (same name ne') there')))
                ∙ ap target_of (sym e));
        })

  pub switch-Ends :
      (rt : Runtime)
      → IsUnderWay a rt
      → resolve_current rt ≡ target_of a.previous_target
      → Ends w (target_of a.previous_target) a.correlation_id (switch w a rt)
  unfolding switch
  switch-Ends rt h leads =
      option-intro (λ r. Ends w (target_of a.previous_target) a.correlation_id r)
        (release_at a.previous_target rt) _ _ (λ _. activate-Ends w a rt h)
        (λ old found.
          option-intro (λ r. Ends w (target_of a.previous_target) a.correlation_id r)
            (lookup a.correlation_id rt.releases) _ _ (λ _. activate-Ends w a rt h)
            (λ candidate _.
              if-intro (λ r. Ends w (target_of a.previous_target) a.correlation_id r)
                (needs_bridge a) _ _
                (λ _.
                  let (name, is) = release_at-some a.previous_target rt old found in
                  bridge_stage-Ends name candidate old rt is h leads)
                (λ _. activate-Ends w a rt h)))

module _ (w : World) (a : Attempt) where
  pub validate_stage-Ends :
      (rt : Runtime)
      → IsUnderWay a rt
      → resolve_current rt ≡ target_of a.previous_target
      → Ends w (target_of a.previous_target) a.correlation_id (validate_stage w a rt)
  unfolding validate_stage validate_haproxy
  validate_stage-Ends rt h leads =
      let checked = validate_haproxy w (haproxy_cfg_at a.correlation_id rt) rt in
      if-intro (λ r. Ends w (target_of a.previous_target) a.correlation_id r) checked.1.ok _ _
        (λ _.
          unfold plan resolve_current in
          switch-Ends w (plan a checked.1.output checked.0) checked.0 h leads)
        (λ _. record {
          ends =
              unfold resolve_current rmtree in
              resolve-without _ a.correlation_id a.previous_target rt.current rt.releases
                (λ old e. (IsKept-ne a.previous_target a.correlation_id rt.releases h.2 old e).0)
                leads;
        })

  pub write_stage-Ends :
      (rt : Runtime)
      → a.bridge_dir ≡ none
      → is_directory rt.current ≡ false
      → IsFresh a.correlation_id rt.current
      → resolve_current rt ≡ target_of a.previous_target
      → Ends w (target_of a.previous_target) a.correlation_id (write_stage w a rt)
  unfolding write_stage resolve_current
  write_stage-Ends rt none_yet ok fresh leads =
      let written = write_candidate w a.correlation_id a.generated rt in
      let facts = write_candidate-Written w a.correlation_id a.generated rt fresh in
      let fresh' = subst (IsFresh a.correlation_id) (sym facts.current) fresh in
      let leads' = facts.target ∙ leads in
      if-intro (λ r. Ends w (target_of a.previous_target) a.correlation_id r) written.1 _ _
        (λ ok'.
          validate_stage-Ends written.0
            (
              rw facts.current ok,
              facts.there ok',
              IsKept-resolve a.previous_target a.correlation_id written.0.current written.0.releases
                  fresh' leads',
              subst (IsBridge a.correlation_id) (sym none_yet) tt,
              bridge_name-ne a.correlation_id,
            )
            leads')
        (λ _. record { ends = leads' })
