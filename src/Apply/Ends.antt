-- ===== src/Apply/Ends.antt =====
-- Where `current` of config_apply.py leads: the outcome predicate, and the file operations' effect.
use guard_proxy.Prelude.{
  String, Bool, true, false, ◌≡◌, refl, ◌⊎◌, Option, none, some, arith, is_some, lookup, Dict,
  lookup-without_ne, lookup-put_ne, exists, put, if-intro, str_eq, ap, ◌∙◌,
}
use guard_proxy.Apply.Disk.{
  Link, absent, directory, symlink, Runtime, World, Release, Target, release, resolve_current,
}
use guard_proxy.Apply.Release.{rmtree, removed, swap_current_link}
use guard_proxy.Apply.Attempt.{
  ApplyStatus, success, rollback_failed, write_failed, state_invalid, validation_failed,
  reload_failed, coraza_reload_failed, reload_failed_rolled_back, ApplyResult, Attempt,
  rmtree_bridge,
}
use guard_proxy.Apply.Run.{bridge_name}
use guard_proxy.Apply.Rollback.{put_back}

-- The target of `current` at the end, by the result's status: the candidate after a success, the
-- target of before after every failure but a failed rollback, and one of the two after that. When a
-- first reload fails and the `unlink` of `current` too, it may still lead to the candidate.
abbrev pub EndsAt : World → Option Target → String → Runtime → ApplyStatus → Type 0
EndsAt w before candidate rt success = resolve_current rt ≡ some (release candidate)
EndsAt w before candidate rt rollback_failed =
    (resolve_current rt ≡ some (release candidate)) ⊎ (resolve_current rt ≡ before)
EndsAt w before candidate rt write_failed = resolve_current rt ≡ before
EndsAt w before candidate rt state_invalid = resolve_current rt ≡ before
EndsAt w before candidate rt validation_failed = resolve_current rt ≡ before
EndsAt w before candidate rt reload_failed =
    (resolve_current rt ≡ before)
    ⊎ ((before ≡ none)
        × (resolve_current rt ≡ some (release candidate))
        × ((at : Runtime) × (w.unlink_fault at ≡ true)))
EndsAt w before candidate rt coraza_reload_failed = resolve_current rt ≡ before
EndsAt w before candidate rt reload_failed_rolled_back = resolve_current rt ≡ before

pub record Ends (w : World) (before : Option Target) (candidate : String)
    (r : Runtime × ApplyResult) : Type 0 where
  pub ends : EndsAt w before candidate r.0 r.1.status

abbrev pub target_of : Option String → Option Target
target_of none = none
target_of (some name) = some (release name)

-- The previous release is there, and is neither the candidate nor its bridge.
abbrev pub IsKept : Option String → String → Dict Release → Type 0
IsKept none candidate releases = Unit
IsKept (some old) candidate releases =
    (is_some (lookup old releases) ≡ true)
    × (str_eq candidate old ≡ false)
    × (str_eq (bridge_name candidate) old ≡ false)

abbrev pub is_directory : Link → Bool
is_directory absent = false
is_directory (directory d) = true
is_directory (symlink name) = false

abbrev pub IsBridge : String → Option String → Type 0
IsBridge candidate none = Unit
IsBridge candidate (some bridge) = bridge ≡ bridge_name candidate

-- After the swap back to the candidate: its directory is there, and so is the previous release.
abbrev pub IsOnCandidate : Attempt → Runtime → Type 0
IsOnCandidate a rt =
    (rt.current ≡ symlink a.correlation_id)
    × (is_some (lookup a.correlation_id rt.releases) ≡ true)
    × IsKept a.previous_target a.correlation_id rt.releases

-- While the link still leads elsewhere, or to the bridge.
abbrev pub IsUnderWay : Attempt → Runtime → Type 0
IsUnderWay a rt =
    (is_directory rt.current ≡ false)
    × (is_some (lookup a.correlation_id rt.releases) ≡ true)
    × IsKept a.previous_target a.correlation_id rt.releases
    × IsBridge a.correlation_id a.bridge_dir
    × (str_eq (bridge_name a.correlation_id) a.correlation_id ≡ false)

-- What is left of one release changes no other.
pub lookup-removed :
    (left : Option Release) (name other : String) (releases : Dict Release)
    → str_eq name other ≡ false
    → lookup other (removed left name releases) ≡ lookup other releases
unfolding removed
lookup-removed none name other releases ne = lookup-without_ne name other releases ne
lookup-removed (some left) name other releases ne =
    if-intro (λ d. lookup other d ≡ lookup other releases) (exists name releases)
      (put name left releases) releases (λ _. lookup-put_ne name other left releases ne) (λ _. refl)

abbrev pub Leads : Option String → Runtime → Type 0
Leads none rt = rt.current ≡ absent
Leads (some old) rt = (rt.current ≡ symlink old) × (is_some (lookup old rt.releases) ≡ true)

pub resolve-Leads :
    (p : Option String) (rt : Runtime) → Leads p rt → resolve_current rt ≡ target_of p
unfolding resolve_current
resolve-Leads none rt h = ground arith
resolve-Leads (some old) rt h = ground arith

pub rmtree-Leads :
    (w : World) (name : String) (p : Option String) (rt : Runtime)
    → ((old : String) → p ≡ some old → str_eq name old ≡ false)
    → Leads p rt
    → Leads p (rmtree w name rt)
unfolding rmtree
rmtree-Leads w name none rt differs h = h
rmtree-Leads w name (some old) rt differs (at, there) = (
  at,
  ap is_some (lookup-removed (w.rmtree_left rt name) name old rt.releases (differs old refl))
      ∙ there,
)

pub put_back-Leads :
    (w : World) (p : Option String) (candidate : String) (rt : Runtime)
    → is_directory rt.current ≡ false
    → IsKept p candidate rt.releases
    → Leads p (put_back p w rt)
unfolding put_back swap_current_link
put_back-Leads w none candidate rt h kept = refl
put_back-Leads w (some old) candidate rt h kept = ground arith

pub IsKept-ne :
    (p : Option String) (candidate : String) (releases : Dict Release)
    → IsKept p candidate releases
    → (old : String) → p ≡ some old
    → (str_eq candidate old ≡ false) × (str_eq (bridge_name candidate) old ≡ false)
IsKept-ne none candidate releases kept old e = cc
IsKept-ne (some other) candidate releases kept old e = ground arith

pub rmtree_bridge-Leads :
    (w : World) (bridge p : Option String) (candidate : String) (rt : Runtime)
    → IsBridge candidate bridge
    → ((old : String) → p ≡ some old → str_eq (bridge_name candidate) old ≡ false)
    → Leads p rt
    → Leads p (rmtree_bridge w bridge rt)
rmtree_bridge-Leads w none p candidate rt is differs h = h
rmtree_bridge-Leads w (some bridge) p candidate rt is differs h =
    rmtree-Leads w bridge p rt (λ old e. rw is (differs old e)) h

pub IsKept-without :
    (left : Option Release) (name candidate : String) (p : Option String) (releases : Dict Release)
    → ((old : String) → p ≡ some old → str_eq name old ≡ false)
    → IsKept p candidate releases
    → IsKept p candidate (removed left name releases)
IsKept-without left name candidate none releases differs kept = tt
IsKept-without left name candidate (some old) releases differs (there, ne, ne') =
    (ap is_some (lookup-removed left name old releases (differs old refl)) ∙ there, ne, ne')

-- The release of another name is still there.
pub exists-without :
    (left : Option Release) (name other : String) (releases : Dict Release)
    → str_eq name other ≡ false
    → is_some (lookup other releases) ≡ true
    → is_some (lookup other (removed left name releases)) ≡ true
exists-without left name other releases ne h =
    ap is_some (lookup-removed left name other releases ne) ∙ h

pub swap-current :
    (w : World) (target : String) (rt : Runtime)
    → is_directory rt.current ≡ false
    → (swap_current_link w target rt).0 ≡ record rt { current = symlink target }
unfolding swap_current_link
swap-current w target rt h = ground arith
