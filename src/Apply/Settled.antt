-- ===== src/Apply/Settled.antt =====
-- Where `current` leads at the end of an apply of config_apply.py.
use guard_proxy.Prelude.{String, false, ◌≡◌, refl, Option, none, some, arith, Dict, sym, ◌∙◌, subst}
use guard_proxy.Apply.Disk.{
  GeneratedConfig, Link, absent, directory, symlink, Runtime, World, Release, resolve_current,
  resolve_link, Read, invalid, previous, read_link, read_current_symlink,
}
use guard_proxy.Apply.Release.{ensure_geoip_map_file, sweep_orphaned_temp_links}
use guard_proxy.Apply.Run.{write_stage, start, apply}
use guard_proxy.Apply.Ends.{Ends, EndsAt, target_of, is_directory}
use guard_proxy.Apply.Written.{IsFresh, ensure-current}
use guard_proxy.Apply.Bridged.{write_stage-Ends}

pub read-intro :
    {A : Type 0} (P : A → Type 0) (r : Read) (i : A) (s : Option String → A)
    → (r ≡ invalid → P i)
    → ((p : Option String) → r ≡ previous p → P (s p))
    → P (elim r [ invalid ↦ i | previous p ↦ s p ])
read-intro P invalid i s refused read = refused refl
read-intro P (previous p) i s refused read = read p refl

pub read-previous :
    (p : Option String) (l : Link) (releases : Dict Release)
    → read_link l releases ≡ previous p
    → (resolve_link l releases ≡ target_of p) × (is_directory l ≡ false)
unfolding read_link resolve_link
read-previous p absent releases e = ground arith
read-previous p (directory d) releases e = cc
read-previous none (symlink n) releases e = ground arith
read-previous (some old) (symlink n) releases e = ground arith

-- Whatever the processes and the disk answer, when an apply returns and succeeds, `current` leads
-- to the new release's directory; when it fails, `current` leads where it led before; and after a
-- failed rollback, to one of the two. Only when there was no release before, the first reload fails
-- and so does the `unlink` of `current`, may it still lead to the new release. The new release's
-- and its bridge's names are not the name that `current` is linked to.
pub apply-EndsAt :
    (w : World) (g : GeneratedConfig) (rt : Runtime)
    → IsFresh (w.new_id (ensure_geoip_map_file w rt)) rt.current
    → EndsAt w
        (resolve_current rt)
        (w.new_id (ensure_geoip_map_file w rt))
        (apply w g rt).0
        (apply w g rt).1.status
unfolding apply
apply-EndsAt w g rt fresh =
    (read-intro (λ r. Ends w (resolve_current rt) id r) (read_current_symlink swept) _
      (λ p. write_stage w (start w g mapped p) swept) (λ _. record { ends = same }) valid).ends
  where
    mapped : Runtime
    mapped = ensure_geoip_map_file w rt

    id : String
    id = w.new_id mapped

    swept : Runtime
    swept = sweep_orphaned_temp_links mapped

    link : mapped.current ≡ rt.current
    link = (ensure-current w rt).0

    same : resolve_current swept ≡ resolve_current rt
    same =
        unfold resolve_current sweep_orphaned_temp_links in rw (link, (ensure-current w rt).1) refl

    valid :
        (p : Option String)
        → read_current_symlink swept ≡ previous p
        → Ends w (resolve_current rt) id (write_stage w (start w g mapped p) swept)
    valid p read =
        unfold read_current_symlink resolve_current sweep_orphaned_temp_links in
        (let (leads, ok) = read-previous p swept.current swept.releases read in
          subst (λ t. Ends w t id (write_stage w (start w g mapped p) swept)) (sym leads ∙ same)
            (write_stage-Ends w (start w g mapped p) swept refl ok
              (subst (IsFresh id) (sym link) fresh) leads))
