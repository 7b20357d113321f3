-- ===== src/Shipper/Checkpoints.antt =====
-- The checkpoint of shipper.py: what is persisted is loaded again, and a file is read from inside.
use guard_proxy.Prelude.{
  ℤ, ℕ, ◌≡◌, ◌≤◌, refl, Bool, true, false, Option, none, some, List, strip, is_empty, is_some, Dict,
  lookup, exists,
}
use guard_proxy.Shipper.State.{
  Value, Parsed, dict, ShipperState, Stat, non_negative_int, string_keyed_dict, member_int,
  identity_from_state, state_of_members, state_of_text, load_state, state_body, persist_state,
  same_identity,
}

-- The identity is known in full or not at all, as `_persist_state` writes it.
unfoldable pub HasIdentity : ShipperState → Type 0
HasIdentity s = is_some s.st_ino ≡ is_some s.st_dev

state_of_body :
    (n : ℕ) (ino dev : Option ℕ)
    → is_some ino ≡ is_some dev
    → state_of_members (state_body (record { offset = n; st_ino = ino; st_dev = dev }))
      ≡ record { offset = n; st_ino = ino; st_dev = dev }
unfolding state_of_members state_body member_int identity_from_state non_negative_int lookup exists
state_of_body n none none e = refl
state_of_body n none (some dev) e = cc
state_of_body n (some ino) none e = cc
state_of_body n (some ino) (some dev) e = refl

module _ (int_of : List ℕ → Option ℤ) (loads : List ℕ → Parsed) (dumps : Dict Value → List ℕ) where
  -- What `_persist_state` writes, `_load_state` reads back, when the identity is known in full or
  -- not at all, `json.loads` reads the text that `json.dumps` wrote of the body, and that text is
  -- neither blank nor a number.
  pub persist_state-load_state :
      (s : ShipperState)
      → HasIdentity s
      → is_empty (strip (dumps (state_body s))) ≡ false
      → int_of (strip (dumps (state_body s))) ≡ none
      → loads (strip (dumps (state_body s))) ≡ dict (state_body s)
      → load_state int_of loads (persist_state dumps s) ≡ s
  unfolding load_state persist_state state_of_text string_keyed_dict HasIdentity
  persist_state-load_state s whole filled other read =
      rw (filled, other, read) (state_of_body s.offset s.st_ino s.st_dev whole)

record Inside (stat : Stat) (r : ShipperState × Bool) : Type 0 where
  offset : r.0.offset ≤ stat.st_size
  identity : same_identity r.0 stat ≡ true
