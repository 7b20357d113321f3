-- ===== src/Apply/Status.antt =====
-- The supervisor's status file, written by docker/coraza-supervisor.sh and read by config_apply.py.
use guard_proxy.Prelude.{
  ◌<◌, ◌≡◌, ◌⊎◌, refl, true, false, [], ◌∷◌, arith, All, codes, is_line_end, text_eq,
}
use guard_proxy.Apply.Disk.{Text}

-- A text with no line end that `str.splitlines` knows.
abbrev pub IsOneLine : Text → Type 0
IsOneLine = All (λ c. is_line_end c ≡ false)

-- A detail whose only line ends are those that the shell turns into spaces.
abbrev pub IsPlainDetail : Text → Type 0
IsPlainDetail = All (λ c. (is_line_end c ≡ false) ⊎ ((c ≡ 10) ⊎ (c ≡ 13)))

text_eq_refl : (a : Text) → text_eq a a ≡ true
text_eq_refl [] = refl
text_eq_refl (c ∷ cs) = ground (arith, text_eq_refl cs)

abbrev pub IsResult : Text → Type 0
IsResult result = (result ≡ codes "ok") ⊎ (result ≡ codes "error")

-- ASCII bytes
abbrev pub IsAscii : Text → Type 0
IsAscii = All (λ b. b < 128)
