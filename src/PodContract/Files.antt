-- ===== src/PodContract/Files.antt =====
-- What the proxy reads in restore-complete is what the agent wrote.
use snapshot.Prelude.{
  ℕ, ◌<◌, ◌≤◌, ◌≡◌, refl, Str, true, false, some, [], ◌∷◌, ◌++◌, ◌==◌, ltb, str_eq, is_space,
  is_digit, trim_left, trim_right, trim_space, cut, itoa, atoi_digits, atoi_digits-itoa, max_int64,
  IsDigit, digit_not_space, itoa-IsDigit, All, arith,
}
use snapshot.PodContract.Types.{ok}
use snapshot.PodContract.Protocol.{
  format_restore_complete, parse_restore_complete, parse_lines, parse_line, lines, positive_atoi,
  require_pid,
}

-- A visible character.
abbrev IsInk : ℕ → Type 0
IsInk c = is_space c ≡ false

ink_not_newline : (c : ℕ) → IsInk c → (c == 10) ≡ false
unfolding is_space
ink_not_newline c h = ground arith

digits-IsInk : (ds : Str) → All IsDigit ds → All IsInk ds
digits-IsInk [] h = tt
digits-IsInk (d ∷ ds) h = (digit_not_space d h.0, digits-IsInk ds h.1)

-- A line with its newline is one line, and trims to itself.
lines-one : (s : Str) → All IsInk s → lines (s ++ 10 ∷ []) ≡ (s ++ 10 ∷ []) ∷ []
unfolding lines
lines-one [] h = refl
lines-one (c ∷ s) h = rw (lines-one s h.1, ink_not_newline c h.0) refl

trim_right-newline : (s : Str) → All IsInk s → trim_right (s ++ 10 ∷ []) ≡ s
unfolding trim_right is_space
trim_right-newline [] h = refl
trim_right-newline (c ∷ s) h = rw (trim_right-newline s h.1, h.0) refl

trim_space-line : (c : ℕ) (s : Str) → All IsInk (c ∷ s) → trim_space ((c ∷ s) ++ 10 ∷ []) ≡ c ∷ s
unfolding trim_space trim_left
trim_space-line c s h = rw h.0 (trim_right-newline (c ∷ s) h)

none_ne_some : {n : ℕ} → atoi_digits [] ≡ some n → ⊥
unfolding atoi_digits
none_ne_some e = cc

digit_not_minus : (d : ℕ) → IsDigit d → (d == b'-') ≡ false
unfolding is_digit
digit_not_minus d h = ground arith

digit_not_plus : (d : ℕ) → IsDigit d → (d == b'+') ≡ false
unfolding is_digit
digit_not_plus d h = ground arith

below_test : {a b : ℕ} → a < b → ltb a b ≡ true
below_test h = ground arith

positive_atoi-digits :
    (ds : Str) (n : ℕ)
    → All IsDigit ds
    → atoi_digits ds ≡ some n
    → 0 < n
    → positive_atoi ds ≡ some n
unfolding positive_atoi
positive_atoi-digits [] n h e p = elim (none_ne_some e) [ ]
positive_atoi-digits (d ∷ ds) n h e p =
    rw (digit_not_minus d h.0, digit_not_plus d h.0, e, below_test p) refl

require_pid-positive : (pid : ℕ) → 0 < pid → require_pid pid ≡ ok pid
require_pid-positive pid p = rw (nonzero p) refl
  where
    nonzero : 0 < pid → (pid == 0) ≡ false
    nonzero h = ground arith

-- The line that the agent writes, without its newline.
abbrev pid_line : ℕ → Str
pid_line pid = b'p' ∷ b'i' ∷ b'd' ∷ b'=' ∷ itoa pid

pid_line-IsInk : (pid : ℕ) → All IsInk (pid_line pid)
unfolding is_space
pid_line-IsInk pid = (refl, (refl, (refl, (refl, digits-IsInk (itoa pid) (itoa-IsDigit pid)))))

parse_line-pid_line : (pid : ℕ) → 0 < pid → pid ≤ max_int64 → parse_line 0 (pid_line pid) ≡ ok pid
unfolding parse_line cut str_eq
parse_line-pid_line pid p h =
    rw (positive_atoi-digits (itoa pid) pid (itoa-IsDigit pid) (atoi_digits-itoa pid h) p) refl

-- For every positive PID that an int holds, the proxy reads back the PID that the agent wrote.
pub parse_restore_complete-format_restore_complete :
    (pid : ℕ)
    → 0 < pid
    → pid ≤ max_int64
    → parse_restore_complete (format_restore_complete pid) ≡ ok pid
unfolding parse_restore_complete format_restore_complete parse_lines
parse_restore_complete-format_restore_complete pid p h =
    rw
      (
        lines-one (pid_line pid) (pid_line-IsInk pid),
        trim_space-line b'p' (b'i' ∷ b'd' ∷ b'=' ∷ itoa pid) (pid_line-IsInk pid),
        parse_line-pid_line pid p h,
      )
      (require_pid-positive pid p)
