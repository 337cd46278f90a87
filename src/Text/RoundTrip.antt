-- ===== src/Text/RoundTrip.antt =====
-- Numbers that `printf` has printed, as `atoi`, `atol` and `%d` read them.
use nfs_system.Base.{
  ℕ, zero, suc, ◌+◌, ◌/◌, ◌%◌, ◌^◌, ◌<◌, List, [], ◌∷◌, ◌++◌, ◌≡◌, refl, ap, arith, true, false,
  pos, to_long, some, ltb, Bool-cases, inl, inr, to_int_small, to_long_small, append_assoc, ◌∙◌,
}
use native.Mathlib.Nat.{pow-suc}
use nfs_system.Text.Words.{skip_spaces, is_space}
use nfs_system.Text.Decimal.{
  is_digit, digits, digits_step, print_nat, Digits, starts, digits-Digits,
}
use nfs_system.Text.Number.{
  scan_digits, signed, atol, atoi, scan_int, has_digits, starts_with_digit,
}

scan_last : (n : ℕ) (r : List ℕ) → scan_digits (n / 10) ((b'0' + n % 10) ∷ r) ≡ scan_digits n r
unfolding scan_digits is_digit
scan_last n r = ground arith

scan_one : (n : ℕ) (r : List ℕ) → n < 10 → scan_digits 0 ((b'0' + n) ∷ r) ≡ scan_digits n r
unfolding scan_digits is_digit
scan_one n r h = ground arith

-- Reading the digits of `n` gives `n`, and goes on with what stands behind them.
scan_digits-digits :
    (k n : ℕ) (r : List ℕ) → n < 10 ^ k → scan_digits 0 (digits k n ++ r) ≡ scan_digits n r
scan_digits-digits zero n r h = unfold digits in ap (λ m. scan_digits m r) (omega arith)
scan_digits-digits (suc k) n r h = elim (Bool-cases (ltb n 10)) [
  | inl small ↦ rw (digits_step k n, small) (scan_one n r (ground arith))
  | inr large ↦
      rw (digits_step k n, large, append_assoc (digits k (n / 10)) ((b'0' + n % 10) ∷ []) r)
        (scan_digits-digits k (n / 10) ((b'0' + n % 10) ∷ r) (omega (arith, pow-suc 10 k))
          ∙ scan_last n r)
]

abbrev pub NoDigit : List ℕ → Type 0
NoDigit [] = Unit
NoDigit (x ∷ r) = is_digit x ≡ false

scan_digits_end : (n : ℕ) (r : List ℕ) → NoDigit r → scan_digits n r ≡ n
unfolding scan_digits
scan_digits_end n [] h = refl
scan_digits_end n (x ∷ r) h = rw h

signed-digit :
    (x : ℕ) (r : List ℕ)
    → is_digit x ≡ true
    → signed (x ∷ r) ≡ to_long false (scan_digits 0 (x ∷ r))
unfolding signed is_digit
signed-digit x r h = ground arith

skip_spaces-digit : (x : ℕ) (r : List ℕ) → is_digit x ≡ true → skip_spaces (x ∷ r) ≡ x ∷ r
unfolding skip_spaces is_space is_digit
skip_spaces-digit x r h = ground arith

atol-digit : (s r : List ℕ) → Digits s → atol (s ++ r) ≡ to_long false (scan_digits 0 (s ++ r))
unfolding atol
atol-digit s r (starts x t e d) = rw (e, skip_spaces-digit x (t ++ r) d) (signed-digit x (t ++ r) d)

pub atol-print_nat : (n : ℕ) (r : List ℕ) → n < 2 ^ 63 → NoDigit r → atol (print_nat n ++ r) ≡ pos n
unfolding print_nat
atol-print_nat n r h e =
    atol-digit (digits 20 n) r (digits-Digits 19 n)
    ∙ rw (scan_digits-digits 20 n r (omega arith), scan_digits_end n r e) (to_long_small n h)

pub atoi-print_nat : (n : ℕ) (r : List ℕ) → n < 2 ^ 31 → NoDigit r → atoi (print_nat n ++ r) ≡ pos n
unfolding atoi
atoi-print_nat n r h e = rw (atol-print_nat n r (omega arith) e) (to_int_small n h)

has_digits-digit : (s r : List ℕ) → Digits s → has_digits (skip_spaces (s ++ r)) ≡ true
unfolding has_digits starts_with_digit is_digit
has_digits-digit s r (starts x t e d) = rw (e, skip_spaces-digit x (t ++ r) d) (ground arith)

pub scan_int-print_nat :
    (n : ℕ) (r : List ℕ) → n < 2 ^ 31 → NoDigit r → scan_int (print_nat n ++ r) ≡ some (pos n)
unfolding scan_int print_nat
scan_int-print_nat n r h e =
    rw (has_digits-digit (digits 20 n) r (digits-Digits 19 n)) (ap some (atoi-print_nat n r h e))
