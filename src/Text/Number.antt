-- ===== src/Text/Number.antt =====
-- `atoi`, `atol` and the conversion `%d` of `sscanf`, as the GNU C library computes them.
use nfs_system.Base.{
  ℕ, ◌+◌, ◌-◌, ◌*◌, List, [], ◌∷◌, Bool, true, false, ◌==◌, if◌then◌else◌, ℤ, pos, to_int, to_long,
  Option, none, some,
}
use nfs_system.Text.Words.{skip_spaces}
use nfs_system.Text.Decimal.{is_digit}

-- The number that the leading digits of a text spell behind `n`.
unfoldable pub scan_digits : ℕ → List ℕ → ℕ
scan_digits n [] = n
scan_digits n (c ∷ s) =
    let rest = scan_digits (n * 10 + (c - b'0')) s in if is_digit c then rest else n

unfoldable pub signed : List ℕ → ℤ
signed [] = pos 0
signed (c ∷ s) =
    if c == b'-'
    then to_long true (scan_digits 0 s)
    else if c == b'+'
    then to_long false (scan_digits 0 s)
    else to_long false (scan_digits 0 (c ∷ s))

-- `atol` is `strtol` in base ten.
unfoldable pub atol : List ℕ → ℤ
atol s = signed (skip_spaces s)

unfoldable pub atoi : List ℕ → ℤ
atoi s = to_int (atol s)

unfoldable pub starts_with_digit : List ℕ → Bool
starts_with_digit [] = false
starts_with_digit (c ∷ s) = is_digit c

unfoldable pub has_digits : List ℕ → Bool
has_digits [] = false
has_digits (c ∷ s) =
    if c == b'-' then starts_with_digit s else if c == b'+' then starts_with_digit s else is_digit c

-- One `%d`: nothing is stored where no digit stands.
unfoldable pub scan_int : List ℕ → Option ℤ
scan_int s = if has_digits (skip_spaces s) then some (atoi s) else none
