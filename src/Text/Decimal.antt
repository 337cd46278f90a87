-- ===== src/Text/Decimal.antt =====
-- `%d`, `%ld`, `%zu` and `%zd` of `printf`: the decimal digits of a number.
use nfs_system.Base.{
  ℕ, zero, suc, ◌+◌, ◌/◌, ◌%◌, ◌≤◌, ◌<◌, List, [], ◌∷◌, ◌++◌, ◌≡◌, refl, arith, Bool, true, ◌&&◌,
  ltb, leb, Bool-cases, inl, inr, if◌then◌else◌, ℤ, pos, negsuc, All, All-append, length,
  length-append,
}
use nfs_system.Text.Search.{Lacks}

unfoldable pub is_digit : ℕ → Bool
is_digit c = leb b'0' c && leb c b'9'

-- At most `k` digits.
unfoldable pub digits : ℕ → ℕ → List ℕ
digits zero n = []
digits (suc k) n =
    let front = digits k (n / 10) in
    if ltb n 10 then (b'0' + n) ∷ [] else front ++ (b'0' + n % 10) ∷ []

-- Twenty digits are enough for 64 bits.
unfoldable pub print_nat : ℕ → List ℕ
print_nat n = digits 20 n

unfoldable pub print_int : ℤ → List ℕ
print_int (pos n) = print_nat n
print_int (negsuc n) = b'-' ∷ print_nat (n + 1)

abbrev pub IsDigits : List ℕ → Type 0
IsDigits = All (λ c. is_digit c ≡ true)

pub data Digits (s : List ℕ) : Type 0 where
  starts : (x : ℕ) (r : List ℕ) → s ≡ x ∷ r → is_digit x ≡ true → Digits s

pub digits_step :
    (k n : ℕ)
    → digits (suc k) n
      ≡ (if ltb n 10 then (b'0' + n) ∷ [] else digits k (n / 10) ++ (b'0' + n % 10) ∷ [])
unfolding digits
digits_step k n = refl

-- A printed number begins with a digit.
pub digits-Digits : (k n : ℕ) → Digits (digits (suc k) n)
unfolding is_digit
digits-Digits zero n = elim (Bool-cases (ltb n 10)) [
  | inl small ↦ rw (digits_step zero n, small) (starts (b'0' + n) [] refl (ground arith))
  | inr large ↦
      rw (digits_step zero n, large)
        (unfold digits in starts (b'0' + n % 10) [] refl (ground arith))
]
digits-Digits (suc k) n = elim (Bool-cases (ltb n 10)) [
  | inl small ↦ rw (digits_step (suc k) n, small) (starts (b'0' + n) [] refl (ground arith))
  | inr large ↦ elim (digits-Digits k (n / 10)) [
    | starts x r e d ↦
        rw (digits_step (suc k) n, large, e) (starts x (r ++ (b'0' + n % 10) ∷ []) refl d)
  ]
]

-- It has digits only.
pub digits-IsDigits : (k n : ℕ) → IsDigits (digits k n)
unfolding is_digit
digits-IsDigits zero n = unfold digits in tt
digits-IsDigits (suc k) n = elim (Bool-cases (ltb n 10)) [
  | inl small ↦ rw (digits_step k n, small) (ground arith, tt)
  | inr large ↦
      rw (digits_step k n, large)
        (All-append (λ c. is_digit c ≡ true) (digits k (n / 10)) ((b'0' + n % 10) ∷ [])
          (digits-IsDigits k (n / 10)) (ground arith, tt))
]

pub length-digits : (k n : ℕ) → length (digits k n) ≤ k
length-digits zero n = unfold digits in omega arith
length-digits (suc k) n = elim (Bool-cases (ltb n 10)) [
  | inl small ↦ rw (digits_step k n, small) (omega arith)
  | inr large ↦
      rw (digits_step k n, large)
        (omega (
          arith,
          length-append (digits k (n / 10)) ((b'0' + n % 10) ∷ []),
          length-digits k (n / 10),
        ))
]

IsDigits-Lacks : (c : ℕ) (s : List ℕ) → c < 33 → IsDigits s → Lacks c s
unfolding is_digit
IsDigits-Lacks c [] lt h = tt
IsDigits-Lacks c (x ∷ s) lt (hx, h) = (ground arith, IsDigits-Lacks c s lt h)

-- Nothing below the digits' codes stands in a printed number.
pub print_nat-Lacks : (c n : ℕ) → c < 33 → Lacks c (print_nat n)
unfolding print_nat
print_nat-Lacks c n lt = IsDigits-Lacks c (digits 20 n) lt (digits-IsDigits 20 n)
