-- ===== src/Text/Search.antt =====
-- `strchr`: the text before and after the first occurrence of a byte.
use nfs_system.Base.{
  ℕ, List, [], ◌∷◌, ◌++◌, Option, none, some, ◌==◌, if◌then◌else◌, ◌≡◌, ◌≢◌, refl, ap, arith, All,
  Bool-cases, ==_iff, inl, inr,
}

unfoldable pub strchr : ℕ → List ℕ → Option (List ℕ × List ℕ)
strchr c [] = none
strchr c (x ∷ s) =
    let rest = strchr c s in
    if x == c then some ([], s) else elim rest [ none ↦ none | some (a, b) ↦ some (x ∷ a, b) ]

abbrev pub Lacks : ℕ → List ℕ → Type 0
Lacks c = All (λ x. x ≢ c)

pub strchr-append : (c : ℕ) (a b : List ℕ) → Lacks c a → strchr c (a ++ c ∷ b) ≡ some (a, b)
unfolding strchr
strchr-append c [] b h = ground arith
strchr-append c (x ∷ a) b (hx, ha) = ground (arith, strchr-append c a b ha)

pub strchr-Lacks : (c : ℕ) (s : List ℕ) → Lacks c s → strchr c s ≡ none
unfolding strchr
strchr-Lacks c [] h = refl
strchr-Lacks c (x ∷ s) (hx, hs) = ground (arith, strchr-Lacks c s hs)

-- What `strchr` finds, and what it means that it finds nothing.
pub data Found (c : ℕ) (s : List ℕ) : Type 0 where
  absent : strchr c s ≡ none → Lacks c s → Found c s
  present : (a b : List ℕ) → strchr c s ≡ some (a, b) → s ≡ a ++ c ∷ b → Lacks c a → Found c s

pub strchr-Found : (c : ℕ) (s : List ℕ) → Found c s
unfolding strchr
strchr-Found c [] = absent refl tt
strchr-Found c (x ∷ s) = elim (Bool-cases (x == c)) [
  | inl hit ↦ present [] s (rw hit) (ap (λ k. k ∷ s) ((==_iff x c).0 hit)) tt
  | inr miss ↦ elim (strchr-Found c s) [
    | absent e l ↦ absent (rw (miss, e)) (ground arith, l)
    | present a b e p l ↦ present (x ∷ a) b (rw (miss, e)) (ap (◌∷◌ x) p) (ground arith, l)
  ]
]

pub strchr_found :
    (c : ℕ) (s a b : List ℕ) → strchr c s ≡ some (a, b) → (s ≡ a ++ c ∷ b) × Lacks c a
strchr_found c s a b h = elim (strchr-Found c s) [
  | absent e l ↦ cc
  | present a' b' e p l ↦ let ea : a' ≡ a = cc in let eb : b' ≡ b = cc in rw (← ea, ← eb) (p, l)
]
