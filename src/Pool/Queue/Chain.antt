-- ===== src/Pool/Queue/Chain.antt =====
-- Chains of cells on the heap: the addresses that one meets from a pointer to NULL.
use nfs_system.Base.{
  ℕ, List, [], ◌∷◌, ◌++◌, Option, none, some, ◌≡◌, ◌≢◌, refl, sym, ap, arith, ◌==◌, All, map,
  Bool-cases, inl, inr, ==_iff,
}
use nfs_system.Pool.{SyncJob}
use nfs_system.Pool.Queue.{Cell, Heap, write, link}

abbrev pub Chain : Heap → Option ℕ → List ℕ → Type 0
Chain h p [] = p ≡ none
Chain h p (a ∷ xs) = (p ≡ some a) × Chain h (h a).next xs

abbrev pub Absent : ℕ → List ℕ → Type 0
Absent a = All (λ b. a ≢ b)

abbrev pub Distinct : List ℕ → Type 0
Distinct [] = Unit {0}
Distinct (a ∷ xs) = Absent a xs × Distinct xs

abbrev pub last? : List ℕ → Option ℕ
last? [] = none
last? (a ∷ []) = some a
last? (a ∷ b ∷ xs) = last? (b ∷ xs)

abbrev pub jobs_at : Heap → List ℕ → List SyncJob
jobs_at h = map (λ a. (h a).job)

pub write_ne : (h : Heap) (a b : ℕ) (c : Cell) → a ≢ b → write h a c b ≡ h b
write_ne h a b c ne = ground arith

pub write_self : (h : Heap) (a : ℕ) (c : Cell) → write h a c a ≡ c
write_self h a c = ground arith

-- A write elsewhere leaves a chain as it is.
pub Chain-write :
    (h : Heap) (a : ℕ) (c : Cell) (p : Option ℕ) (xs : List ℕ)
    → Absent a xs
    → Chain h p xs
    → Chain (write h a c) p xs
Chain-write h a c p [] ab ch = ch
Chain-write h a c p (b ∷ xs) (ne, ab) (e, ch) =
    (e, rw (write_ne h a b c ne) (Chain-write h a c (h b).next xs ab ch))

-- Nor does a new link of a cell change the jobs of any.
pub job-link : (h : Heap) (a b : ℕ) (n : Option ℕ) → (link h a n b).job ≡ (h b).job
job-link h a b n = elim (Bool-cases (a == b)) [
  | inl hit ↦ rw hit (ap (λ k. (h k).job) ((==_iff a b).0 hit))
  | inr miss ↦ rw miss refl
]

pub jobs_at-link :
    (h : Heap) (a : ℕ) (n : Option ℕ) (xs : List ℕ) → jobs_at (link h a n) xs ≡ jobs_at h xs
jobs_at-link h a n [] = refl
jobs_at-link h a n (b ∷ xs) = rw (job-link h a b n, jobs_at-link h a n xs)

pub jobs_at-append :
    (h : Heap) (xs : List ℕ) (a : ℕ) → jobs_at h (xs ++ a ∷ []) ≡ jobs_at h xs ++ (h a).job ∷ []
jobs_at-append h [] a = refl
jobs_at-append h (b ∷ xs) a = ap (◌∷◌ (h b).job) (jobs_at-append h xs a)

pub Absent-append : (a b : ℕ) (xs : List ℕ) → Absent a xs → a ≢ b → Absent a (xs ++ b ∷ [])
Absent-append a b [] h ne = (ne, tt)
Absent-append a b (x ∷ xs) (hx, h) ne = (hx, Absent-append a b xs h ne)

pub Distinct-append : (xs : List ℕ) (a : ℕ) → Distinct xs → Absent a xs → Distinct (xs ++ a ∷ [])
Distinct-append [] a d ab = (tt, tt)
Distinct-append (b ∷ xs) a (ab, d) (ne, ab2) =
    (Absent-append b a xs ab (λ e. ne (sym e)), Distinct-append xs a d ab2)

pub last?-append : (xs : List ℕ) (a : ℕ) → last? (xs ++ a ∷ []) ≡ some a
last?-append [] a = refl
last?-append (b ∷ []) a = refl
last?-append (b ∷ c ∷ xs) a = last?-append (c ∷ xs) a

last?-Absent : (b t : ℕ) (xs : List ℕ) → Absent b xs → last? xs ≡ some t → b ≢ t
last?-Absent b t [] ab l = absurd (ground arith)
last?-Absent b t (c ∷ []) ab l = ground arith
last?-Absent b t (c ∷ d ∷ xs) ab l = last?-Absent b t (d ∷ xs) ab.1 l

-- Linking the last cell to a new one, whose own link is NULL, puts that one at the end.
pub Chain-link :
    (h : Heap) (p : Option ℕ) (xs : List ℕ) (t a : ℕ)
    → Chain h p xs
    → Distinct xs
    → last? xs ≡ some t
    → Absent a xs
    → (h a).next ≡ none
    → Chain (link h t (some a)) p (xs ++ a ∷ [])
Chain-link h p [] t a ch d l ab n = absurd (ground arith)
Chain-link h p (b ∷ []) t a ch d l ab n = (ch.0, (ground arith, ground arith))
Chain-link h p (b ∷ c ∷ xs) t a (e, ch) d l ab n = (
  e,
  rw (write_ne h t b _ (λ k. last?-Absent b t (c ∷ xs) d.0 l (sym k)))
      (Chain-link h (h b).next (c ∷ xs) t a ch d.1 l ab.1 n),
)
