-- ===== src/Net/Receive.antt =====
-- What one `recv` does to a connection whose segments are not empty.
use nfs_system.Base.{
  ℕ, ◌≤◌, ◌<◌, [], ◌∷◌, ◌++◌, append_assoc, some, true, false, leb, length, take, drop,
  length-append, length-drop, length-take, take-append-drop, ◌≡◌, ◌≢◌, refl, arith, All, Bool-cases,
  inl, inr,
}
use nfs_system.Text.{Bytes}
use nfs_system.Net.{Stream, recv, flatten}
use nfs_system.Net.Laws.{stream_size}

abbrev pub IsSolid : Stream → Type 0
IsSolid = All (λ (b : Bytes). b ≢ [])

pub data Received (n : ℕ) (s : Stream) : Type 0 where
  received :
      (b : Bytes) (t : Stream)
      → recv n s ≡ some (b, t)
      → b ≢ []
      → length b ≤ n
      → flatten s ≡ b ++ flatten t
      → IsSolid t
      → Received n s

ne-nil_of_length : (s : Bytes) → 0 < length s → s ≢ []
ne-nil_of_length [] h e = omega arith
ne-nil_of_length (x ∷ s) h e = cc

recv_long :
    (n : ℕ) (x : ℕ) (seg : Bytes) (rest : Stream)
    → leb (length (x ∷ seg)) n ≡ false
    → recv n ((x ∷ seg) ∷ rest) ≡ some (take n (x ∷ seg), drop n (x ∷ seg) ∷ rest)
unfolding recv
recv_long n x seg rest h = rw h

recv_short :
    (n : ℕ) (x : ℕ) (seg : Bytes) (rest : Stream)
    → leb (length (x ∷ seg)) n ≡ true
    → recv n ((x ∷ seg) ∷ rest) ≡ some (x ∷ seg, rest)
unfolding recv
recv_short n x seg rest h = rw h

-- A connection that has bytes gives some of them, and keeps the others in order.
pub recv-Received :
    (n : ℕ) (seg : Bytes) (rest : Stream) → 0 < n → IsSolid (seg ∷ rest) → Received n (seg ∷ rest)
recv-Received n [] rest pos (ne, solid) = absurd (ne refl)
recv-Received n (x ∷ seg) rest pos (ne, solid) = elim (Bool-cases (leb (length (x ∷ seg)) n)) [
  | inl short ↦ received (x ∷ seg) rest (recv_short n x seg rest short) ne (ground arith) refl solid
  | inr long ↦
      received (take n (x ∷ seg)) (drop n (x ∷ seg) ∷ rest) (recv_long n x seg rest long)
        (ne-nil_of_length _ (ground (arith, length-take n (x ∷ seg))))
        (omega (arith, length-take n (x ∷ seg)))
        (rw (
          ← append_assoc (take n (x ∷ seg)) (drop n (x ∷ seg)) (flatten rest),
          take-append-drop n (x ∷ seg),
        ))
        (ne-nil_of_length _ (ground (arith, length-drop n (x ∷ seg))), solid)
]

pub length-flatten : (s : Stream) → length (flatten s) ≡ stream_size s
length-flatten [] = refl
length-flatten (seg ∷ rest) = omega (arith, length-append seg (flatten rest), length-flatten rest)
