-- ===== src/Net/Laws.antt =====
-- Laws of `recv` and of the text functions.
use nfs_system.Base.{
  ℕ, ◌+◌, ◌-◌, ◌≤◌, ◌<◌, [], ◌∷◌, ◌++◌, some, length, length-drop, length-take, ◌≡◌, ◌≢◌, refl,
  arith, take_all,
}
use nfs_system.Text.{Bytes}
use nfs_system.Text.Search.{Lacks, strchr-append, strchr-Lacks}
use nfs_system.Net.{Stream, recv, c_string, bounded, first_line, strip_prefix}

-- How many `recv` calls can at most succeed.
abbrev pub stream_size : Stream → ℕ
stream_size [] = 0
stream_size (seg ∷ rest) = length seg + stream_size rest

pub recv_whole :
    (n : ℕ) (seg : Bytes) (rest : Stream)
    → seg ≢ []
    → length seg ≤ n
    → recv n (seg ∷ rest) ≡ some (seg, rest)
unfolding recv
recv_whole n [] rest ne h = absurd (ne refl)
recv_whole n (x ∷ seg) rest ne h = ground arith

-- A successful `recv` takes at least one byte off the connection, and returns at most `n`.
pub recv_size :
    (n : ℕ) (s : Stream) (b : Bytes) (t : Stream)
    → 0 < n
    → recv n s ≡ some (b, t)
    → (stream_size t < stream_size s) × (length b ≤ n) × (length b + stream_size t ≡ stream_size s)
unfolding recv
recv_size n [] b t pos e = absurd (ground arith)
recv_size n ([] ∷ rest) b t pos e = absurd (ground arith)
recv_size n ((x ∷ seg) ∷ rest) b t pos e =
    ground (arith, length-take n (x ∷ seg), length-drop n (x ∷ seg))

pub c_string_plain : (s : Bytes) → Lacks 0 s → c_string s ≡ s
unfolding c_string
c_string_plain [] h = refl
c_string_plain (x ∷ s) (hx, h) = ground (arith, c_string_plain s h)

pub first_line_plain : (s : Bytes) → Lacks 10 s → first_line s ≡ s
unfolding first_line
first_line_plain s h = rw (first_line, strchr-Lacks 10 s h)

pub first_line-append : (s r : Bytes) → Lacks 10 s → first_line (s ++ 10 ∷ r) ≡ s
unfolding first_line
first_line-append s r h = rw (first_line, strchr-append 10 s r h)

pub bounded_short : (n : ℕ) (s : Bytes) → length s < n → bounded n s ≡ s
unfolding bounded
bounded_short n s h = take_all (n - 1) s (omega arith)

pub strip_prefix-append : (p s : Bytes) → strip_prefix p (p ++ s) ≡ some s
unfolding strip_prefix
strip_prefix-append [] s = refl
strip_prefix-append (x ∷ p) s = ground (arith, strip_prefix-append p s)

-- A NUL behind the text ends it; the newline that stands before is kept.
pub c_string-append : (s r : Bytes) → Lacks 0 s → c_string (s ++ r) ≡ s ++ c_string r
unfolding c_string
c_string-append [] r h = refl
c_string-append (x ∷ s) r (hx, h) = ground (arith, c_string-append s r h)

pub c_string_newline : (r : Bytes) → c_string (10 ∷ r) ≡ 10 ∷ c_string r
unfolding c_string
c_string_newline r = refl

pub append-ne-nil : (s : Bytes) (c : ℕ) (r : Bytes) → s ++ c ∷ r ≢ []
append-ne-nil [] c r e = cc
append-ne-nil (x ∷ s) c r e = cc
