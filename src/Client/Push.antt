-- ===== src/Client/Push.antt =====
-- The chunks of a file, as PUSH commands bring them to the file server.
use mathlib.Core.Path.{fun_ext}
use nfs_system.Base.{
  ℕ, zero, suc, ◌+◌, ◌-◌, ◌≤◌, ◌<◌, [], ◌∷◌, ◌++◌, Option, some, true, length, length-append, ◌≡◌,
  ◌≢◌, refl, ap, arith, ◌∙◌, append_assoc, append-nil, lt→ltb, All, Bool-cases, inl, inr,
}
use nfs_system.Text.{Bytes, str_eq, str_eq_refl}
use nfs_system.Net.{Stream, recv, flatten}
use nfs_system.Net.Laws.{recv_whole}
use nfs_system.Client.{
  Disk, FileServer, store, content_of, append, to_receive, receive_chunk, max_buffer_size,
}
use nfs_system.Client.Ends.{receive_over, receive_stored}

-- The server with the file at `path` holding `content`, and open for writing.
abbrev pub writing : FileServer → Bytes → Bytes → FileServer
writing s path content = record { files = store s.files path content; current_fd = some path }

-- A chunk as it arrives, in segments that are not empty.
pub record IsChunk (segs : Stream) : Type 0 where
  pub solid : All (λ (b : Bytes). b ≢ []) segs
  pub some_bytes : 0 < length (flatten segs)
  pub within : length (flatten segs) ≤ max_buffer_size

store_twice : (f : Bytes → Option Bytes) (p a b : Bytes) → store (store f p a) p b ≡ store f p b
store_twice f p a b = fun_ext (λ q. again q)
  where
    again : (q : Bytes) → store (store f p a) p b q ≡ store f p b q
    again q = elim (Bool-cases (str_eq p q)) [ inl e ↦ rw e refl | inr e ↦ rw e refl ]

append-writing :
    (s : FileServer) (p c b : Bytes) → append (writing s p c) p b ≡ writing s p (c ++ b)
unfolding append content_of
append-writing s p c b = ap (λ f. record { files = f; current_fd = some p }) files
  where
    self : store s.files p c p ≡ some c
    self = rw (str_eq_refl p) refl

    files : (append (writing s p c) p b).files ≡ store s.files p (c ++ b)
    files =
        ap (λ o. store (store s.files p c) p (content_of o ++ b)) self
        ∙ store_twice s.files p c (c ++ b)

to_receive_small : (left : ℕ) → left ≤ max_buffer_size → to_receive left ≡ left
unfolding to_receive
to_receive_small left h = ground arith

module _ (disk : Disk) (p : Bytes) (accepts : (b : Bytes) → disk.accepts p b ≡ true) where
  -- The segments of a chunk are appended to the file, and what follows them is left.
  pub receive_segments :
      (fuel : ℕ) (segs rest : Stream) (s : FileServer) (c : Bytes)
      → All (λ (b : Bytes). b ≢ []) segs
      → length (flatten segs) ≤ fuel
      → length (flatten segs) ≤ max_buffer_size
      → receive_chunk disk fuel (length (flatten segs)) p (segs ++ rest) (writing s p c)
        ≡ (rest, writing s p (c ++ flatten segs))
  receive_segments zero [] rest s c solid f m = unfold receive_chunk in rw (append-nil c)
  receive_segments (suc fuel) [] rest s c solid f m =
      rw (append-nil c) (receive_over disk fuel 0 p rest (writing s p c) refl)
  receive_segments zero ([] ∷ segs) rest s c (ne, solid) f m = absurd (ne refl)
  receive_segments zero ((x ∷ seg) ∷ segs) rest s c solid f m = absurd (omega arith)
  receive_segments (suc fuel) ([] ∷ segs) rest s c (ne, solid) f m = absurd (ne refl)
  receive_segments (suc fuel) ((x ∷ seg) ∷ segs) rest s c (ne, solid) f m =
      receive_stored disk fuel left p _ (writing s p c) (x ∷ seg) (segs ++ rest)
        (lt→ltb 0 left (omega arith)) arrives (accepts (x ∷ seg))
      ∙ rw (append-writing s p c (x ∷ seg), less)
          (receive_segments fuel segs rest s (c ++ x ∷ seg) solid (omega (arith, size))
              (omega (arith, size))
            ∙ rw (append_assoc c (x ∷ seg) (flatten segs)))
    where
      left : ℕ
      left = length (flatten ((x ∷ seg) ∷ segs))

      size : left ≡ suc (length seg) + length (flatten segs)
      size = omega (arith, length-append seg (flatten segs))

      less : left - length (x ∷ seg) ≡ length (flatten segs)
      less = omega (arith, size)

      arrives : recv (to_receive left) ((x ∷ seg) ∷ (segs ++ rest)) ≡ some (x ∷ seg, segs ++ rest)
      arrives =
          recv_whole _ (x ∷ seg) (segs ++ rest) ne (omega (arith, size, to_receive_small left m))
