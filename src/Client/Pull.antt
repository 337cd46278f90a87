-- ===== src/Client/Pull.antt =====
-- `handle_pull_command`: the size and the content of the file, in pieces.
use nfs_system.Base.{
  ℕ, zero, suc, ◌≤◌, ◌<◌, [], ◌∷◌, ◌++◌, append_assoc, some, length, length-append, drop,
  length-drop, take-append-drop, ◌≡◌, refl, arith,
}
use nfs_system.Text.{Bytes}
use nfs_system.Text.Decimal.{print_nat, length-digits}
use nfs_system.Net.{flatten, bounded}
use nfs_system.Net.Laws.{bounded_short}
use nfs_system.Client.{Disk, FileServer, relative, chunks, handle_pull_command, max_buffer_size}

pub flatten-chunks :
    (fuel n : ℕ) (s : Bytes) → 0 < n → length s ≤ fuel → flatten (chunks fuel n s) ≡ s
unfolding chunks
flatten-chunks zero n [] pos h = refl
flatten-chunks zero n (x ∷ s) pos h = absurd (omega arith)
flatten-chunks (suc fuel) n [] pos h = refl
flatten-chunks (suc fuel) n (x ∷ s) pos h =
    rw (flatten-chunks fuel n (drop n (x ∷ s)) pos (omega (arith, length-drop n (x ∷ s))))
      (take-append-drop n (x ∷ s))

pub length-print_nat : (n : ℕ) → length (print_nat n) ≤ 20
unfolding print_nat
length-print_nat n = length-digits 20 n

-- The size fits its buffer.
pub header_fits : (n : ℕ) → bounded 32 (print_nat n ++ 32 ∷ []) ≡ print_nat n ++ 32 ∷ []
header_fits n =
    bounded_short 32 (print_nat n ++ 32 ∷ [])
      (omega (arith, length-append (print_nat n) (32 ∷ []), length-print_nat n))

-- For a file that can be opened the server sends, in all, its size in decimal, a blank and its
-- content, byte for byte.
pub pull_sends :
    (disk : Disk) (s : FileServer) (path content : Bytes)
    → s.files (relative path) ≡ some content
    → flatten (handle_pull_command disk s path) ≡ print_nat (length content) ++ 32 ∷ content
unfolding handle_pull_command
pull_sends disk s path content e =
    rw (handle_pull_command, e)
      (rw
        (
          header_fits (length content),
          flatten-chunks (length content) max_buffer_size content (omega arith) (omega arith),
        )
        (append_assoc (print_nat (length content)) (32 ∷ []) content))
