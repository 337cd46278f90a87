-- ===== src/Client/Commands.antt =====
-- How the file server reads the PUSH commands that the manager writes.
use nfs_system.Base.{
  ℕ, ◌≤◌, ◌<◌, ◌^◌, [], ◌∷◌, ◌++◌, some, length, length-append, ℤ, pos, negsuc, to_int, to_long,
  done, ◌≡◌, refl, ap, arith, sym, append_assoc, lt→ltb, All-append,
}
use nfs_system.Text.{Bytes, codes}
use nfs_system.Text.Search.{Lacks}
use nfs_system.Text.Words.{
  IsWord, NoSpaces, is_space, skip_spaces, scan_word_space, scan_word-append,
}
use nfs_system.Text.Decimal.{is_digit, digits, print_nat, print_nat-Lacks, length-digits}
use nfs_system.Text.Number.{
  scan_int, atoi, atol, signed, scan_digits, has_digits, starts_with_digit,
}
use nfs_system.Text.RoundTrip.{scan_int-print_nat}
use nfs_system.Net.{Stream, c_string, first_line, strip_prefix}
use nfs_system.Net.Laws.{c_string_plain, first_line_plain, first_line-append}
use nfs_system.Spec.{max_path}
use nfs_system.Protocol.{push_start, push_chunk, push_end}
use nfs_system.Client.{Disk, FileServer, handle_push_command}
use nfs_system.Client.Serve.{scan_push, serve_push, serve_command}

-- A path that a PUSH command can carry: one word without NUL that fits `file_path`.
pub record IsPath (path : Bytes) : Type 0 where
  pub word : IsWord path
  pub no_nul : Lacks 0 path
  pub fits : length path < max_path

NoSpaces-Lacks : (s : Bytes) → NoSpaces s → Lacks 10 s
unfolding is_space
NoSpaces-Lacks [] h = tt
NoSpaces-Lacks (x ∷ s) (hx, h) = (ground arith, NoSpaces-Lacks s h)

scan_int_blank : (s : Bytes) → scan_int (32 ∷ s) ≡ scan_int s
unfolding scan_int atoi atol skip_spaces is_space
scan_int_blank s = refl

-- The arguments behind the word PUSH: a blank, the path, a blank and a number.
pub scan_push-number :
    (path number : Bytes) (n : ℤ)
    → IsPath path
    → scan_int number ≡ some n
    → scan_push (32 ∷ (path ++ 32 ∷ number)) ≡ done (some (path, n))
unfolding scan_push is_space
scan_push-number path number n h e = rw (
  scan_push,
  scan_word_space 32 (path ++ 32 ∷ number) refl,
  scan_word-append path (32 ∷ number) h.word refl,
  lt→ltb _ _ h.fits,
  scan_int_blank number,
  e,
)

pub scan_int-start : scan_int (codes "-1") ≡ some (negsuc 0)
unfolding scan_int atoi atol skip_spaces is_space has_digits starts_with_digit signed scan_digits
    is_digit
scan_int-start = unfold to_int to_long in refl

pub scan_int-end : scan_int (codes "0") ≡ some (pos 0)
unfolding scan_int atoi atol skip_spaces is_space has_digits starts_with_digit signed scan_digits
    is_digit
scan_int-end = unfold to_int to_long in refl

-- A command line up to its newline, or up to the blank that ends a chunk's header.
push_line : Bytes → Bytes → Bytes
push_line path number = codes "PUSH " ++ (path ++ 32 ∷ number)

push_line-Lacks :
    (c : ℕ) (path number : Bytes)
    → Lacks c (codes "PUSH ")
    → Lacks c path
    → Lacks c (32 ∷ number)
    → Lacks c (push_line path number)
unfolding push_line
push_line-Lacks c path number h p n = All-append _ (codes "PUSH ") _ h (All-append _ path _ p n)

-- With a newline behind it the line is what stands in the buffer.
line_with_newline :
    (path number : Bytes)
    → IsPath path
    → Lacks 0 number
    → Lacks 10 number
    → first_line (c_string (codes "PUSH " ++ (path ++ 32 ∷ (number ++ 10 ∷ []))))
      ≡ push_line path number
line_with_newline path number h nul newline =
    rw (same, c_string_plain _ (All-append _ line (10 ∷ []) lacks (omega arith, tt)))
      (first_line-append line [] (
        push_line-Lacks 10 path number (omega arith) (NoSpaces-Lacks path h.word.1)
          (omega arith, newline)))
  where
    line : Bytes
    line = push_line path number

    lacks : Lacks 0 line
    lacks = push_line-Lacks 0 path number (omega arith) h.no_nul (omega arith, nul)

    same : codes "PUSH " ++ (path ++ 32 ∷ (number ++ 10 ∷ [])) ≡ line ++ 10 ∷ []
    same =
        unfold push_line in
        ap (λ t. codes "PUSH " ++ t) (sym (append_assoc path (32 ∷ number) (10 ∷ [])))

read_start :
    (path : Bytes)
    → IsPath path
    → first_line (c_string (push_start path)) ≡ push_line path (codes "-1")
unfolding push_start
read_start path h = line_with_newline path (codes "-1") h (omega arith) (omega arith)

read_end :
    (path : Bytes)
    → IsPath path
    → first_line (c_string (push_end path)) ≡ push_line path (codes "0")
unfolding push_end
read_end path h = line_with_newline path (codes "0") h (omega arith) (omega arith)

number-Lacks : (c n : ℕ) → c < 32 → Lacks c (print_nat n ++ 32 ∷ [])
number-Lacks c n lt =
    All-append _ (print_nat n) (32 ∷ []) (print_nat-Lacks c n (omega arith)) (omega arith, tt)

read_chunk :
    (path : Bytes) (n : ℕ)
    → IsPath path
    → first_line (c_string (push_chunk path n)) ≡ push_line path (print_nat n ++ 32 ∷ [])
unfolding push_chunk push_line
read_chunk path n h =
    rw
      (c_string_plain _ (
        push_line-Lacks 0 path _ (omega arith) h.no_nul
          (omega arith, number-Lacks 0 n (omega arith))))
      (first_line_plain _ (
        push_line-Lacks 10 path _ (omega arith) (NoSpaces-Lacks path h.word.1)
          (omega arith, number-Lacks 10 n (omega arith))))

-- The three commands fit the buffer of one `recv`.
pub length-commands :
    (path : Bytes) (n : ℕ)
    → IsPath path
    → (length (push_start path) ≤ 4095)
      × (length (push_chunk path n) ≤ 4095)
      × (length (push_end path) ≤ 4095)
unfolding push_start push_chunk push_end print_nat
length-commands path n h = omega (
  arith,
  h.fits,
  length-append path (codes " -1\n"),
  length-append path (codes " 0\n"),
  length-append path (32 ∷ (digits 20 n ++ codes " ")),
  length-append (digits 20 n) (codes " "),
  length-digits 20 n,
)

module _ (disk : Disk) (s : FileServer) (path : Bytes) (stream : Stream) (h : IsPath path) where
  -- A PUSH command goes to `handle_push_command` with its path and its number.
  serve-push_line :
      (number : Bytes) (n : ℤ)
      → scan_int number ≡ some n
      → serve_command disk s (push_line path number) stream
        ≡ done (
          (handle_push_command disk s path n stream).0,
          (handle_push_command disk s path n stream).1,
          [],
        )
  unfolding serve_command serve_push strip_prefix push_line
  serve-push_line number n e = rw (serve_push, scan_push-number path number n h e)

  pub serve_start :
      serve_command disk s (first_line (c_string (push_start path))) stream
      ≡ done (
        (handle_push_command disk s path (negsuc 0) stream).0,
        (handle_push_command disk s path (negsuc 0) stream).1,
        [],
      )
  serve_start = rw (read_start path h) (serve-push_line (codes "-1") (negsuc 0) scan_int-start)

  pub serve_end :
      serve_command disk s (first_line (c_string (push_end path))) stream
      ≡ done (
        (handle_push_command disk s path (pos 0) stream).0,
        (handle_push_command disk s path (pos 0) stream).1,
        [],
      )
  serve_end = rw (read_end path h) (serve-push_line (codes "0") (pos 0) scan_int-end)

  pub serve_chunk :
      (n : ℕ)
      → n < 2 ^ 31
      → serve_command disk s (first_line (c_string (push_chunk path n))) stream
        ≡ done (
          (handle_push_command disk s path (pos n) stream).0,
          (handle_push_command disk s path (pos n) stream).1,
          [],
        )
  serve_chunk n lt = rw (read_chunk path n h) (
      serve-push_line (print_nat n ++ 32 ∷ []) (pos n)
        (scan_int-print_nat n (32 ∷ []) lt (unfold is_digit in refl)))
