-- ===== src/Console/Bounds.antt =====
-- Commands that are too long for the arrays of the console and of the manager.
use nfs_system.Base.{
  ℕ, suc, ◌+◌, ◌*◌, ◌≤◌, ◌<◌, [], ◌∷◌, ◌++◌, append-nil, Option, true, false, length, length-append,
  ◌≡◌, ◌≢◌, refl, ap, arith, sym, ◌∙◌, Bool-cases, inl, inr, done, overrun, ◌>>=◌,
}
use nfs_system.Text.{Bytes, codes, str_eq}
use nfs_system.Text.Search.{Lacks, absent, present, strchr-Found, strchr-Lacks}
use nfs_system.Text.Words.{is_space, IsWord, NoSpaces, scan_words, scan_words_overrun}
use nfs_system.Text.Fits.{scan_words_safe}
use nfs_system.Net.{first_line, c_string}
use nfs_system.Net.Laws.{c_string_plain, first_line-append}
use nfs_system.Spec.{max_path}
use nfs_system.Manager.{World, Manager}
use nfs_system.Manager.Console.{command_size, Handled, dispatch, handle_command}
use nfs_system.Console.{
  strcpy, split_command, validate, process_user_command, is_newline, is_help, console_line, Line,
}

length-c_string : (s : Bytes) → length (c_string s) ≤ length s
unfolding c_string
length-c_string [] = omega arith
length-c_string (x ∷ s) = ground (arith, length-c_string s)

-- Fewer than 64 bytes never overrun the manager's arrays: the command is handled.
handle_command_safe :
    (w : World) (m : Manager) (stale b : Bytes)
    → length b < command_size
    → (h : Handled) × (handle_command w m stale b ≡ done h)
unfolding handle_command
handle_command_safe w m stale b h =
    let short = length-c_string b in
    let (ws, e) =
      scan_words_safe (command_size ∷ max_path ∷ max_path ∷ []) (c_string b)
        (omega (arith, short), (omega (arith, short), (omega (arith, short), tt))) in
    (dispatch w m stale (c_string b) ws, rw (handle_command, e))

first_line_size : (s : Bytes) → length (first_line s) ≤ length s
unfolding first_line
first_line_size s = elim (strchr-Found 10 s) [
  | absent e l ↦ rw (first_line, e) (omega arith)
  | present a b e p l ↦ rw (first_line, e) (omega (arith, ap length p, length-append a (10 ∷ b)))
]

strcpy_short : (n : ℕ) (s : Bytes) → length s < n → strcpy n s ≡ done s
unfolding strcpy
strcpy_short n s h = ground arith

split_safe :
    (line : Bytes)
    → length line < command_size
    → (c a : Bytes) × (split_command line ≡ done (c, a)) × (length a ≤ length line)
unfolding split_command
split_safe line h = elim (strchr-Found 32 line) [
  | absent e l ↦ (line, [], rw (split_command, e, strcpy_short command_size line h), omega arith)
  | present a b e p l ↦
      let size : length line ≡ length a + suc (length b) =
        omega (arith, ap length p, length-append a (32 ∷ b)) in
      (
        a,
        b,
        rw (
          split_command,
          e,
          strcpy_short command_size a (omega (arith, size)),
          strcpy_short (max_path * 2) b (omega (arith, size)),
        ),
        omega (arith, size),
      )
]

validate_safe :
    (c a : Bytes) → length a < max_path → (r : Option (Bytes × Bytes)) × (validate c a ≡ done r)
unfolding validate
validate_safe c a h =
    let (ws, e) = scan_words_safe (max_path ∷ max_path ∷ []) a (h, (h, tt)) in
    elim (Bool-cases (str_eq c (codes "add"))) [
      | inl is_add ↦ rw (validate, is_add, e) (_, refl)
      | inr e1 ↦ elim (Bool-cases (str_eq c (codes "cancel"))) [
        | inl e2 ↦ rw (validate, e1, e2) (_, refl)
        | inr e2 ↦ elim (Bool-cases (str_eq c (codes "shutdown"))) [
          | inl e3 ↦ rw (validate, e1, e2, e3) (_, refl)
          | inr e3 ↦ rw (validate, e1, e2, e3) (_, refl)
        ]
      ]
    ]

process_safe :
    (input : Bytes)
    → length input < command_size
    → (r : Option (Bytes × Bytes)) × (process_user_command input ≡ done r)
unfolding process_user_command
process_safe input h =
    let (c, a, e, fits) = split_safe (first_line input) (omega (arith, first_line_size input)) in
    let (r, q) = validate_safe c a (omega (arith, first_line_size input)) in
    (r, rw (process_user_command, e) q)

console_line_safe :
    (input : Bytes) → length input < command_size → (l : Line) × (console_line input ≡ done l)
unfolding console_line
console_line_safe input h = elim (Bool-cases (is_newline input)) [
  | inl e ↦ rw (console_line, e) (_, refl)
  | inr e ↦ elim (Bool-cases (is_help input)) [
    | inl e1 ↦ rw (console_line, e, e1) (_, refl)
    | inr e1 ↦ let (r, q) = process_safe input h in rw (console_line, e, e1, q) (_, refl)
  ]
]

-- An input of less than 64 bytes writes past no array, in the console or in the manager: each
-- finishes with it.
pub short_command_safe :
    (w : World) (m : Manager) (stale b : Bytes)
    → length b < command_size
    → ((l : Line) × (console_line b ≡ done l))
      × ((h : Handled) × (handle_command w m stale b ≡ done h))
short_command_safe w m stale b h = (console_line_safe b h, handle_command_safe w m stale b h)

strcpy_long : (n : ℕ) (s : Bytes) → n ≤ length s → strcpy n s ≡ overrun
unfolding strcpy
strcpy_long n s h = ground arith

split_long :
    (word : Bytes) → Lacks 32 word → command_size ≤ length word → split_command word ≡ overrun
unfolding split_command
split_long word h long =
    rw (split_command, strchr-Lacks 32 word h, strcpy_long command_size word long)

NoSpaces-Lacks-code : (c : ℕ) (s : Bytes) → is_space c ≡ true → NoSpaces s → Lacks c s
NoSpaces-Lacks-code c [] e h = tt
NoSpaces-Lacks-code c (x ∷ s) e (hx, h) =
    ((λ q. absurd (true-ne-false (sym e ∙ ap is_space (sym q) ∙ hx))), NoSpaces-Lacks-code c s e h)
  where
    true-ne-false : true ≢ false
    true-ne-false p = cc

-- A word of 64 bytes or more, without NUL, overruns the array `command` of the process that reads
-- it: the console when the user types it, whatever it is, and the manager when it receives it,
-- whoever connects. (A line that begins with "help" is taken before.)
pub long_command_overruns :
    (w : World) (m : Manager) (stale word : Bytes)
    → IsWord word
    → Lacks 0 word
    → command_size ≤ length word
    → (process_user_command (word ++ 10 ∷ []) ≡ overrun) × (handle_command w m stale word ≡ overrun)
unfolding process_user_command handle_command is_space
long_command_overruns w m stale word h nul long = (
  rw (
    process_user_command,
    first_line-append word [] (NoSpaces-Lacks-code 10 word refl (h.1)),
    split_long word (NoSpaces-Lacks-code 32 word refl (h.1)) long,
  ),
  rw (handle_command, c_string_plain word nul)
      (ap (λ r. r >>= (λ ws. done (dispatch w m stale word ws)))
        (ap (scan_words (command_size ∷ max_path ∷ max_path ∷ [])) (sym (append-nil word))
          ∙ scan_words_overrun command_size (max_path ∷ max_path ∷ []) word [] h tt long)),
)
