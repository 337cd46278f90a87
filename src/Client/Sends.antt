-- ===== src/Client/Sends.antt =====
-- nfs_client_logic.c: `handle_pull_command` with the results of its calls of `send`, which may take any
-- part of what they are given, or fail.
use nfs_system.Base.{
  ℕ, ◌+◌, ◌≤◌, ◌<◌, List, [], ◌∷◌, ◌++◌, append_assoc, Option, none, some, All, Bool, true,
  if◌then◌else◌, length, length-append, length-drop, take, take_all, drop, take-append-drop, ◌≡◌,
  refl, ap, ◌∙◌, sym, subst, arith,
}
use nfs_system.Text.{Bytes, codes}
use nfs_system.Text.Decimal.{print_nat}
use nfs_system.Net.{flatten, bounded}
use nfs_system.Client.{Disk, FileServer, relative, chunks, max_buffer_size}
use nfs_system.Client.Pull.{flatten-chunks, header_fits}

-- All bytes are sent, a call failed, or the results end before.
pub data SendState : Type 0 where
  all_sent send_failed unfinished : SendState

-- What the calls have sent, the results of the calls to come, and how far the loop is.
pub record Sending : Type 0 where
  pub pieces : List Bytes
  pub results : List (Option ℕ)
  pub state : SendState

-- The inner loop, for what one `read` has put in the buffer. A result is -1 or how many bytes are taken.
unfoldable pub send_buffer : List (Option ℕ) → Bytes → Sending
send_buffer results [] = record { pieces = []; results = results; state = all_sent }
send_buffer [] (x ∷ s) = record { pieces = []; results = []; state = unfinished }
send_buffer (none ∷ results) (x ∷ s) = record {
  pieces = [];
  results = results;
  state = send_failed;
}
send_buffer (some k ∷ results) (x ∷ s) =
    let rest = send_buffer results (drop k (x ∷ s)) in
    record rest { pieces = take k (x ∷ s) ∷ rest.pieces }

-- The outer loop goes on behind a buffer that was sent whole.
unfoldable pub after_buffer : Sending → Sending → Sending
after_buffer first rest = elim first.state [
  | all_sent ↦ record rest { pieces = first.pieces ++ rest.pieces }
  | send_failed ↦ first
  | unfinished ↦ first
]

-- The outer loop, over what its reads return.
unfoldable pub send_chunks : List (Option ℕ) → List Bytes → Sending
send_chunks results [] = record { pieces = []; results = results; state = all_sent }
send_chunks results (s ∷ rest) =
    let first = send_buffer results s in after_buffer first (send_chunks first.results rest)

-- The size and the content. What the send of the size returns is not looked at.
unfoldable pub send_file : List (Option ℕ) → Bytes → List Bytes → Sending
send_file [] header reads = record { pieces = []; results = []; state = unfinished }
send_file (none ∷ results) header reads = send_chunks results reads
send_file (some k ∷ results) header reads =
    let rest = send_chunks results reads in record rest { pieces = take k header ∷ rest.pieces }

-- `stats` says whether `fstat` succeeds. Where it or `open` fails, one text is sent.
unfoldable pub pull_file : Disk → Bool → List (Option ℕ) → FileServer → Bytes → Sending
unfolding send_file
pull_file disk stats results s file_path = elim (s.files (relative file_path)) [
  | none ↦ send_file results (bounded 64 (codes "-1 " ++ disk.error_text)) []
  | some content ↦
      if stats
      then send_file results (bounded 32 (print_nat (length content) ++ 32 ∷ []))
          (chunks (length content) max_buffer_size content)
      else send_file results (bounded 64 (codes "-1 " ++ disk.error_text)) []
]

-- A call that takes at least one byte.
abbrev pub TakesSome : Option ℕ → Type 0
TakesSome none = ⊥
TakesSome (some k) = 0 < k

-- The bytes are sent, in some pieces, by at most as many calls as there are bytes.
pub record Sent (results : List (Option ℕ)) (s : Bytes) (r : Sending) : Type 0 where
  pub sent_all : r.state ≡ all_sent
  pub same_bytes : flatten r.pieces ≡ s
  pub others_take : All TakesSome r.results
  pub calls : length results ≤ length r.results + length s

send_buffer-Sent :
    (results : List (Option ℕ)) (s : Bytes)
    → All TakesSome results
    → length s ≤ length results
    → Sent results s (send_buffer results s)
unfolding send_buffer
send_buffer-Sent results [] h l = record {
  sent_all = refl;
  same_bytes = refl;
  others_take = h;
  calls = omega arith;
}
send_buffer-Sent [] (x ∷ s) h l = absurd (omega arith)
send_buffer-Sent (none ∷ results) (x ∷ s) (bad, h) l = absurd bad
send_buffer-Sent (some k ∷ results) (x ∷ s) (pos, h) l =
    let left = drop k (x ∷ s) in
    let short = length-drop k (x ∷ s) in
    let ih = send_buffer-Sent results left h (omega (arith, short, l, pos)) in
    record {
      sent_all = ih.sent_all;
      same_bytes = ap (λ b. take k (x ∷ s) ++ b) ih.same_bytes ∙ take-append-drop k (x ∷ s);
      others_take = ih.others_take;
      calls = omega (arith, ih.calls, short, pos);
    }

after_all :
    (first rest : Sending)
    → first.state ≡ all_sent
    → after_buffer first rest ≡ record rest { pieces = first.pieces ++ rest.pieces }
unfolding after_buffer
after_all first rest e =
    subst
      (λ st.
        after_buffer (record first { state = st }) rest
        ≡ record rest { pieces = first.pieces ++ rest.pieces })
      (sym e) refl

flatten-append : (ps qs : List Bytes) → flatten (ps ++ qs) ≡ flatten ps ++ flatten qs
flatten-append [] qs = refl
flatten-append (p ∷ ps) qs =
    ap (λ b. p ++ b) (flatten-append ps qs) ∙ sym (append_assoc p (flatten ps) (flatten qs))

send_chunks-Sent :
    (results : List (Option ℕ)) (reads : List Bytes)
    → All TakesSome results
    → length (flatten reads) ≤ length results
    → Sent results (flatten reads) (send_chunks results reads)
unfolding send_chunks after_buffer
send_chunks-Sent results [] h l = record {
  sent_all = refl;
  same_bytes = refl;
  others_take = h;
  calls = omega arith;
}
send_chunks-Sent results (s ∷ rest) h l =
    let split = length-append s (flatten rest) in
    let first = send_buffer-Sent results s h (omega (arith, split, l)) in
    let r = send_buffer results s in
    let ih =
      send_chunks-Sent r.results rest first.others_take (omega (arith, split, l, first.calls)) in
    subst (Sent results (s ++ flatten rest))
      (sym (after_all r (send_chunks r.results rest) first.sent_all))
      (record {
        sent_all = ih.sent_all;
        same_bytes =
            flatten-append r.pieces (send_chunks r.results rest).pieces
            ∙ ap (λ b. b ++ flatten (send_chunks r.results rest).pieces) first.same_bytes
            ∙ ap (λ b. s ++ b) ih.same_bytes;
        others_take = ih.others_take;
        calls = omega (arith, split, first.calls, ih.calls);
      })

-- For a file that the server has and whose size can be read, when the first `send` takes the whole
-- size and every other takes at least one byte, `handle_pull_command` sends its size in decimal, a
-- blank and its content, byte for byte, whatever parts the calls take, and makes at most one call for
-- each byte.
pub pull_file-Sent :
    (disk : Disk) (k : ℕ) (results : List (Option ℕ)) (s : FileServer) (path content : Bytes)
    → s.files (relative path) ≡ some content
    → length (print_nat (length content)) < k
    → All TakesSome results
    → length content ≤ length results
    → Sent
        (some k ∷ results)
        (print_nat (length content) ++ 32 ∷ content)
        (pull_file disk true (some k ∷ results) s path)
unfolding pull_file send_file
pull_file-Sent disk k results s path content e whole takes enough =
    let size = length content in
    let header = print_nat size ++ 32 ∷ [] in
    let reads = chunks size max_buffer_size content in
    let read_all = flatten-chunks size max_buffer_size content (omega arith) (omega arith) in
    let ih = send_chunks-Sent results reads takes (omega (arith, ap length read_all, enough)) in
    let header_taken =
      ap (take k) (header_fits size)
      ∙ take_all k header (omega (arith, whole, length-append (print_nat size) (32 ∷ []))) in
    rw (pull_file, e)
      (record {
        sent_all = ih.sent_all;
        same_bytes =
            ap (λ b. b ++ flatten (send_chunks results reads).pieces) header_taken
            ∙ ap (λ b. header ++ b) (ih.same_bytes ∙ read_all)
            ∙ append_assoc (print_nat size) (32 ∷ []) content;
        others_take = ih.others_take;
        calls =
            omega
              (arith, ih.calls, ap length read_all, length-append (print_nat size) (32 ∷ content));
      })
