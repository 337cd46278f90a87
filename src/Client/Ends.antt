-- ===== src/Client/Ends.antt =====
-- The command loop of the file server: how it ends, and how it reads its commands.
use nfs_system.Base.{
  ℕ, zero, suc, ◌+◌, ◌-◌, ◌≤◌, ◌<◌, List, [], ◌∷◌, ◌++◌, Option, none, some, true, false, ltb,
  length, ℤ, pos, negsuc, Exec, done, overrun, ◌≡◌, ◌≢◌, refl, ap, arith, Bool-cases, Option-cases,
  inl, inr, length-append, ◌∙◌, sym,
}
use nfs_system.Text.{Bytes, codes}
use nfs_system.Text.Search.{Lacks}
use nfs_system.Net.{Stream, recv, c_string, first_line, strip_prefix}
use nfs_system.Net.Laws.{
  stream_size, recv_size, recv_whole, c_string-append, c_string_newline, append-ne-nil,
  first_line-append,
}
use nfs_system.Client.{
  Disk, FileServer, append, receive_chunk, handle_push_command, to_receive, write_chunk,
}
use nfs_system.Client.Serve.{
  serve_push, serve_command, handle_client_connection, Session, closed, overran, unfinished,
  max_command_size, scan_push, Served,
}

pub to_receive_pos : (left : ℕ) → ltb 0 left ≡ true → 0 < to_receive left
unfolding to_receive
to_receive_pos left h = ground arith

module _ (disk : Disk) where
  -- The rounds of `receive_chunk`.
  pub receive_over :
      (fuel left : ℕ) (path : Bytes) (stream : Stream) (s : FileServer)
      → ltb 0 left ≡ false
      → receive_chunk disk (suc fuel) left path stream s ≡ (stream, s)
  unfolding receive_chunk
  receive_over fuel left path stream s h = rw (receive_chunk, h)

  pub receive_ended :
      (fuel left : ℕ) (path : Bytes) (stream : Stream) (s : FileServer)
      → ltb 0 left ≡ true
      → recv (to_receive left) stream ≡ none
      → receive_chunk disk (suc fuel) left path stream s ≡ (stream, s)
  unfolding receive_chunk
  receive_ended fuel left path stream s h e = rw (receive_chunk, h, e)

  pub receive_refused :
      (fuel left : ℕ) (path : Bytes) (stream : Stream) (s : FileServer) (b : Bytes) (rest : Stream)
      → ltb 0 left ≡ true
      → recv (to_receive left) stream ≡ some (b, rest)
      → disk.accepts path b ≡ false
      → receive_chunk disk (suc fuel) left path stream s ≡ (rest, s)
  unfolding receive_chunk
  receive_refused fuel left path stream s b rest h e a = rw (receive_chunk, h, e, a)

  pub receive_stored :
      (fuel left : ℕ) (path : Bytes) (stream : Stream) (s : FileServer) (b : Bytes) (rest : Stream)
      → ltb 0 left ≡ true
      → recv (to_receive left) stream ≡ some (b, rest)
      → disk.accepts path b ≡ true
      → receive_chunk disk (suc fuel) left path stream s
        ≡ receive_chunk disk fuel (left - length b) path rest (append s path b)
  unfolding receive_chunk
  receive_stored fuel left path stream s b rest h e a = rw (receive_chunk, h, e, a)

  -- The handlers only take bytes off the connection.
  receive_chunk_size :
      (fuel left : ℕ) (path : Bytes) (stream : Stream) (s : FileServer)
      → stream_size (receive_chunk disk fuel left path stream s).0 ≤ stream_size stream
  receive_chunk_size zero left path stream s = unfold receive_chunk in omega arith
  receive_chunk_size (suc fuel) left path stream s = elim (Bool-cases (ltb 0 left)) [
    | inr over ↦ rw (receive_over fuel left path stream s over) (omega arith)
    | inl more ↦ elim (Option-cases (recv (to_receive left) stream)) [
      | inl e ↦ rw (receive_ended fuel left path stream s more e) (omega arith)
      | inr ((b, rest), e) ↦
          let less = recv_size (to_receive left) stream b rest (to_receive_pos left more) e in
          elim (Bool-cases (disk.accepts path b)) [
            | inr a ↦
                rw (receive_refused fuel left path stream s b rest more e a) (omega (arith, less))
            | inl a ↦ rw (receive_stored fuel left path stream s b rest more e a) (
                omega (
                  arith,
                  less,
                  receive_chunk_size fuel (left - length b) path rest (append s path b),
                ))
          ]
    ]
  ]

  write_chunk_size :
      (s : FileServer) (fd : Option Bytes) (n : ℤ) (stream : Stream)
      → stream_size (write_chunk disk s fd n stream).0 ≤ stream_size stream
  unfolding write_chunk
  write_chunk_size s none n stream = omega arith
  write_chunk_size s (some path) (pos n) stream = receive_chunk_size n n path stream s
  write_chunk_size s (some path) (negsuc n) stream = omega arith

  push_size :
      (s : FileServer) (path : Bytes) (n : ℤ) (stream : Stream)
      → stream_size (handle_push_command disk s path n stream).0 ≤ stream_size stream
  unfolding handle_push_command
  push_size s path (pos zero) stream = omega arith
  push_size s path (pos (suc n)) stream = write_chunk_size s s.current_fd (pos (suc n)) stream
  push_size s path (negsuc zero) stream = omega arith
  push_size s path (negsuc (suc n)) stream = write_chunk_size s s.current_fd (negsuc (suc n)) stream

  abbrev Shrinks : Stream → Exec Served → Type 0
  Shrinks stream overrun = Unit {0}
  Shrinks stream (done served) = stream_size served.0 ≤ stream_size stream

  serve_push-Shrinks :
      (s : FileServer) (args : Bytes) (stream : Stream) (r : Exec (Option (Bytes × ℤ)))
      → scan_push args ≡ r
      → Shrinks stream (serve_push disk s args stream)
  unfolding serve_push
  serve_push-Shrinks s args stream overrun e = rw (serve_push, e) tt
  serve_push-Shrinks s args stream (done none) e = rw (serve_push, e) (omega arith)
  serve_push-Shrinks s args stream (done (some (path, n))) e =
      rw (serve_push, e) (push_size s path n stream)

  serve_command-Shrinks :
      (s : FileServer) (line : Bytes) (stream : Stream)
      → Shrinks stream (serve_command disk s line stream)
  unfolding serve_command
  serve_command-Shrinks s line stream = elim (Option-cases (strip_prefix (codes "LIST") line)) [
    | inr (args, e) ↦ rw (serve_command, e) (omega arith)
    | inl e ↦ elim (Option-cases (strip_prefix (codes "PULL") line)) [
      | inr (args, f) ↦ rw (serve_command, e, f) (omega arith)
      | inl f ↦ elim (Option-cases (strip_prefix (codes "PUSH") line)) [
        | inr (args, g) ↦
            rw (serve_command, e, f, g) (serve_push-Shrinks s args stream (scan_push args) refl)
        | inl g ↦ rw (serve_command, e, f, g) (omega arith)
      ]
    ]
  ]

  -- The rounds of the command loop.
  pub session_closed :
      (fuel : ℕ) (stream : Stream) (s : FileServer) (out : List Bytes)
      → recv (max_command_size - 1) stream ≡ none
      → handle_client_connection disk (suc fuel) stream s out ≡ closed s out
  unfolding handle_client_connection
  session_closed fuel stream s out e = rw (handle_client_connection, e)

  unfoldable pub continued : ℕ → List Bytes → Exec Served → Session
  continued fuel out overrun = overran
  continued fuel out (done (rest, t, sent)) =
      handle_client_connection disk fuel rest t (out ++ sent)

  pub session_round :
      (fuel : ℕ) (stream : Stream) (s : FileServer) (out : List Bytes) (b : Bytes) (rest : Stream)
      → recv (max_command_size - 1) stream ≡ some (b, rest)
      → handle_client_connection disk (suc fuel) stream s out
        ≡ continued fuel out (serve_command disk s (first_line (c_string b)) rest)
  unfolding handle_client_connection continued
  session_round fuel stream s out b rest e =
      rw (handle_client_connection, e)
        (served (serve_command disk s (first_line (c_string b)) rest))
    where
      served :
          (r : Exec Served)
          → elim r as (λ x. Session) [
            | done x ↦ handle_client_connection disk fuel x.0 x.1 (out ++ x.2)
            | overrun ↦ overran
          ]
            ≡ continued fuel out r
      served overrun = refl
      served (done x) = refl

  continued-ends :
      (fuel : ℕ) (rest : Stream) (out : List Bytes) (r : Exec Served)
      → ((t : Stream) (s : FileServer) (o : List Bytes)
          → stream_size t < fuel
          → handle_client_connection disk fuel t s o ≢ unfinished)
      → stream_size rest < fuel
      → Shrinks rest r
      → continued fuel out r ≢ unfinished
  unfolding continued
  continued-ends fuel rest out overrun ih h sh = λ q. cc
  continued-ends fuel rest out (done (t, s, sent)) ih h sh = ih t s (out ++ sent) (omega arith)

  -- With fuel for every byte of the connection the loop comes to its end: the server closes the
  -- connection, or has written past the end of `file_path`.
  pub handle_client_connection-ends :
      (fuel : ℕ) (stream : Stream) (s : FileServer) (out : List Bytes)
      → stream_size stream < fuel
      → handle_client_connection disk fuel stream s out ≢ unfinished
  handle_client_connection-ends zero stream s out h = absurd (omega arith)
  handle_client_connection-ends (suc fuel) stream s out h =
      elim (Option-cases (recv (max_command_size - 1) stream)) [
        | inl e ↦ rw (session_closed fuel stream s out e) (λ q. cc)
        | inr ((b, rest), e) ↦
            let less = recv_size (max_command_size - 1) stream b rest (omega arith) e in
            rw (session_round fuel stream s out b rest e) (
              continued-ends fuel rest out _ (handle_client_connection-ends fuel)
                (omega (arith, less)) (serve_command-Shrinks s (first_line (c_string b)) rest))
      ]

  -- One `recv` is one command: of what a `recv` returns, everything behind the first newline is
  -- dropped, be it the next command or the bytes of a file.
  pub session_drops :
      (fuel : ℕ) (line more : Bytes) (rest : Stream) (s : FileServer) (out : List Bytes)
      → Lacks 0 line
      → Lacks 10 line
      → length line + length more + 1 < max_command_size
      → handle_client_connection disk (suc fuel) ((line ++ 10 ∷ more) ∷ rest) s out
        ≡ handle_client_connection disk (suc fuel) ((line ++ 10 ∷ []) ∷ rest) s out
  session_drops fuel line more rest s out no_nul no_newline fits =
      session_round fuel _ s out (line ++ 10 ∷ more) rest (
        recv_whole _ _ rest (append-ne-nil line 10 more)
          (omega (arith, length-append line (10 ∷ more))))
      ∙ ap (λ l. continued fuel out (serve_command disk s l rest)) (same more ∙ sym (same []))
      ∙ sym (
          session_round fuel _ s out (line ++ 10 ∷ []) rest (
            recv_whole _ _ rest (append-ne-nil line 10 [])
              (omega (arith, length-append line (10 ∷ [])))))
    where
      same : (r : Bytes) → first_line (c_string (line ++ 10 ∷ r)) ≡ line
      same r =
          rw (c_string-append line (10 ∷ r) no_nul, c_string_newline r)
            (first_line-append line (c_string r) no_newline)
