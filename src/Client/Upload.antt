-- ===== src/Client/Upload.antt =====
-- A whole file sent as PUSH commands over one connection, each command and each piece of data in
-- segments of its own.
use nfs_system.Base.{
  ℕ, zero, suc, ◌+◌, ◌≤◌, ◌<◌, List, [], ◌∷◌, ◌++◌, none, true, length, pos, negsuc, done, ◌≡◌, ◌≢◌,
  refl, ap, arith, ◌∙◌, append_assoc, append-nil, All,
}
use nfs_system.Text.{Bytes}
use nfs_system.Net.{Stream, recv, flatten, first_line, c_string}
use nfs_system.Net.Laws.{recv_whole}
use nfs_system.Protocol.{push_start, push_chunk, push_end}
use nfs_system.Client.{
  Disk, FileServer, relative, store, write_chunk, open_file, handle_push_command,
}
use nfs_system.Client.Serve.{serve_command, handle_client_connection, closed}
use nfs_system.Client.Ends.{continued, session_closed, session_round}
use nfs_system.Client.Commands.{IsPath, serve_start, serve_chunk, serve_end, length-commands}
use nfs_system.Client.Push.{IsChunk, writing, receive_segments}

-- The segments behind the first command: for each chunk its header and its data, and the end mark.
abbrev pub deliver : Bytes → List Stream → Stream
deliver path [] = push_end path ∷ []
deliver path (segs ∷ cs) = push_chunk path (length (flatten segs)) ∷ (segs ++ deliver path cs)

abbrev pub contents : List Stream → Bytes
contents [] = []
contents (segs ∷ cs) = flatten segs ++ contents cs

-- The server with a file stored and no file open.
abbrev pub holding : FileServer → Bytes → Bytes → FileServer
holding s path content = record { files = store s.files path content; current_fd = none }

push_start-ne-nil : (path : Bytes) → push_start path ≢ []
unfolding push_start
push_start-ne-nil path e = cc

pub push_chunk-ne-nil : (path : Bytes) (n : ℕ) → push_chunk path n ≢ []
unfolding push_chunk
push_chunk-ne-nil path n e = cc

push_end-ne-nil : (path : Bytes) → push_end path ≢ []
unfolding push_end
push_end-ne-nil path e = cc

module _ (disk : Disk) where
  pub handle-pos :
      (s : FileServer) (path : Bytes) (n : ℕ) (stream : Stream)
      → 0 < n
      → handle_push_command disk s path (pos n) stream
        ≡ write_chunk disk s s.current_fd (pos n) stream
  unfolding handle_push_command
  handle-pos s path zero stream h = absurd (omega arith)
  handle-pos s path (suc n) stream h = refl

  handle-start :
      (s : FileServer) (path : Bytes) (stream : Stream)
      → disk.opens (relative path) ≡ true
      → handle_push_command disk s path (negsuc 0) stream ≡ (stream, writing s (relative path) [])
  unfolding handle_push_command open_file
  handle-start s path stream h = rw (handle_push_command, h)

  pub round :
      (fuel : ℕ) (b : Bytes) (rest t : Stream) (s u : FileServer) (out : List Bytes)
      → b ≢ []
      → length b ≤ 4095
      → serve_command disk s (first_line (c_string b)) rest ≡ done (t, u, [])
      → handle_client_connection disk (suc fuel) (b ∷ rest) s out
        ≡ handle_client_connection disk fuel t u out
  round fuel b rest t s u out ne fits e =
      session_round disk fuel (b ∷ rest) s out b rest (recv_whole 4095 b rest ne fits)
      ∙ ap (continued disk fuel out) e
      ∙ unfold continued in ap (handle_client_connection disk fuel t u) (append-nil out)

  module _ (path : Bytes) (h : IsPath path) (opens : disk.opens (relative path) ≡ true)
      (accepts : (b : Bytes) → disk.accepts (relative path) b ≡ true) where
    handle-chunk :
        (segs rest : Stream) (s : FileServer) (c : Bytes)
        → IsChunk segs
        → handle_push_command disk
            (writing s (relative path) c)
            path
            (pos (length (flatten segs)))
            (segs ++ rest)
          ≡ (rest, writing s (relative path) (c ++ flatten segs))
    handle-chunk segs rest s c k =
        handle-pos _ path _ (segs ++ rest) k.some_bytes
        ∙ unfold write_chunk in
          receive_segments disk (relative path) accepts _ segs rest s c k.solid (omega arith)
            k.within

    chunks_stored :
        (fuel : ℕ) (cs : List Stream) (s : FileServer) (c : Bytes) (out : List Bytes)
        → length cs + 2 ≤ fuel
        → All IsChunk cs
        → handle_client_connection disk fuel (deliver path cs) (writing s (relative path) c) out
          ≡ closed (holding s (relative path) (c ++ contents cs)) out
    chunks_stored zero cs s c out f k = absurd (omega arith)
    chunks_stored (suc zero) cs s c out f k = absurd (omega arith)
    chunks_stored (suc (suc fuel)) [] s c out f k =
        round (suc fuel) (push_end path) [] [] (writing s (relative path) c)
          (holding s (relative path) c) out (push_end-ne-nil path) ((length-commands path 0 h).2)
          (serve_end disk (writing s (relative path) c) path [] h
            ∙ unfold handle_push_command in refl)
        ∙ session_closed disk fuel [] _ out (unfold recv in refl)
        ∙ rw (append-nil c)
    chunks_stored (suc (suc fuel)) (segs ∷ cs) s c out f (k, ks) =
        round (suc fuel) (push_chunk path (length (flatten segs))) (segs ++ deliver path cs)
          (deliver path cs) _ (writing s (relative path) (c ++ flatten segs)) out
          (push_chunk-ne-nil path _) ((length-commands path _ h).1)
          (serve_chunk disk _ path _ h _ (omega (arith, k.within))
            ∙ rw (handle-chunk segs (deliver path cs) s c k))
        ∙ chunks_stored (suc fuel) cs s (c ++ flatten segs) out (omega arith) ks
        ∙ rw (append_assoc c (flatten segs) (contents cs))

    -- Where every command arrives in a `recv` of its own and every chunk in any segments of its own,
    -- the session ends with exactly the bytes of the chunks in the file, whatever it held before,
    -- the other files as they were and no file left open.
    pub upload_stored :
        (fuel : ℕ) (cs : List Stream) (s : FileServer) (out : List Bytes)
        → length cs + 3 ≤ fuel
        → All IsChunk cs
        → handle_client_connection disk fuel (push_start path ∷ deliver path cs) s out
          ≡ closed (holding s (relative path) (contents cs)) out
    upload_stored zero cs s out f k = absurd (omega arith)
    upload_stored (suc fuel) cs s out f k =
        round fuel (push_start path) (deliver path cs) (deliver path cs) s
          (writing s (relative path) []) out (push_start-ne-nil path) ((length-commands path 0 h).0)
          (serve_start disk s path (deliver path cs) h
            ∙ rw (handle-start s path (deliver path cs) opens))
        ∙ chunks_stored fuel cs s [] out (omega arith) k
