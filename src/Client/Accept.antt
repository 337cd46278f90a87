-- ===== src/Client/Accept.antt =====
-- nfs_client.c: the loop of `main`, which serves one connection after another. The file that
-- `handle_push_command` has open outlives a connection.
use nfs_system.Base.{
  ℕ, ◌+◌, ◌≤◌, List, [], ◌∷◌, ◌++◌, Option, none, some, true, length, ◌≡◌, refl, ap, ◌∙◌, sym, All,
}
use nfs_system.Text.{Bytes}
use nfs_system.Net.{Stream}
use nfs_system.Protocol.{push_start}
use nfs_system.Client.{Disk, FileServer, relative}
use nfs_system.Client.Serve.{handle_client_connection, Session, closed, overran, unfinished}
use nfs_system.Client.Commands.{IsPath}
use nfs_system.Client.Push.{IsChunk}
use nfs_system.Client.Upload.{deliver, contents, holding, upload_stored}

module _ (disk : Disk) where
  -- What `accept` returns is a connection, or `none` where it fails.
  unfoldable pub serve_connections : ℕ → List (Option Stream) → FileServer → List Bytes → Session
  serve_connections fuel [] s out = closed s out
  serve_connections fuel (none ∷ more) s out = serve_connections fuel more s out
  serve_connections fuel (some stream ∷ more) s out =
      elim (handle_client_connection disk fuel stream s out) [
        | closed t sent ↦ serve_connections fuel more t sent
        | overran ↦ overran
        | unfinished ↦ unfinished
      ]

  -- The sessions that follow one that has ended in `r`.
  and_then : ℕ → List (Option Stream) → Session → Session
  and_then fuel more (closed t sent) = serve_connections fuel more t sent
  and_then fuel more overran = overran
  and_then fuel more unfinished = unfinished

  serve_connections_step :
      (fuel : ℕ) (stream : Stream) (more : List (Option Stream)) (s : FileServer) (out : List Bytes)
      → serve_connections fuel (some stream ∷ more) s out
        ≡ and_then fuel more (handle_client_connection disk fuel stream s out)
  unfolding serve_connections and_then
  serve_connections_step fuel stream more s out =
      cases (handle_client_connection disk fuel stream s out)
    where
      cases :
          (r : Session)
          → (elim r [
            | closed t sent ↦ serve_connections fuel more t sent
            | overran ↦ overran
            | unfinished ↦ unfinished
          ])
            ≡ and_then fuel more r
      cases (closed t sent) = refl
      cases overran = refl
      cases unfinished = refl

  and_then-append :
      (fuel : ℕ) (before after : List (Option Stream)) (s t : FileServer) (out sent : List Bytes)
      → serve_connections fuel before s out ≡ closed t sent
      → serve_connections fuel (before ++ after) s out ≡ serve_connections fuel after t sent
  unfolding serve_connections and_then
  and_then-append fuel [] after s t out sent e = ap (and_then fuel after) e
  and_then-append fuel (none ∷ before) after s t out sent e =
      and_then-append fuel before after s t out sent e
  and_then-append fuel (some stream ∷ before) after s t out sent e =
      serve_connections_step fuel stream (before ++ after) s out
      ∙ cases (handle_client_connection disk fuel stream s out)
          (sym (serve_connections_step fuel stream before s out) ∙ e)
          (λ u o q. and_then-append fuel before after u t o sent q)
    where
      cases :
          (r : Session)
          → and_then fuel before r ≡ closed t sent
          → ((u : FileServer) (o : List Bytes)
              → serve_connections fuel before u o ≡ closed t sent
              → serve_connections fuel (before ++ after) u o ≡ serve_connections fuel after t sent)
          → and_then fuel (before ++ after) r ≡ serve_connections fuel after t sent
      cases (closed u o) q next = next u o q
      cases overran q next = cc
      cases unfinished q next = cc

  -- A connection that ends its session is the last one.
  serve_last :
      (fuel : ℕ) (stream : Stream) (s t : FileServer) (out sent : List Bytes)
      → handle_client_connection disk fuel stream s out ≡ closed t sent
      → serve_connections fuel (some stream ∷ []) s out ≡ closed t sent
  unfolding serve_connections
  serve_last fuel stream s t out sent e = rw (serve_connections, e)

  -- After any connections that the file server has served to their end, also ones that broke off
  -- within an upload, an upload to a path of one word that fits, which the disk opens and writes,
  -- whose commands arrive each in a `recv` of its own and whose chunks, of at most 8192 bytes,
  -- arrive in non-empty segments of their own, ends with exactly its bytes in the file, the other
  -- files as the earlier connections left them, and no file open.
  pub serve_connections-upload :
      (fuel : ℕ) (before : List (Option Stream)) (path : Bytes) (cs : List Stream)
      (s t : FileServer) (sent : List Bytes)
      → IsPath path
      → disk.opens (relative path) ≡ true
      → ((b : Bytes) → disk.accepts (relative path) b ≡ true)
      → serve_connections fuel before s [] ≡ closed t sent
      → length cs + 3 ≤ fuel
      → All IsChunk cs
      → serve_connections fuel (before ++ some (push_start path ∷ deliver path cs) ∷ []) s []
        ≡ closed (holding t (relative path) (contents cs)) sent
  serve_connections-upload fuel before path cs s t sent h opens accepts e enough k =
      and_then-append fuel before (some (push_start path ∷ deliver path cs) ∷ []) s t [] sent e
      ∙ serve_last fuel (push_start path ∷ deliver path cs) t _ sent sent
          (upload_stored disk path h opens accepts fuel cs t sent enough k)
