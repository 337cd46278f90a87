-- ===== src/Transfer/EndToEnd.antt =====
-- `sync_single_file` between the servers of the source and of the target.
use nfs_system.Base.{
  ℕ, suc, ◌+◌, ◌-◌, ◌≤◌, ◌<◌, ◌^◌, List, [], ◌∷◌, ◌++◌, append_assoc, Option, some, true, length,
  length-append, ◌≡◌, refl, ap, arith, sym, ◌∙◌, subst,
}
use nfs_system.Text.{Bytes}
use nfs_system.Text.RoundTrip.{atol-print_nat}
use nfs_system.Text.Decimal.{print_nat, is_digit, print_nat-Lacks}
use nfs_system.Net.{Stream, recv, flatten, bounded, c_string}
use nfs_system.Net.Laws.{stream_size, recv_whole, c_string-append, append-ne-nil}
use nfs_system.Net.Receive.{IsSolid, length-flatten}
use nfs_system.Protocol.{pull_line}
use nfs_system.Client.{Disk, FileServer, relative, handle_pull_command}
use nfs_system.Client.Serve.{handle_client_connection, closed}
use nfs_system.Client.Commands.{IsPath}
use nfs_system.Client.Pull.{pull_sends}
use nfs_system.Client.Upload.{deliver, holding, upload_stored}
use nfs_system.Store.{success}
use nfs_system.Pool.{SyncJob}
use nfs_system.Transfer.{
  Peers, Transfer, sync_single_file, transfer_file, transfer_data, join_path, max_command_size,
  max_buffer_size,
}
use nfs_system.Transfer.Sent.{AllUp, Sent, sent, split_header-append, transfer_data-Sent}

c_string_blank : (r : Bytes) → c_string (32 ∷ r) ≡ 32 ∷ c_string r
unfolding c_string
c_string_blank r = refl

transfer_file_number :
    (fuel : ℕ) (peers : Peers) (asked : List Bytes) (path first : Bytes) (n : ℕ) (stream : Stream)
    → peers.start_sent ≡ true
    → n < 2 ^ 63
    → transfer_file fuel peers asked path (print_nat n ++ 32 ∷ first) stream
      ≡ transfer_data fuel asked path n first stream
unfolding transfer_file
transfer_file_number fuel peers asked path first n stream up h = rw (
  transfer_file,
  split_header-append (print_nat n) first (print_nat-Lacks 0 n (omega arith))
      (print_nat-Lacks 32 n (omega arith)),
  c_string-append (print_nat n) (32 ∷ first) (print_nat-Lacks 0 n (omega arith)),
  c_string_blank first,
  atol-print_nat n (32 ∷ c_string first) h (unfold is_digit in refl),
  up,
)

pub asking :
    (fuel : ℕ) (peers : Peers) (job : SyncJob) (response : Bytes) (rest stream : Stream)
    → AllUp peers
    → recv (max_buffer_size - 1) stream ≡ some (response, rest)
    → sync_single_file fuel peers job stream
      ≡ transfer_file fuel peers
          (bounded max_command_size (pull_line (join_path job.source.dir job.filename)) ∷ [])
          (join_path job.target.dir job.filename)
          response
          rest
unfolding sync_single_file transfer_file
asking fuel peers job response rest stream up e =
    rw (sync_single_file, up.source_connects, up.target_connects, up.pull_sent, e)

pub same_tail : (p a b : Bytes) → p ++ a ≡ p ++ b → a ≡ b
same_tail [] a b e = e
same_tail (x ∷ p) a b e = same_tail p a b (cc)

-- A transfer after which the target's server, given what was sent to it, has the file and ends its
-- session. Its fuel is more than the number of segments, by any `extra`.
pub data Copied (extra : ℕ) (disk : Disk) (server : FileServer) (path content : Bytes)
    (r : Option Transfer) : Type 0 where
  copied :
      (t : Transfer)
      → r ≡ some t
      → t.status ≡ success
      → t.transferred ≡ length content
      → handle_client_connection disk (length t.to_target + suc extra) t.to_target server []
        ≡ closed (holding server (relative path) content) []
      → Copied extra disk server path content r

length-deliver : (path : Bytes) (cs : List Stream) → length cs < length (deliver path cs)
length-deliver path [] = omega arith
length-deliver path (segs ∷ cs) =
    omega (arith, length-deliver path cs, length-append segs (deliver path cs))

Sent-Copied :
    (extra : ℕ) (disk : Disk) (server : FileServer) (path content : Bytes) (r : Option Transfer)
    → IsPath path
    → disk.opens (relative path) ≡ true
    → ((b : Bytes) → disk.accepts (relative path) b ≡ true)
    → Sent path content r
    → Copied extra disk server path content r
Sent-Copied extra disk server path content r h opens accepts (sent t cs e ok n script_eq same k) =
    copied t e ok n (
      ap (λ sends. handle_client_connection disk (length t.to_target + suc extra) sends server [])
        script_eq
      ∙ upload_stored disk path h opens accepts (length t.to_target + suc extra) cs server []
          (omega (arith, length-deliver path cs, ap length script_eq)) k
      ∙ ap (λ c. closed (holding server (relative path) c) []) same)

module _ (fuel extra : ℕ) (peers : Peers) (job : SyncJob) (target : Disk) (b : FileServer)
    (first : Bytes) (rest : Stream) (up : AllUp peers) (solid : IsSolid rest)
    (enough : stream_size rest < fuel) (h : IsPath (join_path job.target.dir job.filename))
    (opens : target.opens (relative (join_path job.target.dir job.filename)) ≡ true)
    (accepts : (c : Bytes)
      → target.accepts (relative (join_path job.target.dir job.filename)) c ≡ true) where
  abbrev path : Bytes
  path = join_path job.target.dir job.filename

  abbrev asked : List Bytes
  asked = bounded max_command_size (pull_line (join_path job.source.dir job.filename)) ∷ []

  -- All calls on the two connections succeed, the source answers PULL with a size `n` below 2 ^ 63
  -- and a blank, which fit one `recv` with the bytes received with them, and then sends at most the
  -- rest of `n` bytes, in segments that are not empty, and closes. The target's path is one word
  -- that fits the server's array, and the target's disk opens and writes the file. Then
  -- `sync_single_file` returns success, also where bytes are missing, with the number of the bytes
  -- that came; and the target's server, when it receives what was sent to it, one `send` per
  -- segment, ends its session with exactly these bytes in the file and its other files as they were.
  pub sync_single_file_passes_on :
      (n : ℕ)
      → n < 2 ^ 63
      → length first + stream_size rest ≤ n
      → length (print_nat n ++ 32 ∷ first) < max_buffer_size
      → Copied extra target b
          (join_path job.target.dir job.filename)
          (first ++ flatten rest)
          (sync_single_file fuel peers job ((print_nat n ++ 32 ∷ first) ∷ rest))
  sync_single_file_passes_on n small below fits =
      Sent-Copied extra target b path (first ++ flatten rest) _ h opens accepts (
        subst (λ r. Sent path (first ++ flatten rest) r) (sym whole)
          (transfer_data-Sent fuel n asked path first rest h
            (omega (arith, length-append (print_nat n) (32 ∷ first))) below solid enough))
    where
      whole :
          sync_single_file fuel peers job ((print_nat n ++ 32 ∷ first) ∷ rest)
          ≡ transfer_data fuel asked path n first rest
      whole =
          asking fuel peers job (print_nat n ++ 32 ∷ first) rest _ up (
            recv_whole (max_buffer_size - 1) (print_nat n ++ 32 ∷ first) rest
              (append-ne-nil (print_nat n) 32 first) (omega arith))
          ∙ transfer_file_number fuel peers asked path first n rest up.start_sent small

  -- The source's server answers PULL for a file that it has and that is shorter than 2 ^ 63 bytes.
  -- Its answer arrives in segments that are not empty, of which the first holds the size and its
  -- blank and fits one `recv`. All calls on the two connections succeed, the target's path is one
  -- word that fits the server's array, and the target's disk opens and writes the file. Then
  -- `sync_single_file` returns success, with the file's length as the number of bytes; and the
  -- target's server, when it receives what was sent to it, one `send` per segment, ends its session
  -- with exactly the source's bytes in the file and its other files as they were.
  pub sync_single_file-Copied :
      (source : Disk) (a : FileServer) (content : Bytes)
      → a.files (relative (join_path job.source.dir job.filename)) ≡ some content
      → length content < 2 ^ 63
      → flatten ((print_nat (length content) ++ 32 ∷ first) ∷ rest)
        ≡ flatten (handle_pull_command source a (join_path job.source.dir job.filename))
      → length (print_nat (length content) ++ 32 ∷ first) < max_buffer_size
      → Copied extra target b
          (join_path job.target.dir job.filename)
          content
          (sync_single_file fuel peers job ((print_nat (length content) ++ 32 ∷ first) ∷ rest))
  sync_single_file-Copied source a content file small answer fits =
      subst
        (λ c.
          Copied extra target b path c
            (sync_single_file fuel peers job ((print_nat (length content) ++ 32 ∷ first) ∷ rest)))
        same
        (sync_single_file_passes_on (length content) small
          (omega (arith, ap length same, length-append first (flatten rest), length-flatten rest))
          fits)
    where
      header : Bytes
      header = print_nat (length content)

      same : first ++ flatten rest ≡ content
      same = same_tail (header ++ 32 ∷ []) _ _ (
          append_assoc header (32 ∷ []) (first ++ flatten rest)
          ∙ sym (append_assoc header (32 ∷ first) (flatten rest))
          ∙ answer
          ∙ pull_sends source a (join_path job.source.dir job.filename) content file
          ∙ sym (append_assoc header (32 ∷ []) content))
