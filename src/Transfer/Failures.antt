-- ===== src/Transfer/Failures.antt =====
-- `sync_single_file` where the source refuses, and the length of its loop.
use nfs_system.Base.{
  ℕ, zero, suc, ◌+◌, ◌-◌, ◌≤◌, ◌<◌, List, [], ◌∷◌, ◌++◌, Option, none, some, ltb, length, ◌≡◌, refl,
  arith, ◌∙◌, Bool-cases, Option-cases, inl, inr, ℤ-cases, to_long, take, length-take,
}
use nfs_system.Text.{Bytes}
use nfs_system.Text.Words.{skip_spaces, is_space}
use nfs_system.Text.Decimal.{is_digit}
use nfs_system.Text.Number.{atol, signed, scan_digits}
use nfs_system.Net.{Stream, recv, bounded, c_string}
use nfs_system.Net.Laws.{stream_size, recv_size, recv_whole}
use nfs_system.Protocol.{pull_line}
use nfs_system.Client.{Disk, FileServer, relative, handle_pull_command}
use nfs_system.Pool.{SyncJob}
use nfs_system.Transfer.{
  Peers, Transfer, failed, sync_single_file, transfer_file, transfer_data, split_header, send_chunk,
  relay, join_path, max_command_size, max_buffer_size,
}
use nfs_system.Transfer.EndToEnd.{asking}
use nfs_system.Transfer.Sent.{AllUp}

refusal :
    (fuel : ℕ) (peers : Peers) (asked : List Bytes) (path text : Bytes) (stream : Stream)
    → transfer_file fuel peers asked path (b'-' ∷ b'1' ∷ 32 ∷ text) stream ≡ some (failed asked [])
unfolding transfer_file split_header c_string atol skip_spaces is_space signed scan_digits is_digit
    to_long
refusal fuel peers asked path text stream = refl

missing_answer :
    (disk : Disk) (a : FileServer) (path : Bytes)
    → a.files (relative path) ≡ none
    → handle_pull_command disk a path ≡ (b'-' ∷ b'1' ∷ 32 ∷ take 60 disk.error_text) ∷ []
unfolding handle_pull_command bounded
missing_answer disk a path e = rw (handle_pull_command, e)

-- When all calls succeed and the source's server does not have the file, its answer makes
-- `sync_single_file` fail, with the PULL command sent to the source and nothing to the target.
pub sync_single_file_missing :
    (fuel : ℕ) (peers : Peers) (job : SyncJob) (disk : Disk) (a : FileServer)
    → AllUp peers
    → a.files (relative (join_path job.source.dir job.filename)) ≡ none
    → sync_single_file fuel peers job
        (handle_pull_command disk a (join_path job.source.dir job.filename))
      ≡ some (
          failed
            (bounded max_command_size (pull_line (join_path job.source.dir job.filename)) ∷ [])
            [])
sync_single_file_missing fuel peers job disk a up e =
    rw (missing_answer disk a (join_path job.source.dir job.filename) e) (
      asking fuel peers job _ [] _ up (
        recv_whole (max_buffer_size - 1) (b'-' ∷ b'1' ∷ 32 ∷ take 60 disk.error_text) [] (λ q. cc)
          (omega (arith, length-take 60 disk.error_text)))
      ∙ refusal fuel peers _ _ (take 60 disk.error_text) [])

-- What any run of `sync_single_file` comes to.
pub data Returned (stream : Stream) (r : Option Transfer) : Type 0 where
  returned : (t : Transfer) → r ≡ some t → t.transferred ≤ stream_size stream → Returned stream r

Returned-failed : (stream : Stream) (s t : List Bytes) → Returned stream (some (failed s t))
Returned-failed stream s t = returned (failed s t) refl (omega arith)

split_header_size :
    (s head tail : Bytes) → split_header s ≡ some (head, tail) → length tail ≤ length s
unfolding split_header
split_header_size [] head tail e = absurd (ground arith)
split_header_size (x ∷ s) head tail e = elim (Option-cases (split_header s)) [
  | inl none_left ↦ ground arith
  | inr ((h, t), q) ↦ ground (arith, split_header_size s h t q)
]

-- The loop ends, and passes on no more bytes than the stream has.
data RelayEnds (r : Option (List Bytes × ℕ)) (most : ℕ) : Type 0 where
  relay_ends : (sends : List Bytes) (n : ℕ) → r ≡ some (sends, n) → n ≤ most → RelayEnds r most

relay-RelayEnds :
    (fuel total size : ℕ) (path : Bytes) (stream : Stream)
    → stream_size stream < fuel
    → RelayEnds (relay fuel path total size stream) (total + stream_size stream)
unfolding relay
relay-RelayEnds zero total size path stream f = absurd (omega arith)
relay-RelayEnds (suc fuel) total size path stream f = elim (Bool-cases (ltb total size)) [
  | inr over ↦ relay_ends [] total (rw (relay, over)) (omega arith)
  | inl more ↦ elim (Option-cases (recv max_buffer_size stream)) [
    | inl ended ↦ relay_ends [] total (rw (relay, more, ended)) (omega arith)
    | inr ((b, rest), e) ↦
        let size_b = recv_size max_buffer_size stream b rest (omega arith) e in
        elim (relay-RelayEnds fuel (total + length b) size path rest (omega (arith, size_b))) [
          | relay_ends sends n q le ↦
              relay_ends (send_chunk path b ++ sends) n (rw (relay, more, e, q))
                (omega (arith, size_b))
        ]
  ]
]

transfer_data-Returned :
    (fuel size : ℕ) (asked : List Bytes) (path first : Bytes) (stream whole : Stream)
    → stream_size stream < fuel
    → length first + stream_size stream ≤ stream_size whole
    → Returned whole (transfer_data fuel asked path size first stream)
unfolding transfer_data
transfer_data-Returned fuel size asked path first stream whole f h =
    elim (relay-RelayEnds fuel (length first) size path stream f) [
      | relay_ends sends n q le ↦ rw (transfer_data, q) (returned _ refl (omega arith))
    ]

transfer_file-Returned :
    (fuel : ℕ) (peers : Peers) (asked : List Bytes) (path response : Bytes) (stream whole : Stream)
    → stream_size stream < fuel
    → length response + stream_size stream ≤ stream_size whole
    → Returned whole (transfer_file fuel peers asked path response stream)
unfolding transfer_file
transfer_file-Returned fuel peers asked path response stream whole f h =
    elim (Option-cases (split_header response)) [
      | inl e ↦ rw (transfer_file, e) (Returned-failed whole asked [])
      | inr ((head, first), e) ↦ elim (ℤ-cases (atol (c_string response))) [
        | inl (n, q) ↦ rw (transfer_file, e, q) (Returned-failed whole asked [])
        | inr (n, q) ↦ elim (Bool-cases peers.start_sent) [
          | inl up ↦
              rw (transfer_file, e, q, up)
                (transfer_data-Returned fuel n asked path first stream whole f
                  (omega (arith, split_header_size response head first e)))
          | inr down ↦ rw (transfer_file, e, q, down) (Returned-failed whole asked _)
        ]
      ]
    ]

-- Whatever the peers do and the source sends, fuel above the number of bytes on the connection is
-- enough: `sync_single_file` returns, and has passed on no more bytes than the source sent.
pub sync_single_file-Returned :
    (fuel : ℕ) (peers : Peers) (job : SyncJob) (stream : Stream)
    → stream_size stream < fuel
    → Returned stream (sync_single_file fuel peers job stream)
unfolding sync_single_file
sync_single_file-Returned fuel peers job stream f = elim (Bool-cases peers.source_connects) [
  | inr e ↦ rw (sync_single_file, e) (Returned-failed stream [] [])
  | inl e ↦ elim (Bool-cases peers.target_connects) [
    | inr e1 ↦ rw (sync_single_file, e, e1) (Returned-failed stream [] [])
    | inl e1 ↦ elim (Bool-cases peers.pull_sent) [
      | inr e2 ↦ rw (sync_single_file, e, e1, e2) (Returned-failed stream _ [])
      | inl e2 ↦ elim (Option-cases (recv (max_buffer_size - 1) stream)) [
        | inl q ↦ rw (sync_single_file, e, e1, e2, q) (Returned-failed stream _ [])
        | inr ((response, rest), q) ↦
            let size = recv_size (max_buffer_size - 1) stream response rest (omega arith) q in
            rw (sync_single_file, e, e1, e2, q)
              (transfer_file-Returned fuel peers _ _ response rest stream (omega (arith, size))
                (omega (arith, size)))
      ]
    ]
  ]
]
