-- ===== src/Transfer/Wire.antt =====
-- thread_pool.c: `sync_single_file` with what each `send` to the target returns. Only the first result
-- is looked at, by `send_command`; the later ones change what the target gets, and nothing else.
pub mod Refine
pub mod Broken
use nfs_system.Base.{
  ℕ, zero, suc, ◌+◌, ◌-◌, List, [], ◌∷◌, ◌++◌, Option, none, some, Bool, true, false, ltb, not,
  if◌then◌else◌, length, take, take_all, ℤ, pos, negsuc, ◌≡◌, refl, ap, sym, ◌∙◌, arith, Bool-cases,
  Option-cases, inl, inr,
}
use nfs_system.Text.{Bytes}
use nfs_system.Text.Number.{atol}
use nfs_system.Net.{Stream, recv, c_string, bounded}
use nfs_system.Net.Sockets.{send_command}
use nfs_system.Protocol.{push_start, push_chunk, push_end}
use nfs_system.Store.{Status, success, failure}
use nfs_system.Pool.{SyncJob}
use nfs_system.Transfer.{
  Peers, Transfer, failed, succeeded, split_header, send_chunk, relay, transfer_data, transfer_file,
  sync_single_file, join_path, max_buffer_size, max_command_size,
}

-- The connection to the target: the results of the calls to come, each -1 or how many bytes are taken,
-- and the bytes taken so far. Behind the last result the connection is broken, and each call returns
-- -1, as it does where the process ignores SIGPIPE; by default the signal ends the process.
pub record Wire : Type 0 where
  pub results : List (Option ℕ)
  pub taken : Bytes

abbrev pub accepted : Option ℕ → Bytes → Bytes
accepted none b = []
accepted (some k) b = take k b

-- `send`
unfoldable pub send : Wire → Bytes → Option ℕ × Wire
send w b = elim w.results [
  | [] ↦ (none, w)
  | r ∷ rs ↦ (r, record { results = rs; taken = w.taken ++ accepted r b })
]

-- The two sends of a chunk, and all sends of a list.
unfoldable pub send_all : Wire → List Bytes → Wire
send_all w [] = w
send_all w (b ∷ bs) = send_all (send w b).1 bs

-- The status, the connection and `total_transferred`.
pub record Forwarded : Type 0 where
  pub status : Status
  pub wire : Wire
  pub transferred : ℕ

abbrev pub stopped_at : Wire → Forwarded
stopped_at w = record { status = failure; wire = w; transferred = 0 }

-- The loop that passes the file on.
unfoldable pub forward_rest : ℕ → Bytes → ℕ → ℕ → Stream → Wire → Option (Wire × ℕ)
forward_rest zero path total size stream w = none
forward_rest (suc fuel) path total size stream w = elim (ltb total size) [
  | false ↦ some (w, total)
  | true ↦ elim (recv max_buffer_size stream) [
    | none ↦ some (w, total)
    | some (b, rest) ↦
        let header_sent = (send w (bounded max_command_size (push_chunk path (length b)))).1 in
        forward_rest fuel path (total + length b) size rest (send header_sent b).1
  ]
]

-- From the first data on, behind the start of the upload.
unfoldable pub forward_data : ℕ → Bytes → ℕ → Bytes → Stream → Wire → Option Forwarded
forward_data fuel path size first stream w =
    let header_sent = (send w (bounded max_command_size (push_chunk path (length first)))).1 in
    let begun = if ltb 0 (length first) then (send header_sent first).1 else w in
    elim (forward_rest fuel path (length first) size stream begun) [
      | none ↦ none
      | some (v, n) ↦ some (record {
        status = success;
        wire = (send v (bounded max_command_size (push_end path))).1;
        transferred = n;
      })
    ]

-- From the answer to PULL on.
unfoldable pub forward_file : ℕ → Bytes → Bytes → Stream → Wire → Option Forwarded
forward_file fuel path response stream w = elim (split_header response) [
  | none ↦ some (stopped_at w)
  | some (head, first) ↦ elim (atol (c_string response)) [
    | negsuc n ↦ some (stopped_at w)
    | pos size ↦
        let start = bounded max_command_size (push_start path) in
        let sent = send w start in
        if send_command sent.0 start
        then forward_data fuel path size first stream sent.1
        else some (stopped_at sent.1)
  ]
]

-- `peers` says whether the connections and the PULL succeed.
unfoldable pub forward_single_file : ℕ → Peers → SyncJob → Stream → Wire → Option Forwarded
forward_single_file fuel peers job stream w =
    if not peers.source_connects
    then some (stopped_at w)
    else if not peers.target_connects
    then some (stopped_at w)
    else if not peers.pull_sent
    then some (stopped_at w)
    else elim (recv (max_buffer_size - 1) stream) [
      | none ↦ some (stopped_at w)
      | some (response, rest) ↦
          forward_file fuel (join_path job.target.dir job.filename) response rest w
    ]
