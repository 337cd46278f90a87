-- ===== src/Transfer/Wire/Refine.antt =====
-- `sync_single_file` on a connection whose sends may fail, against the one whose sends all go through.
use nfs_system.Base.{
  ℕ, zero, suc, ◌+◌, ◌-◌, List, [], ◌∷◌, ◌++◌, some, Bool, ltb, if◌then◌else◌, length, ℤ-cases, ◌≡◌,
  refl, ap, sym, ◌∙◌, Bool-cases, Option-cases, inl, inr,
}
use mathlib.Core.Option
use nfs_system.Text.{Bytes}
use nfs_system.Text.Number.{atol}
use nfs_system.Net.{Stream, recv, c_string, bounded}
use nfs_system.Net.Sockets.{send_command}
use nfs_system.Protocol.{push_start, push_chunk, push_end}
use nfs_system.Store.{success}
use nfs_system.Pool.{SyncJob}
use nfs_system.Transfer.{
  Peers, Transfer, split_header, send_chunk, relay, transfer_data, transfer_file, sync_single_file,
  join_path, max_buffer_size, max_command_size,
}
use nfs_system.Transfer.Wire.{
  Wire, send, send_all, Forwarded, forward_rest, forward_data, forward_file, forward_single_file,
}

-- A run whose sends all go through, with its sends made on `w`.
abbrev pub on_wire : Wire → Transfer → Forwarded
on_wire w t = record {
  status = t.status;
  wire = send_all w t.to_target;
  transferred = t.transferred;
}

abbrev relayed_on : Wire → List Bytes × ℕ → Wire × ℕ
relayed_on w (sends, n) = (send_all w sends, n)

send_all-append :
    (w : Wire) (bs cs : List Bytes) → send_all w (bs ++ cs) ≡ send_all (send_all w bs) cs
unfolding send_all
send_all-append w [] cs = refl
send_all-append w (b ∷ bs) cs = send_all-append (send w b).1 bs cs

send_all-chunk :
    (w : Wire) (path b : Bytes)
    → send_all w (send_chunk path b)
      ≡ (send (send w (bounded max_command_size (push_chunk path (length b)))).1 b).1
unfolding send_all send_chunk
send_all-chunk w path b = refl

forward_rest-refines :
    (fuel total size : ℕ) (path : Bytes) (stream : Stream) (w : Wire)
    → forward_rest fuel path total size stream w
      ≡ Option.map (relayed_on w) (relay fuel path total size stream)
unfolding forward_rest relay
forward_rest-refines zero total size path stream w = refl
forward_rest-refines (suc fuel) total size path stream w = elim (Bool-cases (ltb total size)) [
  | inr over ↦ rw (forward_rest, relay, over) (unfold send_all in refl)
  | inl more ↦ elim (Option-cases (recv max_buffer_size stream)) [
    | inl ended ↦ rw (forward_rest, relay, more, ended) (unfold send_all in refl)
    | inr ((b, rest), e) ↦
        let v = send_all w (send_chunk path b) in
        rw (forward_rest, more, e, sym (send_all-chunk w path b))
          (forward_rest-refines fuel (total + length b) size path rest v
            ∙ elim (Option-cases (relay fuel path (total + length b) size rest)) [
              | inl q ↦ rw (relay, more, e, q) refl
              | inr ((sends, n), q) ↦
                  rw (relay, more, e, q)
                    (ap (λ u. some (u, n)) (sym (send_all-append w (send_chunk path b) sends)))
            ])
  ]
]

abbrev first_sends : Bytes → Bytes → List Bytes
first_sends path first = if ltb 0 (length first) then send_chunk path first else []

abbrev begun : Bytes → Bytes → Wire → Wire
begun path first w =
    let header_sent = (send w (bounded max_command_size (push_chunk path (length first)))).1 in
    if ltb 0 (length first) then (send header_sent first).1 else w

begun_sends :
    (path first : Bytes) (w : Wire) → begun path first w ≡ send_all w (first_sends path first)
begun_sends path first w = elim (Bool-cases (ltb 0 (length first))) [
  | inr e ↦ rw e (unfold send_all in refl)
  | inl e ↦ rw e (sym (send_all-chunk w path first))
]

-- All sends of an upload, in the order of the code.
upload_on_wire :
    (w : Wire) (start end : Bytes) (chunk sends : List Bytes)
    → (send (send_all (send_all (send w start).1 chunk) sends) end).1
      ≡ send_all w (start ∷ (chunk ++ (sends ++ end ∷ [])))
unfolding send_all
upload_on_wire w start end chunk sends =
    let started = (send w start).1 in
    sym (
      send_all-append started chunk (sends ++ end ∷ [])
      ∙ send_all-append (send_all started chunk) sends (end ∷ []))

forward_data-refines :
    (fuel size : ℕ) (asked : List Bytes) (path first : Bytes) (stream : Stream) (w : Wire)
    → forward_data fuel path size first stream
        (send w (bounded max_command_size (push_start path))).1
      ≡ Option.map (on_wire w) (transfer_data fuel asked path size first stream)
unfolding forward_data transfer_data
forward_data-refines fuel size asked path first stream w =
    let start = bounded max_command_size (push_start path) in
    let end = bounded max_command_size (push_end path) in
    let started = (send w start).1 in
    let rest =
      forward_rest-refines fuel (length first) size path stream (begun path first started) in
    elim (Option-cases (relay fuel path (length first) size stream)) [
      | inl q ↦ rw (forward_data, transfer_data, rest, q) refl
      | inr ((sends, n), q) ↦
          rw (forward_data, transfer_data, rest, q)
            (ap (λ v. some (record { status = success; wire = v; transferred = n }))
              (ap (λ v. (send (send_all v sends) end).1) (begun_sends path first started)
                ∙ upload_on_wire w start end (first_sends path first) sends))
    ]

-- Whether the start of the upload to `path` is taken whole.
abbrev pub start_goes : Wire → Bytes → Bool
start_goes w path =
    let start = bounded max_command_size (push_start path) in send_command (send w start).0 start

forward_file-refines :
    (fuel : ℕ) (peers : Peers) (asked : List Bytes) (path response : Bytes) (stream : Stream)
    (w : Wire)
    → peers.start_sent ≡ start_goes w path
    → forward_file fuel path response stream w
      ≡ Option.map (on_wire w) (transfer_file fuel peers asked path response stream)
unfolding forward_file transfer_file send_all
forward_file-refines fuel peers asked path response stream w start =
    elim (Option-cases (split_header response)) [
      | inl e ↦ rw (forward_file, transfer_file, e) refl
      | inr ((head, first), e) ↦ elim (ℤ-cases (atol (c_string response))) [
        | inl (n, q) ↦ rw (forward_file, transfer_file, e, q) refl
        | inr (n, q) ↦ elim (Bool-cases (start_goes w path)) [
          | inl up ↦
              rw (forward_file, transfer_file, e, q, start, up)
                (forward_data-refines fuel n asked path first stream w)
          | inr down ↦ rw (forward_file, transfer_file, e, q, start, down) refl
        ]
      ]
    ]

-- When `start_sent` of the peers says whether the connection takes the start of the upload whole,
-- `sync_single_file` returns the same as where all later sends go through, with the same count, and
-- makes the same sends, whatever the later ones return.
pub forward_single_file-refines :
    (fuel : ℕ) (peers : Peers) (job : SyncJob) (stream : Stream) (w : Wire)
    → peers.start_sent ≡ start_goes w (join_path job.target.dir job.filename)
    → forward_single_file fuel peers job stream w
      ≡ Option.map (on_wire w) (sync_single_file fuel peers job stream)
unfolding forward_single_file sync_single_file send_all
forward_single_file-refines fuel peers job stream w start =
    elim (Bool-cases peers.source_connects) [
      | inr e ↦ rw (forward_single_file, sync_single_file, e) refl
      | inl e ↦ elim (Bool-cases peers.target_connects) [
        | inr e1 ↦ rw (forward_single_file, sync_single_file, e, e1) refl
        | inl e1 ↦ elim (Bool-cases peers.pull_sent) [
          | inr e2 ↦ rw (forward_single_file, sync_single_file, e, e1, e2) refl
          | inl e2 ↦ elim (Option-cases (recv (max_buffer_size - 1) stream)) [
            | inl q ↦ rw (forward_single_file, sync_single_file, e, e1, e2, q) refl
            | inr ((response, rest), q) ↦
                rw (forward_single_file, sync_single_file, e, e1, e2, q)
                  (forward_file-refines fuel peers _ _ response rest w start)
          ]
        ]
      ]
    ]
