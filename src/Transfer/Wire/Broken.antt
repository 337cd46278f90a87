-- ===== src/Transfer/Wire/Broken.antt =====
-- `sync_single_file` where the connection to the target breaks within the upload.
use nfs_system.Base.{
  ℕ, ◌-◌, List, [], ◌∷◌, Option, none, some, true, length, take_all, ℤ-cases, ◌≡◌, refl, ap, sym,
  ◌∙◌, arith, Bool-cases, Option-cases, inl, inr, subst,
}
use mathlib.Core.Option
use nfs_system.Text.{Bytes}
use nfs_system.Text.Number.{atol}
use nfs_system.Net.{Stream, recv, c_string, bounded}
use nfs_system.Net.Sockets.{send_command}
use nfs_system.Protocol.{pull_line, push_start}
use nfs_system.Store.{success}
use nfs_system.Pool.{SyncJob}
use nfs_system.Transfer.{
  Peers, Transfer, failed, split_header, relay, transfer_data, transfer_file, sync_single_file,
  join_path, max_buffer_size, max_command_size,
}
use nfs_system.Transfer.Wire.{Wire, send, send_all, forward_single_file}
use nfs_system.Transfer.Wire.Refine.{on_wire, start_goes, forward_single_file-refines}

-- A run that succeeds has sent `start` first.
abbrev Begins : Bytes → Option Transfer → Type 0
Begins start none = Unit
Begins start (some t) = t.status ≡ success → (more : List Bytes) × (t.to_target ≡ start ∷ more)

failed-Begins : (start : Bytes) (s t : List Bytes) → Begins start (some (failed s t))
failed-Begins start s t e = absurd (cc)

transfer_data-Begins :
    (fuel size : ℕ) (asked : List Bytes) (path first : Bytes) (stream : Stream)
    → Begins
        (bounded max_command_size (push_start path))
        (transfer_data fuel asked path size first stream)
unfolding transfer_data
transfer_data-Begins fuel size asked path first stream =
    elim (Option-cases (relay fuel path (length first) size stream)) [
      | inl q ↦ rw (transfer_data, q) tt
      | inr ((sends, n), q) ↦ rw (transfer_data, q) (λ e. (_, refl))
    ]

transfer_file-Begins :
    (fuel : ℕ) (peers : Peers) (asked : List Bytes) (path response : Bytes) (stream : Stream)
    → Begins
        (bounded max_command_size (push_start path))
        (transfer_file fuel peers asked path response stream)
unfolding transfer_file
transfer_file-Begins fuel peers asked path response stream =
    let start = bounded max_command_size (push_start path) in
    elim (Option-cases (split_header response)) [
      | inl e ↦ rw (transfer_file, e) (failed-Begins start asked [])
      | inr ((head, first), e) ↦ elim (ℤ-cases (atol (c_string response))) [
        | inl (n, q) ↦ rw (transfer_file, e, q) (failed-Begins start asked [])
        | inr (n, q) ↦ elim (Bool-cases peers.start_sent) [
          | inl up ↦
              rw (transfer_file, e, q, up) (transfer_data-Begins fuel n asked path first stream)
          | inr down ↦ rw (transfer_file, e, q, down) (failed-Begins start asked _)
        ]
      ]
    ]

sync_single_file-Begins :
    (fuel : ℕ) (peers : Peers) (job : SyncJob) (stream : Stream)
    → Begins
        (bounded max_command_size (push_start (join_path job.target.dir job.filename)))
        (sync_single_file fuel peers job stream)
unfolding sync_single_file
sync_single_file-Begins fuel peers job stream =
    let start = bounded max_command_size (push_start (join_path job.target.dir job.filename)) in
    let asked = bounded max_command_size (pull_line (join_path job.source.dir job.filename)) ∷ [] in
    elim (Bool-cases peers.source_connects) [
      | inr e ↦ rw (sync_single_file, e) (failed-Begins start [] [])
      | inl e ↦ elim (Bool-cases peers.target_connects) [
        | inr e1 ↦ rw (sync_single_file, e, e1) (failed-Begins start [] [])
        | inl e1 ↦ elim (Bool-cases peers.pull_sent) [
          | inr e2 ↦ rw (sync_single_file, e, e1, e2) (failed-Begins start asked [])
          | inl e2 ↦ elim (Option-cases (recv (max_buffer_size - 1) stream)) [
            | inl q ↦ rw (sync_single_file, e, e1, e2, q) (failed-Begins start asked [])
            | inr ((response, rest), q) ↦
                rw (sync_single_file, e, e1, e2, q)
                  (transfer_file-Begins fuel peers _ _ response rest)
          ]
        ]
      ]
    ]

-- A connection that takes `start` and then breaks.
abbrev pub breaks_behind : Bytes → Wire
breaks_behind start = record { results = some (length start) ∷ []; taken = [] }

abbrev pub broken_behind : Bytes → Wire
broken_behind start = record { results = []; taken = start }

send_broken : (s : Bytes) (bs : List Bytes) → send_all (broken_behind s) bs ≡ broken_behind s
unfolding send_all send
send_broken s [] = refl
send_broken s (b ∷ bs) = send_broken s bs

send_start :
    (start : Bytes) → send (breaks_behind start) start ≡ (some (length start), broken_behind start)
unfolding send
send_start start =
    ap (λ b. (some (length start), broken_behind b)) (take_all (length start) start (omega arith))

start_taken : (start : Bytes) → send_command (some (length start)) start ≡ true
unfolding send_command
start_taken start = ground arith

-- Where `sync_single_file` succeeds, it succeeds as well, with the same count, when the connection
-- to the target breaks right behind the start of the upload, which is then all that the target gets,
-- and the process ignores SIGPIPE.
pub forward_single_file-lost :
    (fuel : ℕ) (peers : Peers) (job : SyncJob) (stream : Stream) (t : Transfer)
    → peers.start_sent ≡ true
    → sync_single_file fuel peers job stream ≡ some t
    → t.status ≡ success
    → forward_single_file fuel peers job stream (
        breaks_behind
          (bounded max_command_size (push_start (join_path job.target.dir job.filename))))
      ≡ some (record {
        status = success;
        wire =
            broken_behind
              (bounded max_command_size (push_start (join_path job.target.dir job.filename)));
        transferred = t.transferred;
      })
unfolding send_all
forward_single_file-lost fuel peers job stream t up e ok =
    let start = bounded max_command_size (push_start (join_path job.target.dir job.filename)) in
    let goes : start_goes (breaks_behind start) (join_path job.target.dir job.filename) ≡ true =
      ap (λ a. send_command a.0 start) (send_start start) ∙ start_taken start in
    let begins = subst (Begins start) e (sync_single_file-Begins fuel peers job stream) ok in
    let left : send_all (breaks_behind start) t.to_target ≡ broken_behind start =
      ap (send_all (breaks_behind start)) begins.1
      ∙ ap (λ a. send_all a.1 begins.0) (send_start start)
      ∙ send_broken start begins.0 in
    forward_single_file-refines fuel peers job stream (breaks_behind start) (up ∙ sym goes)
    ∙ ap (Option.map (on_wire (breaks_behind start))) e
    ∙ ap (λ v. some (record { status = t.status; wire = v; transferred = t.transferred })) left
    ∙ ap
        (λ v. some (record { status = v; wire = broken_behind start; transferred = t.transferred }))
        ok
