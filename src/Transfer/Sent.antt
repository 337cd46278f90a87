-- ===== src/Transfer/Sent.antt =====
-- What `sync_single_file` sends to the target from the first data on, as a whole.
use nfs_system.Base.{
  ℕ, ◌+◌, ◌≤◌, ◌<◌, List, [], ◌∷◌, ◌++◌, append_assoc, append-nil, Option, some, true, length,
  length-append, ◌≡◌, refl, ap, arith, sym, ◌∙◌, All, lt→ltb,
}
use nfs_system.Text.{Bytes}
use nfs_system.Text.Search.{Lacks}
use nfs_system.Net.{Stream, flatten, bounded}
use nfs_system.Net.Laws.{stream_size, bounded_short}
use nfs_system.Net.Receive.{IsSolid, length-flatten}
use nfs_system.Protocol.{push_start, push_end}
use nfs_system.Client.Commands.{IsPath, length-commands}
use nfs_system.Client.Push.{IsChunk}
use nfs_system.Client.Upload.{deliver, contents}
use nfs_system.Store.{success}
use nfs_system.Transfer.{
  Peers, Transfer, succeeded, transfer_data, split_header, send_chunk, max_command_size,
  max_buffer_size,
}
use nfs_system.Transfer.Relay.{
  framed, deliver-framed, single-IsChunk, send_chunk-framed, relayed, relay-Relayed,
}

pub split_header-append :
    (head tail : Bytes)
    → Lacks 0 head
    → Lacks 32 head
    → split_header (head ++ 32 ∷ tail) ≡ some (head, tail)
unfolding split_header
split_header-append [] tail h k = refl
split_header-append (x ∷ head) tail (hx, h) (kx, k) =
    ground (arith, split_header-append head tail h k)

-- All calls on the connections succeed.
pub record AllUp (peers : Peers) : Type 0 where
  pub source_connects : peers.source_connects ≡ true
  pub target_connects : peers.target_connects ≡ true
  pub pull_sent : peers.pull_sent ≡ true
  pub start_sent : peers.start_sent ≡ true

-- A transfer that has sent the file in chunks.
pub data Sent (path content : Bytes) (r : Option Transfer) : Type 0 where
  sent :
      (t : Transfer) (cs : List Stream)
      → r ≡ some t
      → t.status ≡ success
      → t.transferred ≡ length content
      → t.to_target ≡ push_start path ∷ deliver path cs
      → contents cs ≡ content
      → All IsChunk cs
      → Sent path content r

abbrev sends : Bytes → List Bytes → List Stream → List Bytes
sends path start cs =
    bounded max_command_size (push_start path)
    ∷ (start ++ (framed path cs ++ bounded max_command_size (push_end path) ∷ []))

-- What is sent is the script that `deliver` describes.
script :
    (path : Bytes) (start : List Bytes) (cs all : List Stream)
    → IsPath path
    → start ++ framed path cs ≡ framed path all
    → sends path start cs ≡ push_start path ∷ deliver path all
script path start cs all h e =
    rw
      (
        bounded_short max_command_size (push_start path) (omega (arith, length-commands path 0 h)),
        bounded_short max_command_size (push_end path) (omega (arith, length-commands path 0 h)),
        deliver-framed path all,
      )
      (ap (◌∷◌ (push_start path)) (
        sym (append_assoc start (framed path cs) (push_end path ∷ []))
        ∙ ap (λ l. l ++ push_end path ∷ []) e))

pub transfer_data-Sent :
    (fuel n : ℕ) (asked : List Bytes) (path first : Bytes) (stream : Stream)
    → IsPath path
    → length first ≤ max_buffer_size
    → length first + stream_size stream ≤ n
    → IsSolid stream
    → stream_size stream < fuel
    → Sent path (first ++ flatten stream) (transfer_data fuel asked path n first stream)
unfolding transfer_data
transfer_data-Sent fuel n asked path [] stream h fits below solid f =
    elim (relay-Relayed path h fuel 0 n stream f below solid) [
      | relayed cs q c k ↦
          sent (succeeded asked (sends path [] cs) (0 + stream_size stream)) cs
            (rw (transfer_data, q)) refl (omega (arith, length-flatten stream))
            (script path [] cs cs h refl) c k
    ]
transfer_data-Sent fuel n asked path (x ∷ first) stream h fits below solid f =
    elim (relay-Relayed path h fuel (length (x ∷ first)) n stream f below solid) [
      | relayed cs q c k ↦
          sent
            (succeeded asked (sends path (send_chunk path (x ∷ first)) cs)
              (length (x ∷ first) + stream_size stream))
            (((x ∷ first) ∷ []) ∷ cs)
            (rw (transfer_data, q, lt→ltb 0 (length (x ∷ first)) (omega arith))) refl
            (omega (arith, length-append first (flatten stream), length-flatten stream))
            (script path (send_chunk path (x ∷ first)) cs (((x ∷ first) ∷ []) ∷ cs) h
              (send_chunk-framed path (x ∷ first) cs h))
            (rw (append-nil first, c)) (single-IsChunk (x ∷ first) (λ e. cc) fits, k)
    ]
