-- ===== src/Transfer/Relay.antt =====
-- What `sync_single_file` sends to the target when the source answers with a file.
use nfs_system.Base.{
  ℕ, zero, suc, ◌+◌, ◌≤◌, ◌<◌, List, [], ◌∷◌, ◌++◌, append_assoc, append-nil, some, true, ltb,
  length, length-append, ◌≡◌, ◌≢◌, refl, ap, arith, sym, ◌∙◌, All, Bool-cases, inl, inr, lt→ltb,
}
use nfs_system.Text.{Bytes}
use nfs_system.Net.{Stream, recv, flatten}
use nfs_system.Net.Laws.{stream_size, bounded_short}
use nfs_system.Net.Receive.{IsSolid, received, recv-Received, length-flatten}
use nfs_system.Protocol.{push_chunk, push_end}
use nfs_system.Client.Commands.{IsPath, length-commands}
use nfs_system.Client.Push.{IsChunk}
use nfs_system.Client.Upload.{deliver, contents}
use nfs_system.Transfer.{relay, send_chunk, max_command_size, max_buffer_size}

length_pos : (b : Bytes) → b ≢ [] → 0 < length b
length_pos [] ne = absurd (ne refl)
length_pos (x ∷ b) ne = omega arith

-- The chunks of `deliver`, without the end mark.
abbrev pub framed : Bytes → List Stream → Stream
framed path [] = []
framed path (segs ∷ cs) = push_chunk path (length (flatten segs)) ∷ (segs ++ framed path cs)

pub deliver-framed :
    (path : Bytes) (cs : List Stream) → deliver path cs ≡ framed path cs ++ push_end path ∷ []
deliver-framed path [] = refl
deliver-framed path (segs ∷ cs) =
    ap (◌∷◌ (push_chunk path (length (flatten segs))))
      (rw (deliver-framed path cs) (sym (append_assoc segs (framed path cs) (push_end path ∷ []))))

pub single-IsChunk : (b : Bytes) → b ≢ [] → length b ≤ max_buffer_size → IsChunk (b ∷ [])
single-IsChunk [] ne h = absurd (ne refl)
single-IsChunk (x ∷ b) ne h = record {
  solid = (ne, tt);
  some_bytes = omega (arith, length-append b []);
  within = omega (arith, length-append b []);
}

-- A chunk's two sends are what `deliver` has for it.
pub send_chunk-framed :
    (path b : Bytes) (cs : List Stream)
    → IsPath path
    → send_chunk path b ++ framed path cs ≡ framed path ((b ∷ []) ∷ cs)
unfolding send_chunk
send_chunk-framed path b cs h = rw (
  bounded_short max_command_size (push_chunk path (length b))
      (omega (arith, length-commands path (length b) h)),
  append-nil b,
)

-- The loop passes on every byte that the source sends, in chunks that fit the server's buffer.
pub data Relayed (path : Bytes) (fuel total size : ℕ) (stream : Stream) : Type 0 where
  relayed :
      (cs : List Stream)
      → relay fuel path total size stream ≡ some (framed path cs, total + stream_size stream)
      → contents cs ≡ flatten stream
      → All IsChunk cs
      → Relayed path fuel total size stream

relay_ended :
    (fuel total size : ℕ) (path : Bytes) → relay (suc fuel) path total size [] ≡ some ([], total)
unfolding relay recv
relay_ended fuel total size path = elim (Bool-cases (ltb total size)) [
  | inl e ↦ rw (relay, e)
  | inr e ↦ rw (relay, e)
]

relay_round :
    (fuel total size : ℕ) (path b : Bytes) (stream rest : Stream) (sends : List Bytes) (n : ℕ)
    → ltb total size ≡ true
    → recv max_buffer_size stream ≡ some (b, rest)
    → relay fuel path (total + length b) size rest ≡ some (sends, n)
    → relay (suc fuel) path total size stream ≡ some (send_chunk path b ++ sends, n)
unfolding relay
relay_round fuel total size path b stream rest sends n h e r = rw (relay, h, e, r)

pub relay-Relayed :
    (path : Bytes)
    → IsPath path
    → (fuel total size : ℕ) (stream : Stream) → stream_size stream < fuel
    → total + stream_size stream ≤ size
    → IsSolid stream
    → Relayed path fuel total size stream
relay-Relayed path h zero total size stream f e solid = absurd (omega arith)
relay-Relayed path h (suc fuel) total size [] f e solid =
    relayed [] (relay_ended fuel total size path ∙ ap (λ n. some ([], n)) (omega arith)) refl tt
relay-Relayed path h (suc fuel) total size (seg ∷ rest) f e solid =
    elim (recv-Received max_buffer_size seg rest (omega arith) solid) [
      | received b t r ne fits same left ↦
          let size_b : length b + stream_size t ≡ stream_size (seg ∷ rest) = omega (
            arith,
            length-append b (flatten t),
            length-flatten t,
            length-flatten (seg ∷ rest),
            ap length same,
          ) in
          let more = length_pos b ne in
          elim (relay-Relayed path h fuel (total + length b) size t (omega arith) (omega arith)
            left) [
              | relayed cs q c k ↦
                  relayed ((b ∷ []) ∷ cs)
                    (relay_round fuel total size path b (seg ∷ rest) t (framed path cs)
                        (total + length b + stream_size t) (lt→ltb total size (omega arith)) r q
                      ∙ rw (send_chunk-framed path b cs h)
                          (ap (λ x. some (framed path ((b ∷ []) ∷ cs), x)) (omega arith)))
                    (rw (append-nil b, c) (sym same)) (single-IsChunk b ne fits, k)
            ]
    ]
