-- ===== src/Net/Sockets.antt =====
-- utils.c: the functions that open, use and close a socket, over the calls of the operating system.
-- A result -1 is `none` or `false`; the messages to `stderr` are not modelled.
use nfs_system.Base.{
  ℕ, ◌+◌, ◌-◌, ◌%◌, ◌^◌, List, ◌∷◌, Option, none, some, Bool, false, ◌==◌, if◌then◌else◌, length,
  take, ℤ, pos, negsuc, ◌≡◌, ap, arith,
}
use nfs_system.Text.{Bytes}
use nfs_system.Process.{
  Sys, pure, ◌>>=◌, ◌>>◌, ask, acquire_call, Resource, acquire, release, resource, socket,
  setsockopt, bind, listen, inet_pton, connect,
}
use nfs_system.Process.Laws.{
  Keeps, grant, release-Keeps, pure-Keeps, >>-Keeps, ask-then, acquire-then,
}

-- include/common.h
abbrev pub max_connections : ℕ
max_connections = 10

-- `htons`: its argument is a `uint16_t`.
unfoldable pub htons : ℤ → ℕ
htons (pos n) = n % 2 ^ 16
htons (negsuc n) = (2 ^ 32 - 1 - n) % 2 ^ 16

-- `close(sockfd); return -1`
unfoldable pub close_and_fail : ℕ → Sys (Option ℕ)
close_and_fail fd = release (resource socket fd) >> pure none

-- `create_server_socket`, by the port in the address.
unfoldable pub open_listener : ℕ → Sys (Option ℕ)
unfolding close_and_fail
open_listener sin_port = do
  sockfd ← acquire socket
  elim sockfd [
    | none ↦ pure none
    | some fd ↦ do
      reusable ← ask (setsockopt fd)
      if reusable
          then (do
            bound ← ask (bind fd sin_port)
            if bound
                then (do
                  listening ← ask (listen fd max_connections)
                  if listening then pure (some fd) else close_and_fail fd)
                else close_and_fail fd)
          else close_and_fail fd
  ]

unfoldable pub create_server_socket : ℤ → Sys (Option ℕ)
unfolding htons
create_server_socket port = open_listener (htons port)

-- `connect_to_server`, by the port in the address. `host` is not NULL.
unfoldable pub open_connection : Bytes → ℕ → Sys (Option ℕ)
unfolding close_and_fail
open_connection host sin_port = do
  sockfd ← acquire socket
  elim sockfd [
    | none ↦ pure none
    | some fd ↦ do
      valid ← ask (inet_pton host)
      if valid
          then (do
            connected ← ask (connect fd host sin_port)
            if connected then pure (some fd) else close_and_fail fd)
          else close_and_fail fd
  ]

unfoldable pub connect_to_server : Bytes → ℤ → Sys (Option ℕ)
unfolding htons
connect_to_server host port = open_connection host (htons port)

-- A descriptor below 0 is `none`.
unfoldable pub cleanup_socket : Option ℕ → Sys Unit
cleanup_socket none = pure tt
cleanup_socket (some fd) = release (resource socket fd)

-- Whether `send_command` returns 0, by what `send` returned: -1, or how many bytes it took.
unfoldable pub send_command : Option ℕ → Bytes → Bool
send_command none command = false
send_command (some sent) command = sent == length command

-- `receive_response` into a buffer of `n` bytes, by the bytes that the one `recv` is offered; `none`
-- is an error. The end of the connection is the empty response, and not an error.
unfoldable pub receive_response : ℕ → Option Bytes → Option Bytes
receive_response n none = none
receive_response n (some arrived) = some (take (n - 1) arrived)

htons_wraps : (n : ℕ) → htons (pos (n + 2 ^ 16)) ≡ htons (pos n)
unfolding htons
htons_wraps n = omega arith

-- A port of 2 ^ 16 or more is cut to its last sixteen bits: the server listens, and the client connects,
-- at another port than the one it was given.
pub ports_wrap :
    (n : ℕ) (host : Bytes)
    → (create_server_socket (pos (n + 2 ^ 16)) ≡ create_server_socket (pos n))
      × (connect_to_server host (pos (n + 2 ^ 16)) ≡ connect_to_server host (pos n))
unfolding create_server_socket connect_to_server
ports_wrap n host = (ap open_listener (htons_wraps n), ap (open_connection host) (htons_wraps n))

close_and_fail-Keeps :
    (fd : ℕ) (rs : List Resource)
    → Keeps (resource socket fd ∷ rs) (close_and_fail fd) (grant socket rs)
unfolding close_and_fail
close_and_fail-Keeps fd rs =
    >>-Keeps rs (release-Keeps (resource socket fd) rs) (pure-Keeps none (grant socket rs))

open_listener-Keeps :
    (sin_port : ℕ) (rs : List Resource) → Keeps rs (open_listener sin_port) (grant socket rs)
unfolding open_listener
open_listener-Keeps sin_port rs =
    acquire-then (acquire_call socket) socket (pure-Keeps none (grant socket rs)) (λ fd.
      let fails = close_and_fail-Keeps fd rs in
      ask-then (setsockopt fd)
        (ask-then (bind fd sin_port)
          (ask-then (listen fd max_connections) (pure-Keeps (some fd) (grant socket rs)) fails)
          fails)
        fails)

pub create_server_socket-Keeps :
    (port : ℤ) (rs : List Resource) → Keeps rs (create_server_socket port) (grant socket rs)
unfolding create_server_socket
create_server_socket-Keeps port rs = open_listener-Keeps (htons port) rs

open_connection-Keeps :
    (host : Bytes) (sin_port : ℕ) (rs : List Resource)
    → Keeps rs (open_connection host sin_port) (grant socket rs)
unfolding open_connection
open_connection-Keeps host sin_port rs =
    acquire-then (acquire_call socket) socket (pure-Keeps none (grant socket rs)) (λ fd.
      let fails = close_and_fail-Keeps fd rs in
      ask-then (inet_pton host)
        (ask-then (connect fd host sin_port) (pure-Keeps (some fd) (grant socket rs)) fails) fails)

pub connect_to_server-Keeps :
    (host : Bytes) (port : ℤ) (rs : List Resource)
    → Keeps rs (connect_to_server host port) (grant socket rs)
unfolding connect_to_server
connect_to_server-Keeps host port rs = open_connection-Keeps host (htons port) rs
