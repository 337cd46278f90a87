-- ===== src/Client/Main.antt =====
-- nfs_client.c: the arguments of the file server and its socket.
use nfs_system.Base.{ℕ, List, [], ◌∷◌, Option, none, some, ℤ, is_positive, if◌then◌else◌}
use nfs_system.Text.{Bytes, codes, str_eq}
use nfs_system.Text.Number.{atoi}
use nfs_system.Process.{Sys, pure}
use nfs_system.Net.Sockets.{create_server_socket}

-- The arguments behind the program's name; `none` is the exit with status 1.
unfoldable pub client_port : List Bytes → Option ℤ
client_port (option ∷ value ∷ []) =
    if str_eq option (codes "-p")
    then (if is_positive (atoi value) then some (atoi value) else none)
    else none
client_port _ = none

-- Up to the loop over the connections: the socket that it accepts from.
unfoldable pub start_client : List Bytes → Sys (Option ℕ)
start_client arguments = elim (client_port arguments) [
  | none ↦ pure none
  | some port ↦ create_server_socket port
]
