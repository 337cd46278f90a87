-- ===== src/Tests/Server.antt =====
-- The file server, with a disk that fails nothing.
use nfs_system.Base.{Option, List, [], ◌∷◌, ◌++◌, none, some, true, ◌≡◌, ◌≢◌, refl, arith}
use nfs_system.Text.{Bytes, codes}
use nfs_system.Text.Words.{is_space}
use nfs_system.Text.Decimal.{print_nat, digits}
use nfs_system.Net.{Stream, recv}
use nfs_system.Protocol.{push_start}
use nfs_system.Client.{Disk, FileServer, relative}
use nfs_system.Client.Serve.{handle_client_connection, closed, unfinished}
use nfs_system.Client.Ends.{handle_client_connection-ends, session_drops}
use nfs_system.Client.Commands.{IsPath}
use nfs_system.Client.Push.{IsChunk}
use nfs_system.Client.Sends.{Sent, pull_file, pull_file-Sent}
use nfs_system.Client.Accept.{serve_connections, serve_connections-upload}
use nfs_system.Client.Upload.{deliver, holding}

abbrev pub disk : Disk
disk = record {
  opens = λ path. true;
  accepts = λ path b. true;
  is_regular = λ path. true;
  entries = λ path. some (codes "f" ∷ codes ".g" ∷ codes "h" ∷ []);
  error_text = codes "No such file or directory";
}

abbrev pub empty : FileServer
empty = record { files = λ path. none; current_fd = none }

abbrev pub with_file : FileServer
with_file = record { files = λ path. some (codes "hello"); current_fd = none }

abbrev path : Bytes
path = codes "/b/f"

path-IsPath : IsPath path
unfolding is_space
path-IsPath = record {
  word = ((λ e. cc), (refl, (refl, (refl, (refl, tt)))));
  no_nul = ((λ e. cc), ((λ e. cc), ((λ e. cc), ((λ e. cc), tt))));
  fits = omega arith;
}

-- One chunk in two segments.
abbrev chunk : Stream
chunk = codes "hel" ∷ codes "lo" ∷ []

chunk-IsChunk : IsChunk chunk
chunk-IsChunk = record {
  solid = ((λ e. cc), ((λ e. cc), tt));
  some_bytes = omega arith;
  within = omega arith;
}

handle_client_connection-ends_example :
    handle_client_connection disk 20 (codes "LIST /a\n" ∷ codes "x" ∷ []) empty [] ≢ unfinished
handle_client_connection-ends_example =
    handle_client_connection-ends disk 20 (codes "LIST /a\n" ∷ codes "x" ∷ []) empty []
      (omega arith)

-- A PUSH and its data in one segment: the data is lost.
session_drops_example :
    handle_client_connection disk 3 ((codes "PUSH /b -1" ++ 10 ∷ codes "PUSH /b 0\n") ∷ []) empty []
    ≡ handle_client_connection disk 3 ((codes "PUSH /b -1" ++ 10 ∷ []) ∷ []) empty []
session_drops_example =
    session_drops disk 2 (codes "PUSH /b -1") (codes "PUSH /b 0\n") [] empty []
      (
        (λ e. cc),
        (
          (λ e. cc),
          (
            (λ e. cc),
            (
              (λ e. cc),
              ((λ e. cc), ((λ e. cc), ((λ e. cc), ((λ e. cc), ((λ e. cc), ((λ e. cc), tt)))))),
            ),
          ),
        ),
      )
      (
        (λ e. cc),
        (
          (λ e. cc),
          (
            (λ e. cc),
            (
              (λ e. cc),
              ((λ e. cc), ((λ e. cc), ((λ e. cc), ((λ e. cc), ((λ e. cc), ((λ e. cc), tt)))))),
            ),
          ),
        ),
      )
      (omega arith)

-- Five bytes in three calls.
pull_file-Sent_example :
    Sent
      (some 9 ∷ some 2 ∷ some 1 ∷ some 7 ∷ some 1 ∷ some 1 ∷ [])
      (print_nat 5 ++ 32 ∷ codes "hello")
      (pull_file disk true
        (some 9 ∷ some 2 ∷ some 1 ∷ some 7 ∷ some 1 ∷ some 1 ∷ [])
        with_file
        path)
unfolding print_nat digits
pull_file-Sent_example =
    pull_file-Sent disk 9 (some 2 ∷ some 1 ∷ some 7 ∷ some 1 ∷ some 1 ∷ []) with_file path
      (codes "hello") refl (omega arith)
      (omega arith, (omega arith, (omega arith, (omega arith, (omega arith, tt))))) (omega arith)

-- A connection without a command and a failure of `accept` before the upload.
abbrev before : List (Option Stream)
before = some [] ∷ none ∷ []

before_served : serve_connections disk 4 before empty [] ≡ closed empty []
unfolding serve_connections handle_client_connection recv
before_served = refl

serve_connections-upload_example :
    serve_connections disk 4
      (some [] ∷ none ∷ some (push_start path ∷ deliver path (chunk ∷ [])) ∷ [])
      empty
      []
    ≡ closed (holding empty (relative path) (codes "hello")) []
serve_connections-upload_example =
    serve_connections-upload disk 4 before path (chunk ∷ []) empty empty [] path-IsPath refl
      (λ b. refl) before_served (omega arith) (chunk-IsChunk, tt)
