-- ===== src/Lib.antt =====
-- A verification library of the NFS system: a manager (src/nfs_manager.c, src/nfs_manager_logic.c)
-- copies directories between file servers (src/nfs_client.c, src/nfs_client_logic.c), one file per job,
-- by a pool of worker threads (src/thread_pool.c); a console (src/nfs_console.c) sends it commands; the
-- pairs of directories stand in a store (src/sync_info.c), and src/utils.c parses them.
--
-- The parts, and where they are:
--   Base      the shared names: lists and integers over the native numbers, and `Exec`, the result of
--             C code that may write past the end of an array, after which nothing is promised.
--   Text      C strings as lists of bytes, with strchr, %s, %d, atoi, atol and the printing of
--             numbers as the C library has them.
--   Spec      src/utils.c: parse_directory_spec, parse_config_line.
--   Process   the calls of the operating system, each of which may fail, and what a process holds by
--             them: sockets, files, memory, mutexes, conditions and threads. The modules named Life
--             or Main say by it what the functions take and give back; Net.Sockets has the sockets.
--   Log       src/utils.c: log_message.
--   Store     src/sync_info.c: the list of the pairs; Store.Refine has the map that it implements,
--             Store.Life what its creation and destruction take and give back, Store.Print its texts.
--   Pool      src/thread_pool.c: the queue as a list of jobs, Pool.Queue the linked list on a heap,
--             Pool.Threads the workers and the enqueuing thread as interleaved steps,
--             Pool.Threads.Closing the shutdown and the joins in smaller steps, Pool.Life the
--             creation and the destruction of the pool.
--   Net       a connection as the list of the segments to arrive; one `recv` returns bytes of one
--             segment. Every way in which TCP cuts or joins what was sent is such a list.
--   Protocol  the commands LIST, PULL and PUSH as they are written to the connections.
--   Client    src/nfs_client_logic.c: handle_list_command, handle_pull_command, handle_push_command;
--             Client.Serve has the loop handle_client_connection, Client.Accept that of main,
--             Client.Main the argument and the socket, Client.Sends the PULL of a file in any pieces.
--   Transfer  src/thread_pool.c: sync_single_file, between a source's and a target's connection;
--             Transfer.Wire has what each send to the target returns, Transfer.Life the sockets.
--   Manager   src/nfs_manager_logic.c: start_directory_sync, the commands add, cancel and shutdown,
--             load_config_file; Manager.Arguments has parse_arguments, and Manager.Console the loops
--             of handle_console_connection and of main. Manager.Life has initialize_manager and
--             cleanup_manager, Manager.Life.Serve what the commands and the workers take and give
--             back, and Manager.Life.Main the main of src/nfs_manager.c around them.
--   Console   src/nfs_console.c: process_user_command and the loop of main; Console.Main has its
--             arguments, its log and its connection.
--   Tests     the theorems at concrete inputs.
--
-- How they interact. The console's lines become commands (Console.Laws, Console.Shutdown) that
-- Manager.Console dispatches to Manager; handle_add_command parses by Spec, enters the pair in Store,
-- reads the listing of a file server (Manager.Start) and offers one job per file. In Manager the
-- queue is the list of the jobs that it has taken; Pool.Threads has its bound, its waits and its
-- workers, which give each job to sync_single_file; Pool.Threads.Feed has the thread that gives the
-- jobs one after the other. Transfer.EndToEnd composes the source's server, the transfer and the
-- target's server, Transfer.Directory does so for the jobs of a pair one after the other, and
-- Manager.Mirror begins with the listing that queues them and has them go through the pool's workers.
--
-- Parameters. The file system below a server (`Disk`), the outcome of the calls on connections
-- (`Peers`, `World`), the events of select, recv, accept and signals, whether each call of the
-- operating system succeeds (`Process`), and the time are arguments. A theorem names what it needs of
-- them.
--
-- Bounds and fuel. The loops over a connection take fuel; each round receives at least one byte, so
-- fuel above the number of bytes to come is enough (Client.Ends, Transfer.Failures). The loop that
-- stores a chunk takes the bytes that are left as its fuel, and the one that reads a file the length
-- of the file. The sizes are those of include/common.h. The type `int` wraps by atoi, atol clamps to
-- `long`, and the counters of the store and of the queue are natural numbers, far below 2 ^ 31.
--
-- Not modelled: the bytes of addresses, the prints of the programs but that of the store, pointers
-- that are NULL by a mistake of the caller, a second signal and SIGPIPE, which end the program at
-- once, a signal within a command (a signal comes in select), and what the program does after it has
-- overrun an array. Memory that runs out is modelled where a module named Life has the function, and
-- nowhere else. Whether a thread that is joined ends is said by Pool.Threads for the shutdown, and
-- not by Pool.Life. A server reads regular files only, and a write that is refused stores nothing.
pub mod Base
pub mod Text
pub mod Spec
pub mod Process
pub mod Log
pub mod Store
pub mod Pool
pub mod Net
pub mod Protocol
pub mod Client
pub mod Transfer
pub mod Manager
pub mod Console
mod Tests
