-- ===== src/Tests/Consoles.antt =====
-- A user's lines, from the console to the manager.
use nfs_system.Base.{ℕ, zero, suc, [], ◌∷◌, ◌++◌, true, false, done, overrun, ◌≡◌, refl, arith}
use nfs_system.Text.{Bytes, codes}
use nfs_system.Text.Words.{is_space}
use nfs_system.Text.Search.{Lacks}
use nfs_system.Manager.{handle_add_command, handle_shutdown_command}
use nfs_system.Manager.Console.{
  Handled, respond, add_response, handle_command, arrived, timed_out, connected, serve_consoles,
  stopped, is_serving,
}
use nfs_system.Console.{console_line, process_user_command, run_console, Line}
use nfs_system.Console.Laws.{IsArgument, Reaches, add-Reaches}
use nfs_system.Console.Shutdown.{shutdown_stops}
use nfs_system.Console.Bounds.{short_command_safe, long_command_overruns}
use nfs_system.Tests.Texts.{letters, letters-NoSpaces, length-letters}
use nfs_system.Tests.Managers.{world, idle}

abbrev argument : Bytes
argument = codes "/a"

argument-IsArgument : IsArgument argument
unfolding is_space
argument-IsArgument = record {
  word = ((λ e. cc), (refl, (refl, tt)));
  no_nul = ((λ e. cc), ((λ e. cc), tt));
  fits = omega arith;
}

add-Reaches_example : Reaches (world []) idle [] (codes "add /a /a\n") (codes "add /a /a") false (
    respond
      (handle_add_command (world []) idle argument argument).1
      (codes "add")
      (add_response argument (handle_add_command (world []) idle argument argument).0))
add-Reaches_example =
    add-Reaches (world []) idle [] argument argument argument-IsArgument argument-IsArgument

shutdown_stops_example :
    (run_console ((codes "shutdown\n", true) ∷ (codes "cancel x\n", true) ∷ [])
      ≡ done (codes "shutdown" ∷ []))
    × (serve_consoles
          (connected [] (arrived (world []) (codes "shutdown") ∷ timed_out ∷ [])
            ∷ connected [] []
            ∷ [])
          idle
        ≡ stopped (handle_shutdown_command idle))
unfolding is_serving
shutdown_stops_example =
    shutdown_stops (world []) idle [] ((codes "cancel x\n", true) ∷ []) (timed_out ∷ [])
      (connected [] [] ∷ []) refl

short_command_safe_example :
    ((l : Line) × (console_line (codes "cancel /a@h:80\n") ≡ done l))
    × ((h : Handled) × (handle_command (world []) idle [] (codes "cancel /a@h:80\n") ≡ done h))
short_command_safe_example =
    short_command_safe (world []) idle [] (codes "cancel /a@h:80\n") (omega arith)

letters-Lacks : (n : ℕ) → Lacks 0 (letters n)
letters-Lacks zero = tt
letters-Lacks (suc n) = ((λ e. cc), letters-Lacks n)

long_command_overruns_example :
    (process_user_command (letters 64 ++ 10 ∷ []) ≡ overrun)
    × (handle_command (world []) idle [] (letters 64) ≡ overrun)
long_command_overruns_example =
    long_command_overruns (world []) idle [] (letters 64) ((λ e. cc), letters-NoSpaces 64)
      (letters-Lacks 64) (omega (arith, length-letters 64))
