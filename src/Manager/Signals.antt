-- ===== src/Manager/Signals.antt =====
-- nfs_manager_logic.c: `signal_handler`, and what it makes of the loops over a console and of `main`. A
-- signal comes while a loop is in `select`, which it interrupts.
use nfs_system.Base.{
  List, [], ◌∷◌, ◌++◌, Bool, true, false, if◌then◌else◌, ◌≡◌, refl, subst, ◌∙◌, Bool-cases,
  Exec-cases, inl, inr,
}
use nfs_system.Text.{Bytes}
use nfs_system.Manager.{Manager}
use nfs_system.Manager.Console.{
  handle_command, Event, interrupted, timed_out, select_failed, connection_closed, signalled,
  arrived, ConsoleServed, over, still_open, console_overran, signal_handler, is_serving,
  handle_console_connection, MainEvent, main_interrupted, main_timed_out, main_select_failed,
  accept_failed, main_signalled, connected, stopped, serve_consoles,
}

-- A signal stops both loops: the two flags that they test are up.
abbrev pub flagged : Manager → Manager
flagged m = record m { shutdown_requested = true; shutdown_flag = true }

-- What follows a prefix of the events: it goes on where the connection is still open.
Goes : ConsoleServed → List Event → ConsoleServed → Type 0
Goes (still_open m command out) rest r = r ≡ handle_console_connection rest m command out
Goes (over m out) rest r = Unit
Goes console_overran rest r = Unit

if-Goes :
    (b : Bool) (m : Manager) (out : List Bytes) (x y : ConsoleServed) (rest : List Event)
    → Goes x rest y
    → Goes (if b then x else over m out) rest (if b then y else over m out)
unfolding Goes
if-Goes true m out x y rest h = h
if-Goes false m out x y rest h = tt

handle_console_connection-append :
    (before rest : List Event) (m : Manager) (command : Bytes) (out : List Bytes)
    → Goes
        (handle_console_connection before m command out)
        rest
        (handle_console_connection (before ++ rest) m command out)
unfolding handle_console_connection Goes
handle_console_connection-append [] rest m command out = elim (Bool-cases (is_serving m)) [
  | inl up ↦ rw (handle_console_connection, up) refl
  | inr down ↦ rw (handle_console_connection, down) tt
]
handle_console_connection-append (interrupted ∷ before) rest m command out =
    if-Goes (is_serving m) m out (handle_console_connection before m command out)
      (handle_console_connection (before ++ rest) m command out) rest
      (handle_console_connection-append before rest m command out)
handle_console_connection-append (timed_out ∷ before) rest m command out =
    if-Goes (is_serving m) m out (handle_console_connection before m command out)
      (handle_console_connection (before ++ rest) m command out) rest
      (handle_console_connection-append before rest m command out)
handle_console_connection-append (select_failed ∷ before) rest m command out = tt
handle_console_connection-append (connection_closed ∷ before) rest m command out = tt
handle_console_connection-append (signalled ∷ before) rest m command out =
    handle_console_connection-append before rest (signal_handler m) command out
handle_console_connection-append (arrived w b ∷ before) rest m command out =
    elim (Bool-cases (is_serving m)) [
      | inr down ↦ rw (handle_console_connection, down) tt
      | inl up ↦ elim (Exec-cases (handle_command w m command b)) [
        | inl e ↦ rw (handle_console_connection, up, e) tt
        | inr (h, e) ↦ elim (Bool-cases h.ends) [
          | inl ends ↦ rw (handle_console_connection, up, e, ends) tt
          | inr goes ↦
              rw (handle_console_connection, up, e, goes)
                (handle_console_connection-append before rest h.manager h.command
                  (out ++ h.response ∷ []))
        ]
      ]
    ]

flagged_over :
    (after : List Event) (m : Manager) (command : Bytes) (out : List Bytes)
    → handle_console_connection after (flagged m) command out ≡ over (flagged m) out
unfolding handle_console_connection is_serving signal_handler
flagged_over [] m command out = refl
flagged_over (interrupted ∷ after) m command out = refl
flagged_over (timed_out ∷ after) m command out = refl
flagged_over (select_failed ∷ after) m command out = refl
flagged_over (connection_closed ∷ after) m command out = refl
flagged_over (signalled ∷ after) m command out = flagged_over after m command out
flagged_over (arrived w b ∷ after) m command out = refl

flagged_stops :
    (events : List MainEvent) (m : Manager)
    → serve_consoles events (flagged m) ≡ stopped (flagged m)
unfolding serve_consoles is_serving signal_handler
flagged_stops [] m = refl
flagged_stops (main_interrupted ∷ events) m = refl
flagged_stops (main_timed_out ∷ events) m = refl
flagged_stops (main_select_failed ∷ events) m = refl
flagged_stops (accept_failed ∷ events) m = refl
flagged_stops (main_signalled ∷ events) m = flagged_stops events m
flagged_stops (connected command session ∷ events) m = refl

signal_over :
    (before after : List Event) (m m1 : Manager) (command stale : Bytes) (out : List Bytes)
    → handle_console_connection before m command [] ≡ still_open m1 stale out
    → handle_console_connection (before ++ signalled ∷ after) m command [] ≡ over (flagged m1) out
unfolding handle_console_connection signal_handler Goes
signal_over before after m m1 command stale out e =
    subst
      (λ r.
        Goes r (signalled ∷ after)
          (handle_console_connection (before ++ signalled ∷ after) m command []))
      e (handle_console_connection-append before (signalled ∷ after) m command [])
    ∙ flagged_over after m1 stale out

-- When a signal interrupts the `select` of a console's connection, after any events that have left
-- it open, the connection ends with the responses it had, and a manager that is serving stops in the
-- state it had, with its two flags raised, whatever still arrives; it stops in the same way when a
-- signal interrupts the `select` of `main`.
pub signal_stops :
    (before after : List Event) (events : List MainEvent) (m m1 : Manager) (command stale : Bytes)
    (out : List Bytes)
    → is_serving m ≡ true
    → handle_console_connection before m command [] ≡ still_open m1 stale out
    → (handle_console_connection (before ++ signalled ∷ after) m command [] ≡ over (flagged m1) out)
      × (serve_consoles (connected command (before ++ signalled ∷ after) ∷ events) m
          ≡ stopped (flagged m1))
      × (serve_consoles (main_signalled ∷ events) m ≡ stopped (flagged m))
unfolding serve_consoles signal_handler
signal_stops before after events m m1 command stale out up e =
    let ended = signal_over before after m m1 command stale out e in
    (ended, rw (serve_consoles, up, ended) (flagged_stops events m1), flagged_stops events m)
