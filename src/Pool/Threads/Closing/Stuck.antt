-- ===== src/Pool/Threads/Closing/Stuck.antt =====
-- thread_pool.c: `create_thread_pool` when a thread cannot be started.
use nfs_system.Base.{
  ℕ, zero, suc, List, [], ◌∷◌, ◌++◌, some, Bool, true, false, get_elem?, set, map, length, ◌≡◌,
  refl, ap, append_assoc,
}
use nfs_system.Pool.Threads.Closing.{
  Phase, wake, entering, tested, waiting, ended, joining, Closing, is_mutex_free, all_ended,
  worker_move, create_move, move_worker, move, run, any_moves, can_move, entering_workers,
  started_workers,
}

abbrev pub ended_workers : ℕ → List Phase
ended_workers zero = []
ended_workers (suc n) = ended ∷ ended_workers n

-- The workers from this place on, one after the other.
abbrev pub in_turn : ℕ → ℕ → List ℕ
in_turn i zero = []
in_turn i (suc n) = suc i ∷ in_turn (suc i) n

-- The first worker tests the flag and the queue; the flag is raised and the broadcast made; the first
-- worker begins its wait; the others find the flag.
abbrev pub missed_broadcast : ℕ → List ℕ
missed_broadcast n = 1 ∷ 0 ∷ 0 ∷ 1 ∷ in_turn 1 n

abbrev pub hanging : ℕ → Closing
hanging n = record { shutdown = true; closer = joining; workers = waiting ∷ ended_workers n }

abbrev joining_with : List Phase → Closing
joining_with ws = record { shutdown = true; closer = joining; workers = ws }

get_elem?-append :
    (ws vs : List Phase) (w : Phase) → get_elem? (ws ++ (w ∷ vs)) (length ws) ≡ some w
get_elem?-append [] vs w = refl
get_elem?-append (x ∷ ws) vs w = get_elem?-append ws vs w

set-append :
    (ws vs : List Phase) (w v : Phase) → set (ws ++ (w ∷ vs)) (length ws) v ≡ ws ++ (v ∷ vs)
set-append [] vs w v = refl
set-append (x ∷ ws) vs w v = ap (◌∷◌ x) (set-append ws vs w v)

is_mutex_free-append :
    (ws vs : List Phase)
    → is_mutex_free ws ≡ true
    → is_mutex_free vs ≡ true
    → is_mutex_free (ws ++ vs) ≡ true
unfolding is_mutex_free
is_mutex_free-append [] vs hw hv = hv
is_mutex_free-append (entering ∷ ws) vs hw hv = is_mutex_free-append ws vs hw hv
is_mutex_free-append (tested ∷ ws) vs hw hv = absurd (cc)
is_mutex_free-append (waiting ∷ ws) vs hw hv = is_mutex_free-append ws vs hw hv
is_mutex_free-append (ended ∷ ws) vs hw hv = is_mutex_free-append ws vs hw hv

entering_free : (n : ℕ) → is_mutex_free (entering_workers n) ≡ true
unfolding is_mutex_free
entering_free zero = refl
entering_free (suc n) = entering_free n

-- A worker that comes to the mutex finds the flag.
finds_flag :
    (ws vs : List Phase)
    → is_mutex_free (ws ++ (entering ∷ vs)) ≡ true
    → move_worker (length ws) (joining_with (ws ++ (entering ∷ vs)))
      ≡ some (joining_with (ws ++ (ended ∷ vs)))
unfolding move_worker worker_move
finds_flag ws vs free =
    rw (move_worker, get_elem?-append ws vs entering)
      (rw (free) (ap (λ us. some (joining_with us)) (set-append ws vs entering ended)))

length-snoc : (ws : List Phase) (w : Phase) → length (ws ++ (w ∷ [])) ≡ suc (length ws)
length-snoc [] w = refl
length-snoc (x ∷ ws) w = ap suc (length-snoc ws w)

-- The broadcast finds nobody in a wait.
wakes_none : (n : ℕ) → map wake (entering_workers n) ≡ entering_workers n
wakes_none zero = refl
wakes_none (suc n) = ap (◌∷◌ entering) (wakes_none n)

others_end :
    (n : ℕ) (ws : List Phase)
    → is_mutex_free ws ≡ true
    → run create_move (in_turn (length ws) n) (joining_with (ws ++ entering_workers n))
      ≡ some (joining_with (ws ++ ended_workers n))
unfolding run move is_mutex_free
others_end zero ws free = refl
others_end (suc n) ws free =
    let one = ended ∷ [] in
    rw
      (
        run,
        finds_flag ws (entering_workers n)
            (is_mutex_free-append ws (entering_workers (suc n)) free (entering_free (suc n))),
      )
      (rw
        (
          append_assoc ws one (entering_workers n),
          append_assoc ws one (ended_workers n),
          length-snoc ws ended,
        )
        at (others_end n (ws ++ one) (is_mutex_free-append ws one free refl)))

first_waits :
    (n : ℕ) → run create_move (missed_broadcast n) (started_workers (suc n)) ≡ some (hanging n)
unfolding run move create_move move_worker worker_move is_mutex_free
first_waits n = rw (entering_free n) (rw (wakes_none n) (others_end n (waiting ∷ []) refl))

nobody_moves : (free : Bool) (n : ℕ) → any_moves free true (ended_workers n) ≡ false
unfolding any_moves worker_move
nobody_moves free zero = refl
nobody_moves free (suc n) = nobody_moves free n

-- When a thread cannot be started and at least one runs, `create_thread_pool` can come to hang: there is
-- an order of steps after which a worker waits behind the broadcast, all others have ended, and no
-- thread, neither the one in the joins nor a worker, can move.
pub create_thread_pool_hangs :
    (n : ℕ)
    → (run create_move (missed_broadcast n) (started_workers (suc n)) ≡ some (hanging n))
      × (can_move create_move (hanging n) ≡ false)
unfolding can_move any_moves create_move all_ended worker_move is_mutex_free
create_thread_pool_hangs n = (first_waits n, nobody_moves (is_mutex_free (ended_workers n)) n)
