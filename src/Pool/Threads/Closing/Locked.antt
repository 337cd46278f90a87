-- ===== src/Pool/Threads/Closing/Locked.antt =====
-- thread_pool.c: the shutdown and the joins of `destroy_thread_pool`.
use nfs_system.Base.{
  ℕ, zero, suc, List, [], ◌∷◌, Option, none, some, Bool, true, false, ◌||◌, get_elem?, set, map,
  All, ◌≡◌, ◌⊎◌, inl, inr, refl, Bool-cases, Option-cases, if_intro, sym, subst,
}
use nfs_system.Pool.Threads.Closing.{
  Phase, wake, entering, tested, waiting, ended, Closer, deciding, flagged, joining, joined,
  Closing, is_mutex_free, all_ended, worker_move, destroy_move, move_worker, move, run, any_moves,
  can_move, is_some, join_workers, started_workers,
}

-- A worker that is neither in its test nor in its wait.
abbrev pub IsRunning : Phase → Type 0
IsRunning entering = Unit
IsRunning ended = Unit
IsRunning tested = ⊥
IsRunning waiting = ⊥

-- Once the flag is up, no worker waits or is about to.
pub data IsAnnounced (s : Closing) : Type 0 where
  before : s.closer ≡ deciding → IsAnnounced s
  after : s.closer ≡ joining → s.shutdown ≡ true → All IsRunning s.workers → IsAnnounced s
  through : s.closer ≡ joined → IsAnnounced s

woken_IsRunning : (ws : List Phase) → is_mutex_free ws ≡ true → All IsRunning (map wake ws)
unfolding is_mutex_free
woken_IsRunning [] e = tt
woken_IsRunning (entering ∷ ws) e = (tt, woken_IsRunning ws e)
woken_IsRunning (tested ∷ ws) e = absurd (cc)
woken_IsRunning (waiting ∷ ws) e = (tt, woken_IsRunning ws e)
woken_IsRunning (ended ∷ ws) e = (tt, woken_IsRunning ws e)

running_free : (ws : List Phase) → All IsRunning ws → is_mutex_free ws ≡ true
unfolding is_mutex_free
running_free [] h = refl
running_free (entering ∷ ws) (x, h) = running_free ws h
running_free (ended ∷ ws) (x, h) = running_free ws h
running_free (tested ∷ ws) (x, h) = absurd x
running_free (waiting ∷ ws) (x, h) = absurd x

-- Without a wait or a test, the workers can move or have all ended.
running_moves :
    (ws : List Phase) → All IsRunning ws → (any_moves true true ws ≡ true) ⊎ (all_ended ws ≡ true)
unfolding any_moves worker_move all_ended
running_moves [] h = inr refl
running_moves (entering ∷ ws) (x, h) = inl refl
running_moves (ended ∷ ws) (x, h) = running_moves ws h
running_moves (tested ∷ ws) (x, h) = absurd x
running_moves (waiting ∷ ws) (x, h) = absurd x

-- The worker that has the mutex can move.
holder_moves : (ws : List Phase) (b : Bool) → is_mutex_free ws ≡ false → any_moves false b ws ≡ true
unfolding is_mutex_free any_moves worker_move
holder_moves [] b e = absurd (cc)
holder_moves (entering ∷ ws) b e = holder_moves ws b e
holder_moves (tested ∷ ws) b e = refl
holder_moves (waiting ∷ ws) b e = holder_moves ws b e
holder_moves (ended ∷ ws) b e = holder_moves ws b e

or_right : (a b : Bool) → b ≡ true → (a || b) ≡ true
or_right true b e = refl
or_right false b e = e

deciding_moves :
    (d : Bool) (ws : List Phase)
    → can_move destroy_move (record { shutdown = d; closer = deciding; workers = ws }) ≡ true
unfolding can_move destroy_move
deciding_moves d ws = elim (Bool-cases (is_mutex_free ws)) [
  | inl e ↦ rw e refl
  | inr e ↦ rw e (holder_moves ws d e)
]

joining_moves :
    (ws : List Phase)
    → All IsRunning ws
    → can_move destroy_move (record { shutdown = true; closer = joining; workers = ws }) ≡ true
unfolding can_move destroy_move
joining_moves ws h = elim (running_moves ws h) [
  | inl e ↦
      or_right (is_some (join_workers (record { shutdown = true; closer = joining; workers = ws })))
        (any_moves (is_mutex_free ws) true ws) (rw (running_free ws h) e)
  | inr e ↦ rw e refl
]

-- In an announced state some thread can move, or the joins are through.
announced_moves :
    (s : Closing) → IsAnnounced s → (can_move destroy_move s ≡ true) ⊎ (s.closer ≡ joined)
announced_moves s (before e) = inl (
    subst (λ c. can_move destroy_move (record s { closer = c }) ≡ true) (sym e)
      (deciding_moves s.shutdown s.workers))
announced_moves s (after e d h) = inl (
    subst (λ c. can_move destroy_move (record s { closer = c }) ≡ true) (sym e)
      (subst (λ b. can_move destroy_move (record s { closer = joining; shutdown = b }) ≡ true)
        (sym d) (joining_moves s.workers h)))
announced_moves s (through e) = inr e

All-set :
    (ws : List Phase) (i : ℕ) (v : Phase)
    → All IsRunning ws
    → IsRunning v
    → All IsRunning (set ws i v)
All-set [] i v h r = tt
All-set (w ∷ ws) zero v (x, h) r = (r, h)
All-set (w ∷ ws) (suc i) v (x, h) r = (x, All-set ws i v h r)

All-get :
    (ws : List Phase) (i : ℕ) (w : Phase) → All IsRunning ws → get_elem? ws i ≡ some w → IsRunning w
All-get [] i w h e = absurd (cc)
All-get (x ∷ ws) zero w (r, h) e = subst (λ o. elim o [ none ↦ Unit | some y ↦ IsRunning y ]) e r
All-get (x ∷ ws) (suc i) w (r, h) e = All-get ws i w h e

-- Under a raised flag no worker begins a test or a wait.
worker_move-IsRunning :
    (free : Bool) (w v : Phase) → IsRunning w → worker_move free true w ≡ some v → IsRunning v
unfolding worker_move
worker_move-IsRunning true entering v r e =
    subst (λ o. elim o [ none ↦ Unit | some y ↦ IsRunning y ]) e tt
worker_move-IsRunning false entering v r e = absurd (cc)
worker_move-IsRunning free ended v r e = absurd (cc)
worker_move-IsRunning free tested v r e = absurd r
worker_move-IsRunning free waiting v r e = absurd r

-- A step, if it is possible, leads to an announced state.
abbrev Lands : Option Closing → Type 0
Lands none = Unit
Lands (some t) = IsAnnounced t

moved-IsAnnounced :
    (s : Closing) (i : ℕ) (w v : Phase)
    → IsAnnounced s
    → get_elem? s.workers i ≡ some w
    → worker_move (is_mutex_free s.workers) s.shutdown w ≡ some v
    → IsAnnounced (record s { workers = set s.workers i v })
moved-IsAnnounced s i w v (before e) g m = before e
moved-IsAnnounced s i w v (through e) g m = through e
moved-IsAnnounced s i w v (after e d h) g m =
    let m1 = subst (λ b. worker_move (is_mutex_free s.workers) b w ≡ some v) d m in
    let r = worker_move-IsRunning (is_mutex_free s.workers) w v (All-get s.workers i w h g) m1 in
    after e d (All-set s.workers i v h r)

worker-Lands : (i : ℕ) (s : Closing) → IsAnnounced s → Lands (move_worker i s)
unfolding move_worker
worker-Lands i s a = elim (Option-cases (get_elem? s.workers i)) [
  | inl g ↦ rw (move_worker, g) tt
  | inr (w, g) ↦ elim (Option-cases (worker_move (is_mutex_free s.workers) s.shutdown w)) [
    | inl m ↦ rw (move_worker, g) (rw m tt)
    | inr (v, m) ↦ rw (move_worker, g) (rw m (moved-IsAnnounced s i w v a g m))
  ]
]

closer-Lands :
    (d : Bool) (c : Closer) (ws : List Phase)
    → IsAnnounced (record { shutdown = d; closer = c; workers = ws })
    → Lands (destroy_move (record { shutdown = d; closer = c; workers = ws }))
unfolding destroy_move
closer-Lands d deciding ws a =
    if_intro Lands (is_mutex_free ws) (λ e. after refl refl (woken_IsRunning ws e)) (λ e. tt)
closer-Lands d flagged ws a = tt
closer-Lands d joining ws a = if_intro Lands (all_ended ws) (λ e. through refl) (λ e. tt)
closer-Lands d joined ws a = tt

move-Lands : (i : ℕ) (s : Closing) → IsAnnounced s → Lands (move destroy_move i s)
unfolding move
move-Lands zero s a = closer-Lands s.shutdown s.closer s.workers a
move-Lands (suc i) s a = worker-Lands i s a

run-Lands : (order : List ℕ) (s : Closing) → IsAnnounced s → Lands (run destroy_move order s)
unfolding run
run-Lands [] s a = a
run-Lands (i ∷ order) s a = elim (Option-cases (move destroy_move i s)) [
  | inl e ↦ rw (run, e) tt
  | inr (t, e) ↦ rw (run, e) (run-Lands order t (subst Lands e (move-Lands i s a)))
]

-- With an empty queue `destroy_thread_pool` does not hang: in every order of the steps, and in every
-- state on the way, some thread can move, until the joins are through.
pub destroy_thread_pool_moves :
    (n : ℕ) (order : List ℕ) (s : Closing)
    → run destroy_move order (started_workers n) ≡ some s
    → (can_move destroy_move s ≡ true) ⊎ (s.closer ≡ joined)
destroy_thread_pool_moves n order s e =
    announced_moves s (subst Lands e (run-Lands order (started_workers n) (before refl)))
