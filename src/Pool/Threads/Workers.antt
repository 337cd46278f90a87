-- ===== src/Pool/Threads/Workers.antt =====
-- Sums over the workers, and the jobs that they hold, when one worker moves.
use mathlib.Core.List.{Perm, perm_middle}
use mathlib.Core.List.Perm
use nfs_system.Base.{
  ℕ, zero, suc, ◌+◌, List, [], ◌∷◌, ◌++◌, some, get_elem?, set, ◌≡◌, refl, arith, sym, ◌∙◌,
}
use nfs_system.Pool.{SyncJob}
use nfs_system.Pool.Threads.{Worker, ready, asleep, finished, busy, total}

pub total-set :
    (f : Worker → ℕ) (ws : List Worker) (i : ℕ) (w v : Worker)
    → get_elem? ws i ≡ some w
    → total f (set ws i v) + f w ≡ total f ws + f v
total-set f [] i w v e = absurd (ground arith)
total-set f (x ∷ ws) zero w v e = ground arith
total-set f (x ∷ ws) (suc i) w v e = omega (arith, total-set f ws i w v e)

-- The jobs in `sync_single_file`.
abbrev pub held : List Worker → List SyncJob
held [] = []
held (busy job ∷ ws) = job ∷ held ws
held (ready ∷ ws) = held ws
held (asleep ∷ ws) = held ws
held (finished ∷ ws) = held ws

abbrev pub IsUnladen : Worker → Type 0
IsUnladen (busy job) = ⊥
IsUnladen _ = Unit {0}

pub held-unladen : (w : Worker) (ws : List Worker) → IsUnladen w → held (w ∷ ws) ≡ held ws
held-unladen ready ws h = refl
held-unladen asleep ws h = refl
held-unladen finished ws h = refl
held-unladen (busy job) ws h = absurd h

abbrev load : Worker → List SyncJob
load w = held (w ∷ [])

pub held-cons : (w : Worker) (ws : List Worker) → held (w ∷ ws) ≡ load w ++ held ws
held-cons ready ws = refl
held-cons asleep ws = refl
held-cons finished ws = refl
held-cons (busy job) ws = refl

-- A worker that holds nothing, before and after its move, changes nothing.
pub held-set :
    (ws : List Worker) (i : ℕ) (w v : Worker)
    → get_elem? ws i ≡ some w
    → IsUnladen w
    → IsUnladen v
    → held (set ws i v) ≡ held ws
held-set [] i w v e hw hv = absurd (ground arith)
held-set (x ∷ ws) zero w v e hw hv =
    let p : x ≡ w = cc in held-unladen v ws hv ∙ sym (rw p (held-unladen w ws hw))
held-set (x ∷ ws) (suc i) w v e hw hv =
    rw (held-cons x ws, held-cons x (set ws i v), held-set ws i w v e hw hv)

-- A worker takes a job.
pub held-take :
    (ws : List Worker) (i : ℕ) (w : Worker) (job : SyncJob)
    → get_elem? ws i ≡ some w
    → IsUnladen w
    → Perm (held (set ws i (busy job))) (job ∷ held ws)
held-take [] i w job e hw = absurd (ground arith)
held-take (x ∷ ws) zero w job e hw =
    let p : x ≡ w = cc in rw p (rw (held-unladen w ws hw) (Perm.refl _))
held-take (x ∷ ws) (suc i) w job e hw =
    rw (held-cons x ws, held-cons x (set ws i (busy job)))
      (Perm.trans (Perm.append_left (load x) (held-take ws i w job e hw))
        (perm_middle (load x) (held ws)))

-- A worker is through with its job.
pub held-finish :
    (ws : List Worker) (i : ℕ) (v : Worker) (job : SyncJob)
    → get_elem? ws i ≡ some (busy job)
    → IsUnladen v
    → Perm (held ws) (job ∷ held (set ws i v))
held-finish [] i v job e hv = absurd (ground arith)
held-finish (x ∷ ws) zero v job e hv =
    let p : x ≡ busy job = cc in rw (p, held-unladen v ws hv) (Perm.refl _)
held-finish (x ∷ ws) (suc i) v job e hv =
    rw (held-cons x ws, held-cons x (set ws i v))
      (Perm.trans (Perm.append_left (load x) (held-finish ws i v job e hv))
        (perm_middle (load x) (held (set ws i v))))
