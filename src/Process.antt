-- ===== src/Process.antt =====
-- What one of the three programs asks of the operating system: calls that may fail, each with the
-- answer that the process is given, and what the process holds because of them: descriptors, memory,
-- mutexes, conditions and threads. The components' modules named Life are written over it.
pub mod Laws
pub mod Faults
use nfs_system.Base.{
  ℕ, suc, ◌+◌, List, [], ◌∷◌, Option, none, some, Bool, true, false, ◌==◌, ◌&&◌, if◌then◌else◌,
}
use nfs_system.Text.{Bytes}

-- `standard` is for what a process is started with: `standard 0` is the standard input.
pub data Kind : Type 0 where
  socket file memory mutex condition thread standard : Kind

abbrev pub code_of : Kind → ℕ
code_of socket = 0
code_of file = 1
code_of memory = 2
code_of mutex = 3
code_of condition = 4
code_of thread = 5
code_of standard = 6

-- A resource, named by the place of the call that gave it: no two calls give the same one.
pub record Resource : Type 0 where
  pub kind : Kind
  pub id : ℕ

abbrev pub same_resource : Resource → Resource → Bool
same_resource x y = code_of x.kind == code_of y.kind && x.id == y.id

-- The calls that may fail, with the arguments that the program computes for them.
pub data Call : Type 0 where
  acquire_call : Kind → Call
  fopen : Bytes → Call
  setsockopt send recv accept : ℕ → Call
  bind listen : ℕ → ℕ → Call
  inet_pton : Bytes → Call
  connect : ℕ → Bytes → ℕ → Call

-- `answer n` tells whether the n-th call succeeds. `calls` holds the calls so far, the last one
-- first, and `faults` counts the releases of what is not held: a second `free`, a `close` of a
-- descriptor that the process did not open.
pub record Process : Type 0 where
  pub answer : ℕ → Bool
  pub clock : ℕ
  pub held : List Resource
  pub faults : ℕ
  pub calls : List Call

abbrev pub Sys : Type 0 → Type 0
Sys A = Process → A × Process

unfoldable pub pure : {A : Type 0} → A → Sys A
pure a p = (a, p)

infixl 5 ◌>>=◌ ◌>>◌
unfoldable pub ◌>>=◌ : {A B : Type 0} → Sys A → (A → Sys B) → Sys B
◌>>=◌ m f p = let (a, q) = m p in f a q

unfoldable pub ◌>>◌ : {A B : Type 0} → Sys A → Sys B → Sys B
m >> k = m >>= λ _. k

-- A call that gives nothing to hold: whether it succeeds.
unfoldable pub ask : Call → Sys Bool
ask c p = (p.answer p.clock, record p { clock = suc p.clock; calls = c ∷ p.calls })

abbrev granted : Kind → Process → Process
granted k p = record p { held = record { kind = k; id = p.clock } ∷ p.held }

-- A call that gives a resource, or fails.
unfoldable pub acquire_by : Call → Kind → Sys (Option ℕ)
acquire_by c k p =
    if p.answer p.clock then (some p.clock, (ask c (granted k p)).1) else (none, (ask c p).1)

abbrev pub acquire : Kind → Sys (Option ℕ)
acquire k = acquire_by (acquire_call k) k

abbrev pub has_resource : Resource → List Resource → Bool
has_resource x [] = false
has_resource x (y ∷ ys) = if same_resource x y then true else has_resource x ys

abbrev pub without : Resource → List Resource → List Resource
without x [] = []
without x (y ∷ ys) = if same_resource x y then ys else y ∷ without x ys

-- `close`, `fclose`, `free`, `pthread_join` and the functions named destroy.
unfoldable pub release : Resource → Sys Unit
release x p =
    if has_resource x p.held
    then (tt, record p { held = without x p.held })
    else (tt, record p { faults = suc p.faults })

abbrev pub resource : Kind → ℕ → Resource
resource k n = record { kind = k; id = n }

unfoldable pub release_all : List Resource → Sys Unit
release_all [] = pure tt
release_all (x ∷ xs) = release x >> release_all xs

unfoldable pub resources : Kind → List ℕ → List Resource
resources k [] = []
resources k (n ∷ ns) = resource k n ∷ resources k ns
