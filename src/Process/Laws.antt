-- ===== src/Process/Laws.antt =====
-- What the calls and the releases do to what a process holds, as rules for the programs over them.
use nfs_system.Base.{
  ℕ, ◌+◌, ◌<◌, List, [], ◌∷◌, ◌++◌, Option, none, some, Bool, true, false, if◌then◌else◌, ◌≡◌, refl,
  arith, if_intro, ◌∙◌, ap,
}
use nfs_system.Process.{
  Sys, ◌>>=◌, ◌>>◌, pure, release_all, resources, Resource, Process, Call, Kind, same_resource,
  has_resource, without, release, resource, ask, acquire_by,
}

-- How often a resource is in a list.
abbrev pub count : Resource → List Resource → ℕ
count r [] = 0
count r (x ∷ xs) = (if same_resource x r then 1 else 0) + count r xs

-- The process holds just these resources, in any order, and has released none that it did not hold.
pub record Holds (rs : List Resource) (p : Process) : Type 0 where
  pub counts : (r : Resource) → count r p.held ≡ count r rs
  pub clean : p.faults ≡ 0

-- Started where the process holds `rs`, a program leaves it with what its result stands for.
pub record Keeps {A : Type 0} (rs : List Resource) (m : Sys A) (post : A → List Resource)
    : Type 0 where
  pub runs : (p : Process) → Holds rs p → Holds (post (m p).0) (m p).1

-- What is held behind a function that returns an owner of resources, or NULL.
abbrev pub owning : {B : Type 0} → (B → List Resource) → List Resource → Option B → List Resource
owning f rs none = rs
owning f rs (some b) = f b ++ rs

-- What is held behind a call that gives a resource or fails.
abbrev pub grant : Kind → List Resource → Option ℕ → List Resource
grant k = owning (λ n. resource k n ∷ [])

pub has_resource_lem :
    (x : Resource) (xs : List Resource) → 0 < count x xs → has_resource x xs ≡ true
has_resource_lem x [] h = absurd (ground arith)
has_resource_lem x (y ∷ ys) h = ground (arith, has_resource_lem x ys)

pub count-without :
    (r x : Resource) (xs : List Resource)
    → has_resource x xs ≡ true
    → count r (without x xs) + (if same_resource x r then 1 else 0) ≡ count r xs
count-without r x [] h = absurd (ground arith)
count-without r x (y ∷ ys) h = ground (arith, count-without r x ys)

pub count-append :
    (r : Resource) (xs ys : List Resource) → count r (xs ++ ys) ≡ count r xs + count r ys
count-append r [] ys = omega arith
count-append r (x ∷ xs) ys = omega (arith, count-append r xs ys)

-- A resource may stand before or behind others.
pub count-middle :
    (r x : Resource) (xs rs : List Resource) → count r (x ∷ (xs ++ rs)) ≡ count r (xs ++ (x ∷ rs))
count-middle r x xs rs = omega (arith, count-append r xs rs, count-append r xs (x ∷ rs))

pub release-Keeps : (x : Resource) (rs : List Resource) → Keeps (x ∷ rs) (release x) (λ _. rs)
unfolding release
release-Keeps x rs = record {
  runs = λ p h.
      let e = has_resource_lem x p.held (ground (arith, h.counts x)) in
      if_intro {A = Unit {0} × Process} (λ q. Holds rs q.1) (has_resource x p.held)
        (λ _. record {
          counts = λ r. ground (arith, h.counts r, count-without r x p.held e);
          clean = h.clean;
        })
        (λ n. absurd (cc));
}

pub ask-Keeps : (c : Call) (rs : List Resource) → Keeps rs (ask c) (λ _. rs)
unfolding ask
ask-Keeps c rs = record { runs = λ p h. record { counts = h.counts; clean = h.clean } }

pub acquire-Keeps :
    (c : Call) (k : Kind) (rs : List Resource) → Keeps rs (acquire_by c k) (grant k rs)
unfolding acquire_by ask
acquire-Keeps c k rs = record {
  runs = λ p h.
      if_intro {A = Option ℕ × Process} (λ q. Holds (grant k rs q.0) q.1) (p.answer p.clock)
        (λ _. record { counts = λ r. omega (arith, h.counts r); clean = h.clean })
        (λ _. record { counts = h.counts; clean = h.clean });
}

pub acquire_denied :
    (c : Call) (k : Kind) (p : Process)
    → p.answer p.clock ≡ false
    → acquire_by c k p ≡ (none, (ask c p).1)
unfolding acquire_by
acquire_denied c k p e = rw e refl

pub >>=-eq :
    {A B : Type 0} (m : Sys A) (f : A → Sys B) (p q : Process) (a : A)
    → m p ≡ (a, q)
    → (m >>= f) p ≡ f a q
unfolding ◌>>=◌
>>=-eq m f p q a e = ap (λ x. f x.0 x.1) e

module _ {A : Type 0} where
  pub pure-Keeps : (a : A) (post : A → List Resource) → Keeps (post a) (pure a) post
  unfolding pure
  pure-Keeps a post = record { runs = λ p h. h }

  pub >>=-Keeps :
      {B : Type 0} {m : Sys A} {f : A → Sys B} {rs : List Resource} {post : B → List Resource}
      (mid : A → List Resource)
      → Keeps rs m mid
      → ((a : A) → Keeps (mid a) (f a) post)
      → Keeps rs (m >>= f) post
  unfolding ◌>>=◌
  >>=-Keeps {m = m} mid first rest = record {
    runs = λ p h. (rest (m p).0).runs (m p).1 (first.runs p h);
  }

  pub >>-Keeps :
      {B : Type 0} {m : Sys A} {n : Sys B} {rs : List Resource} {post : B → List Resource}
      (mid : List Resource)
      → Keeps rs m (λ _. mid)
      → Keeps mid n post
      → Keeps rs (m >> n) post
  unfolding ◌>>◌
  >>-Keeps mid first rest = >>=-Keeps (λ _. mid) first (λ _. rest)

  -- Two lists that hold the same resources as often serve alike.
  pub same-Keeps :
      {m : Sys A} {post : A → List Resource} (rs ts : List Resource)
      → ((r : Resource) → count r rs ≡ count r ts)
      → Keeps ts m post
      → Keeps rs m post
  same-Keeps rs ts e k = record {
    runs = λ p h. k.runs p (record { counts = λ r. h.counts r ∙ e r; clean = h.clean });
  }

pub if-Keeps :
    {A : Type 0} (b : Bool) {f g : Sys A} {rs : List Resource} {post : A → List Resource}
    → Keeps rs f post
    → Keeps rs g post
    → Keeps rs (if b then f else g) post
if-Keeps true hf hg = hf
if-Keeps false hf hg = hg

-- A program that goes on by the answer to a call.
pub ask-then :
    {A : Type 0} (c : Call) {f g : Sys A} {rs : List Resource} {post : A → List Resource}
    → Keeps rs f post
    → Keeps rs g post
    → Keeps rs (ask c >>= λ b. if b then f else g) post
ask-then c {rs = rs} hf hg = >>=-Keeps (λ _. rs) (ask-Keeps c rs) (λ b. if-Keeps b hf hg)

-- A program that goes on by whether a call gave a resource.
pub acquire-then :
    {A : Type 0} (c : Call) (k : Kind) {f : Sys A} {g : ℕ → Sys A} {rs : List Resource}
    {post : A → List Resource}
    → Keeps rs f post
    → ((n : ℕ) → Keeps (resource k n ∷ rs) (g n) post)
    → Keeps rs (acquire_by c k >>= λ o. elim o [ none ↦ f | some n ↦ g n ]) post
acquire-then c k {f = f} {g = g} {rs = rs} {post = post} hf hg =
    >>=-Keeps (grant k rs) (acquire-Keeps c k rs) (λ o.
      elim o as (λ x. Keeps (grant k rs x) (elim x [ none ↦ f | some n ↦ g n ]) post) [
        | none ↦ hf
        | some n ↦ hg n
      ])

pub release_all-Keeps : (xs rs : List Resource) → Keeps (xs ++ rs) (release_all xs) (λ _. rs)
unfolding release_all
release_all-Keeps [] rs = pure-Keeps tt (λ _. rs)
release_all-Keeps (x ∷ xs) rs =
    >>-Keeps (xs ++ rs) (release-Keeps x (xs ++ rs)) (release_all-Keeps xs rs)

pub resources-append :
    (k : Kind) (ns ms : List ℕ) → resources k (ns ++ ms) ≡ resources k ns ++ resources k ms
unfolding resources
resources-append k [] ms = refl
resources-append k (n ∷ ns) ms = ap (◌∷◌ (resource k n)) (resources-append k ns ms)

-- A program that goes on by whether a function returned a result or NULL.
pub opened-then :
    {A B : Type 0} {m : Sys (Option B)} {f : Sys A} {g : B → Sys A} {start rs : List Resource}
    {post : A → List Resource} (gain : B → List Resource)
    → Keeps start m (owning gain rs)
    → Keeps rs f post
    → ((b : B) → Keeps (gain b ++ rs) (g b) post)
    → Keeps start (m >>= λ o. elim o [ none ↦ f | some b ↦ g b ]) post
opened-then {f = f} {g = g} {rs = rs} {post = post} gain first hf hg =
    >>=-Keeps (owning gain rs) first (λ o.
      elim o as (λ x. Keeps (owning gain rs x) (elim x [ none ↦ f | some b ↦ g b ]) post) [
        | none ↦ hf
        | some b ↦ hg b
      ])
