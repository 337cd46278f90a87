-- ===== src/Process/Faults.antt =====
-- Programs that only give back, and those that give back what is not held.
use nfs_system.Base.{◌≤◌, ◌<◌, List, [], ◌∷◌, false, ◌≡◌, refl, arith, if_intro}
use nfs_system.Process.{
  Sys, Process, pure, ◌>>=◌, ◌>>◌, Resource, release, release_all, has_resource,
}
use nfs_system.Process.Laws.{count, count-without}

-- No resource is gained, and the faults stay.
pub record Shrinks {A : Type 0} (m : Sys A) : Type 0 where
  pub loses : (r : Resource) (p : Process) → count r (m p).1.held ≤ count r p.held
  pub stays : (p : Process) → p.faults ≤ (m p).1.faults

-- Where the process does not hold `x`, the program releases something that is not held.
pub record Breaks (x : Resource) {A : Type 0} (m : Sys A) : Type 0 where
  pub breaks : (p : Process) → count x p.held ≡ 0 → p.faults < (m p).1.faults

pub release-Shrinks : (x : Resource) → Shrinks (release x)
unfolding release
release-Shrinks x = record {
  loses = λ r p.
      if_intro {A = Unit {0} × Process} (λ q. count r q.1.held ≤ count r p.held)
        (has_resource x p.held) (λ e. omega (arith, count-without r x p.held e)) (λ e. omega arith);
  stays = λ p.
      if_intro {A = Unit {0} × Process} (λ q. p.faults ≤ q.1.faults) (has_resource x p.held)
        (λ e. omega arith) (λ e. omega arith);
}

lacks_resource : (x : Resource) (xs : List Resource) → count x xs ≡ 0 → has_resource x xs ≡ false
lacks_resource x [] e = refl
lacks_resource x (y ∷ ys) e = ground (arith, lacks_resource x ys)

pub release-Breaks : (x : Resource) → Breaks x (release x)
unfolding release
release-Breaks x = record {
  breaks = λ p e.
      if_intro {A = Unit {0} × Process} (λ q. p.faults < q.1.faults) (has_resource x p.held)
        (λ t. absurd (ground (arith, lacks_resource x p.held e))) (λ f. omega arith);
}

module _ {A : Type 0} where
  pub pure-Shrinks : (a : A) → Shrinks (pure a)
  unfolding pure
  pure-Shrinks a = record { loses = λ r p. omega arith; stays = λ p. omega arith }

  module _ {B : Type 0} {m : Sys A} {n : Sys B} where
    pub >>-Shrinks : Shrinks m → Shrinks n → Shrinks (m >> n)
    unfolding ◌>>◌ ◌>>=◌
    >>-Shrinks a b = record {
      loses = λ r p. omega (arith, a.loses r p, b.loses r (m p).1);
      stays = λ p. omega (arith, a.stays p, b.stays (m p).1);
    }

    pub >>-Breaks_later : {x : Resource} → Shrinks m → Breaks x n → Breaks x (m >> n)
    unfolding ◌>>◌ ◌>>=◌
    >>-Breaks_later {x = x} a b = record {
      breaks = λ p e.
          let f = b.breaks (m p).1 (omega (arith, e, a.loses x p)) in omega (arith, a.stays p, f);
    }

    pub >>-Breaks_first : {x : Resource} → Breaks x m → Shrinks n → Breaks x (m >> n)
    unfolding ◌>>◌ ◌>>=◌
    >>-Breaks_first a b = record { breaks = λ p e. omega (arith, a.breaks p e, b.stays (m p).1) }

pub release_all-Shrinks : (xs : List Resource) → Shrinks (release_all xs)
unfolding release_all
release_all-Shrinks [] = pure-Shrinks tt
release_all-Shrinks (x ∷ xs) = >>-Shrinks (release-Shrinks x) (release_all-Shrinks xs)
