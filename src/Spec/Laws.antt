-- ===== src/Spec/Laws.antt =====
-- `parse_directory_spec`: which texts it takes and what it makes of them.
use nfs_system.Base.{
  ℕ, suc, ◌<◌, ◌^◌, [], ◌∷◌, ◌++◌, Option, none, some, length, leb, if◌then◌else◌, ℤ, pos,
  is_positive, ◌≡◌, ◌↔◌, refl, arith, true, Bool-cases, inl, inr, ◌∙◌, sym, append-nil, subst, ◌-◌,
}
use nfs_system.Text.{Bytes}
use nfs_system.Text.Search.{Lacks, absent, present, strchr-Found, strchr-append}
use nfs_system.Text.Number.{atoi}
use nfs_system.Text.Decimal.{print_int}
use nfs_system.Text.RoundTrip.{atoi-print_nat}
use nfs_system.Spec.{
  DirectorySpec, max_path, max_host_size, parse_directory_spec, parse_host_port, print_spec,
}

-- A text that spells a directory, cut at its first `@` and the first `:` behind it.
pub record Spells (spec : Bytes) (s : DirectorySpec) : Type 0 where
  pub digits : Bytes
  pub cut : spec ≡ s.dir ++ b'@' ∷ (s.host ++ b':' ∷ digits)
  pub dir_plain : Lacks b'@' s.dir
  pub host_plain : Lacks b':' s.host
  pub dir_fits : length s.dir < max_path
  pub host_fits : length s.host < max_host_size
  pub port_read : atoi digits ≡ s.port
  pub port_positive : is_positive s.port ≡ true

parse-at :
    (dir rest : Bytes)
    → Lacks b'@' dir
    → parse_directory_spec (dir ++ b'@' ∷ rest)
      ≡ (if leb max_path (length dir) then none else parse_host_port dir rest)
unfolding parse_directory_spec
parse-at dir rest h = rw (parse_directory_spec, strchr-append b'@' dir rest h)

-- The tests on the three parts, in the order of the code.
checked : Bytes → Bytes → ℤ → Option DirectorySpec
checked dir host port =
    if leb max_host_size (length host)
    then none
    else if is_positive port
    then some (record { host = host; port = port; dir = dir })
    else none

parse-colon :
    (dir host digits : Bytes)
    → Lacks b':' host
    → parse_host_port dir (host ++ b':' ∷ digits) ≡ checked dir host (atoi digits)
unfolding parse_host_port checked
parse-colon dir host digits h = rw (parse_host_port, strchr-append b':' host digits h)

parse_of_Spells :
    (spec : Bytes) (s : DirectorySpec) → Spells spec s → parse_directory_spec spec ≡ some s
unfolding checked
parse_of_Spells spec s h = rw (h.cut) (
    parse-at s.dir _ h.dir_plain
    ∙ rw (parse-colon s.dir s.host h.digits h.host_plain) (ground arith))

checked-some :
    (dir host digits : Bytes) (s : DirectorySpec)
    → length dir < max_path
    → Lacks b'@' dir
    → Lacks b':' host
    → checked dir host (atoi digits) ≡ some s
    → Spells (dir ++ b'@' ∷ (host ++ b':' ∷ digits)) s
unfolding checked
checked-some dir host digits s fits hd hh e = elim (Bool-cases (leb max_host_size (length host))) [
  | inl long ↦ absurd (ground arith)
  | inr short ↦ elim (Bool-cases (is_positive (atoi digits))) [
    | inr bad ↦ absurd (ground arith)
    | inl good ↦
        let found : record { host = host; port = atoi digits; dir = dir } ≡ s = ground arith in
        subst (Spells (dir ++ b'@' ∷ (host ++ b':' ∷ digits))) found (record {
          digits = digits;
          cut = refl;
          dir_plain = hd;
          host_plain = hh;
          dir_fits = fits;
          host_fits = ground arith;
          port_read = refl;
          port_positive = good;
        })
  ]
]

Spells-parse_host_port :
    (dir rest : Bytes) (s : DirectorySpec)
    → length dir < max_path
    → Lacks b'@' dir
    → parse_host_port dir rest ≡ some s
    → Spells (dir ++ b'@' ∷ rest) s
Spells-parse_host_port dir rest s fits hd e = elim (strchr-Found b':' rest) [
  | absent q l ↦ unfold parse_host_port in absurd (ground arith)
  | present host digits q p l ↦
      rw p
        (checked-some dir host digits s fits hd l (sym (parse-colon dir host digits l) ∙ rw p at e))
]

Spells-parse_directory_spec :
    (spec : Bytes) (s : DirectorySpec) → parse_directory_spec spec ≡ some s → Spells spec s
Spells-parse_directory_spec spec s e = elim (strchr-Found b'@' spec) [
  | absent q l ↦ unfold parse_directory_spec in absurd (ground arith)
  | present dir rest q p l ↦
      let e' = sym (parse-at dir rest l) ∙ rw p at e in
      elim (Bool-cases (leb max_path (length dir))) [
        | inl long ↦ absurd (ground arith)
        | inr short ↦ rw p (Spells-parse_host_port dir rest s (ground arith) l (ground arith))
      ]
]

-- `parse_directory_spec` succeeds with `s` exactly when the text, cut at its first `@` and at the
-- first `:` behind that, has the directory and the host of `s`, both shorter than their arrays,
-- and `atoi` reads the port of `s`, a positive number, from the rest.
pub parse_directory_spec_iff :
    (spec : Bytes) (s : DirectorySpec) → (parse_directory_spec spec ≡ some s) ↔ Spells spec s
parse_directory_spec_iff spec s = (Spells-parse_directory_spec spec s, parse_of_Spells spec s)

-- A directory that `parse_directory_spec` is to read back from its print.
pub record IsPrintable (s : DirectorySpec) : Type 0 where
  pub dir_plain : Lacks b'@' s.dir
  pub host_plain : Lacks b':' s.host
  pub dir_fits : length s.dir < max_path
  pub host_fits : length s.host < max_host_size
  pub number : ℕ
  pub port_is : s.port ≡ pos (suc number)
  pub port_small : number < 2 ^ 31 - 1

Spells-print : (s : DirectorySpec) → IsPrintable s → Spells (print_spec s) s
unfolding print_spec print_int
Spells-print s h = record {
  digits = print_int s.port;
  cut = refl;
  dir_plain = h.dir_plain;
  host_plain = h.host_plain;
  dir_fits = h.dir_fits;
  host_fits = h.host_fits;
  port_read =
      rw (h.port_is, ← append-nil (print_int (pos (suc h.number))))
        (atoi-print_nat (suc h.number) [] (omega arith) tt);
  port_positive = rw (h.port_is) refl;
}

-- A directory whose path has no `@`, whose host has no `:`, whose parts fit their arrays and whose
-- port is a positive `int` is read back from its print `path@host:port`.
pub parse_directory_spec-print_spec :
    (s : DirectorySpec) → IsPrintable s → parse_directory_spec (print_spec s) ≡ some s
parse_directory_spec-print_spec s h = parse_of_Spells (print_spec s) s (Spells-print s h)
