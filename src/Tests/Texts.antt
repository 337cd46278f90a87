-- ===== src/Tests/Texts.antt =====
-- The parsers of directories, of configuration lines and of arguments.
use nfs_system.Base.{ℕ, zero, suc, List, [], ◌∷◌, some, length, pos, ◌≡◌, ◌↔◌, refl, ap, arith}
use nfs_system.Text.{Bytes, codes}
use nfs_system.Text.Words.{is_space, NoSpaces}
use nfs_system.Text.Decimal.{print_int, print_nat, digits}
use nfs_system.Spec.{DirectorySpec, parse_directory_spec, print_spec}
use nfs_system.Spec.Laws.{
  Spells, IsPrintable, parse_directory_spec_iff, parse_directory_spec-print_spec,
}
use nfs_system.Spec.Config.{FitsLine}
use nfs_system.Manager.Arguments.{Settings, parse_arguments}
use nfs_system.Manager.Arguments.Accepted.{
  usage, IsUsable, parse_arguments-IsUsable, parse_arguments-usage,
}

abbrev source : DirectorySpec
source = record { host = codes "h"; port = pos 80; dir = codes "/a" }

abbrev source_text : Bytes
source_text = codes "/a@h:80"

parse_directory_spec_iff_example :
    (parse_directory_spec source_text ≡ some source) ↔ Spells source_text source
parse_directory_spec_iff_example = parse_directory_spec_iff source_text source

printable : IsPrintable source
printable = record {
  dir_plain = ((λ e. cc), ((λ e. cc), tt));
  host_plain = ((λ e. cc), tt);
  dir_fits = omega arith;
  host_fits = omega arith;
  number = 79;
  port_is = refl;
  port_small = omega arith;
}

parse_directory_spec-print_spec_example : parse_directory_spec (print_spec source) ≡ some source
parse_directory_spec-print_spec_example = parse_directory_spec-print_spec source printable

fits_line : FitsLine source
unfolding print_spec print_int print_nat digits is_space
fits_line = record {
  printable = printable;
  word = ((λ e. cc), (refl, (refl, (refl, (refl, (refl, (refl, (refl, tt))))))));
  fits = omega arith;
}

abbrev pub letters : ℕ → Bytes
letters zero = []
letters (suc n) = b'a' ∷ letters n

pub letters-NoSpaces : (n : ℕ) → NoSpaces (letters n)
unfolding is_space
letters-NoSpaces zero = tt
letters-NoSpaces (suc n) = (refl, letters-NoSpaces n)

pub length-letters : (n : ℕ) → length (letters n) ≡ n
length-letters zero = refl
length-letters (suc n) = ap suc (length-letters n)

abbrev arguments : List Bytes
arguments = usage (codes "log") (codes "conf") 3 8000 10

abbrev expected : Settings
expected = record {
  logfile_path = some (codes "log");
  config_file_path = some (codes "conf");
  worker_limit = pos 3;
  port = pos 8000;
  buffer_size = pos 10;
}

parsed : parse_arguments arguments ≡ some expected
parsed =
    parse_arguments-usage (codes "log") (codes "conf") 2 7999 9 (omega arith) (omega arith)
      (omega arith)

parse_arguments-IsUsable_example : IsUsable expected
parse_arguments-IsUsable_example = parse_arguments-IsUsable arguments expected parsed
