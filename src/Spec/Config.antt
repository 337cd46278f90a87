-- ===== src/Spec/Config.antt =====
-- `parse_config_line`: two directories on a line, and lines that are too long for its arrays.
use nfs_system.Base.{◌≤◌, ◌<◌, [], ◌∷◌, ◌++◌, Option, some, length, done, overrun, ◌≡◌, ap}
use nfs_system.Text.{Bytes}
use nfs_system.Text.Words.{IsWord, StartsWithSpace, scan_words_two, scan_words_overrun}
use nfs_system.Text.Fits.{scan_words_safe}
use nfs_system.Spec.{DirectorySpec, max_path, parse_pair, parse_config_line, print_spec}
use nfs_system.Spec.Laws.{IsPrintable, parse_directory_spec-print_spec}

-- What is to stand on a line: a print without white space that fits its array.
pub record FitsLine (s : DirectorySpec) : Type 0 where
  pub printable : IsPrintable s
  pub word : IsWord (print_spec s)
  pub fits : length (print_spec s) < max_path

-- A line that holds the prints of two directories, one blank between them and the end of the line
-- or white space behind them, is read as these two directories.
pub parse_config_line-print_spec :
    (s t : DirectorySpec) (rest : Bytes)
    → FitsLine s
    → FitsLine t
    → StartsWithSpace rest
    → parse_config_line (print_spec s ++ 32 ∷ (print_spec t ++ rest)) ≡ done (some (s, t))
unfolding parse_config_line parse_pair
parse_config_line-print_spec s t rest hs ht h =
    rw (scan_words_two max_path max_path _ _ rest hs.word ht.word h hs.fits ht.fits) (
      ap done (
        rw (parse_pair, parse_directory_spec-print_spec s hs.printable)
          (rw (parse_directory_spec-print_spec t ht.printable))))

-- A line shorter than the arrays never writes past them: the call returns.
pub parse_config_line_safe :
    (line : Bytes)
    → length line < max_path
    → (r : Option (DirectorySpec × DirectorySpec)) × (parse_config_line line ≡ done r)
unfolding parse_config_line
parse_config_line_safe line h =
    let (ws, e) = scan_words_safe (max_path ∷ max_path ∷ []) line (h, (h, tt)) in
    (parse_pair ws, rw e)

-- A first word of 1024 bytes or more is written past the end of `source_spec`.
pub parse_config_line_overrun :
    (w rest : Bytes)
    → IsWord w
    → StartsWithSpace rest
    → max_path ≤ length w
    → parse_config_line (w ++ rest) ≡ overrun
unfolding parse_config_line
parse_config_line_overrun w rest hw h long =
    rw (scan_words_overrun max_path (max_path ∷ []) w rest hw h long)
