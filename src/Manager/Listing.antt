-- ===== src/Manager/Listing.antt =====
-- The answer to LIST: what the file server sends, and which names the manager reads out of it.
use nfs_system.Base.{
  ◌+◌, ◌<◌, List, [], ◌∷◌, ◌++◌, append_assoc, append-nil, some, false, if◌then◌else◌, length,
  length-append, ◌≡◌, ◌≢◌, refl, ap, arith, sym, ◌∙◌, All, if_intro,
}
use nfs_system.Text.{Bytes, codes, str_eq}
use nfs_system.Text.Search.{Lacks}
use nfs_system.Net.{flatten, c_string, bounded}
use nfs_system.Net.Laws.{bounded_short, c_string-append}
use nfs_system.Spec.{max_path}
use nfs_system.Pool.{max_filename}
use nfs_system.Client.{Disk, relative, is_hidden, list_entries, handle_list_command}
use nfs_system.Manager.{pieces, tokens, listed}

-- A name that a directory entry can have and that one line holds.
pub record IsFilename (name : Bytes) : Type 0 where
  pub some_bytes : name ≢ []
  pub one_line : Lacks 10 name
  pub no_nul : Lacks 0 name
  pub fits : length name < max_filename

-- The files that LIST is to name: the regular ones whose names do not begin with a dot.
abbrev pub visible : Disk → Bytes → List Bytes → List Bytes
visible disk dir [] = []
visible disk dir (name ∷ names) =
    let rest = visible disk dir names in
    if is_hidden name
    then rest
    else if disk.is_regular (bounded max_path (dir ++ b'/' ∷ name))
    then name ∷ rest
    else rest

-- Lines, and the end mark.
abbrev pub lines : List Bytes → List Bytes
lines [] = codes ".\n" ∷ []
lines (name ∷ names) = (name ++ 10 ∷ []) ∷ lines names

pub list_entries-lines :
    (disk : Disk) (dir : Bytes) (names : List Bytes)
    → All IsFilename names
    → list_entries disk dir names ≡ lines (visible disk dir names)
unfolding list_entries
list_entries-lines disk dir [] h = refl
list_entries-lines disk dir (name ∷ names) (h, hs) = ground (
  arith,
  list_entries-lines disk dir names hs,
  bounded_short (max_filename + 2) (name ++ 10 ∷ [])
      (omega (arith, length-append name (10 ∷ []), h.fits)),
)

pub listing :
    (disk : Disk) (dir : Bytes) (names : List Bytes)
    → disk.entries (relative dir) ≡ some names
    → All IsFilename names
    → handle_list_command disk dir ≡ lines (visible disk (relative dir) names)
unfolding handle_list_command
listing disk dir names e h =
    rw (handle_list_command, e) (list_entries-lines disk (relative dir) names h)

abbrev pub IsListed : Bytes → Type 0
IsListed name = IsFilename name × (str_eq name (codes ".") ≡ false)

pieces_line : (name s : Bytes) → Lacks 10 name → pieces (name ++ 10 ∷ s) ≡ (name, tokens s)
unfolding pieces tokens
pieces_line [] s h = refl
pieces_line (x ∷ name) s (hx, h) = ground (arith, pieces_line name s h)

pub tokens_line :
    (name s : Bytes) → name ≢ [] → Lacks 10 name → tokens (name ++ 10 ∷ s) ≡ name ∷ tokens s
unfolding tokens
tokens_line [] s ne h = absurd (ne refl)
tokens_line (x ∷ name) s ne h = rw (tokens, pieces_line (x ∷ name) s h)

abbrev pub read_lines : List Bytes → List Bytes
read_lines names = listed (tokens (c_string (flatten (lines names))))

pub c_string_line :
    (name rest : Bytes)
    → Lacks 0 name
    → c_string ((name ++ 10 ∷ []) ++ rest) ≡ name ++ 10 ∷ c_string rest
unfolding c_string
c_string_line name rest h =
    rw (append_assoc name (10 ∷ []) rest, c_string-append name (10 ∷ rest) h) refl

-- The manager reads the names out of the listing.
pub read_lines-lines : (names : List Bytes) → All IsListed names → read_lines names ≡ names
unfolding listed
read_lines-lines [] h = unfold c_string tokens pieces str_eq in refl
read_lines-lines (name ∷ names) ((f, plain), hs) =
    ap listed (
      ap tokens (c_string_line name (flatten (lines names)) f.no_nul)
      ∙ tokens_line name (c_string (flatten (lines names))) f.some_bytes f.one_line)
    ∙ rw (plain) (ap (◌∷◌ name) (read_lines-lines names hs))

not_dot : (name : Bytes) → is_hidden name ≡ false → str_eq name (codes ".") ≡ false
unfolding is_hidden str_eq
not_dot [] h = refl
not_dot (c ∷ name) h = ground arith

pub visible-IsListed :
    (disk : Disk) (dir : Bytes) (names : List Bytes)
    → All IsFilename names
    → All IsListed (visible disk dir names)
visible-IsListed disk dir [] h = tt
visible-IsListed disk dir (name ∷ names) (h, hs) =
    if_intro (All IsListed) (is_hidden name) (λ e. visible-IsListed disk dir names hs)
      (λ e.
        if_intro (All IsListed) (disk.is_regular (bounded max_path (dir ++ b'/' ∷ name)))
          (λ e1. ((h, not_dot name e), visible-IsListed disk dir names hs))
          (λ e1. visible-IsListed disk dir names hs))

pub one_line_read :
    (name : Bytes) → IsListed name → listed (tokens (c_string (name ++ 10 ∷ []))) ≡ name ∷ []
unfolding listed
one_line_read name (f, plain) =
    ap listed (
      ap tokens (ap c_string (sym (append-nil (name ++ 10 ∷ []))) ∙ c_string_line name [] f.no_nul)
      ∙ tokens_line name (c_string []) f.some_bytes f.one_line)
    ∙ rw (plain) (unfold c_string tokens pieces in refl)
