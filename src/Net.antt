-- ===== src/Net.antt =====
-- What the program sees of TCP: a connection is the list of the segments that are still to arrive,
-- and one `recv` returns bytes of the first segment alone. Every way in which the network may cut or
-- join what was sent is such a list. Also the text functions that handle received bytes.
pub mod Laws
pub mod Receive
pub mod Sockets
use nfs_system.Base.{
  ℕ, zero, suc, ◌+◌, ◌-◌, List, [], ◌∷◌, ◌++◌, Option, none, some, Bool, true, false, ◌==◌, ◌&&◌,
  leb, if◌then◌else◌, length, take, drop,
}
use nfs_system.Text.{Bytes}
use nfs_system.Text.Search.{strchr}

abbrev pub Stream : Type 0
Stream = List Bytes

-- `recv(fd, buffer, n, 0)`; `none` is a result of 0 or -1, the end of the connection or an error.
unfoldable pub recv : ℕ → Stream → Option (Bytes × Stream)
recv n [] = none
recv n ([] ∷ rest) = none
recv n ((x ∷ seg) ∷ rest) =
    if leb (length (x ∷ seg)) n
    then some (x ∷ seg, rest)
    else some (take n (x ∷ seg), drop n (x ∷ seg) ∷ rest)

-- The bytes of all segments.
abbrev pub flatten : Stream → Bytes
flatten [] = []
flatten (seg ∷ rest) = seg ++ flatten rest

-- The string in a buffer that holds these bytes and a NUL behind them.
unfoldable pub c_string : Bytes → Bytes
c_string [] = []
c_string (x ∷ s) = let rest = c_string s in if x == 0 then [] else x ∷ rest

-- `snprintf(buffer, n, …)` of a text.
unfoldable pub bounded : ℕ → Bytes → Bytes
bounded n s = take (n - 1) s

-- `*strchr(buffer, '\n') = '\0'`, if there is a newline.
unfoldable pub first_line : Bytes → Bytes
first_line s = elim (strchr 10 s) [ none ↦ s | some (line, rest) ↦ line ]

-- `strncmp(s, prefix, strlen(prefix)) == 0`, with what stands behind the prefix.
unfoldable pub strip_prefix : Bytes → Bytes → Option Bytes
strip_prefix [] s = some s
strip_prefix (p ∷ ps) [] = none
strip_prefix (p ∷ ps) (x ∷ s) = let rest = strip_prefix ps s in if x == p then rest else none

-- `while (*s == ' ') s++`
unfoldable pub skip_blanks : Bytes → Bytes
skip_blanks [] = []
skip_blanks (x ∷ s) = let rest = skip_blanks s in if x == 32 then rest else x ∷ s
