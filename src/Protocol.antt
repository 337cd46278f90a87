-- ===== src/Protocol.antt =====
-- The commands that the manager sends to the file servers, as its calls of `snprintf` write them.
use nfs_system.Base.{ℕ, ◌∷◌, ◌++◌}
use nfs_system.Text.{Bytes, codes}
use nfs_system.Text.Decimal.{print_nat}

-- "LIST %s\n"
unfoldable pub list_line : Bytes → Bytes
list_line dir = codes "LIST " ++ (dir ++ codes "\n")

-- "PULL %s\n"
unfoldable pub pull_line : Bytes → Bytes
pull_line path = codes "PULL " ++ (path ++ codes "\n")

-- "PUSH %s -1\n"
unfoldable pub push_start : Bytes → Bytes
push_start path = codes "PUSH " ++ (path ++ codes " -1\n")

-- "PUSH %s %zu "
unfoldable pub push_chunk : Bytes → ℕ → Bytes
push_chunk path n = codes "PUSH " ++ (path ++ 32 ∷ (print_nat n ++ codes " "))

-- "PUSH %s 0\n"
unfoldable pub push_end : Bytes → Bytes
push_end path = codes "PUSH " ++ (path ++ codes " 0\n")
