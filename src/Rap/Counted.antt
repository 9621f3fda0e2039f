-- ===== src/Rap/Counted.antt =====
-- The records of a list, read one behind the other.
use cifscp.Base.{ℕ, ◌+◌, ◌≡◌, Option, none, some, List, [], ◌∷◌, length}
use cifscp.Codepage.{Iconv}
use cifscp.Transact.{Block}
use cifscp.Rap.{Node, NodeType, record_size, read_node}

-- The nodes are what the records from `at` on say.
abbrev pub Records : Iconv → NodeType → ℕ → Block → ℕ → List Node → Type 0
Records page type conv b at [] = Unit
Records page type conv b at (n ∷ ns) =
    (read_node page type conv b at ≡ some n) × Records page type conv b (at + record_size type) ns

-- When all records can be read, the nodes are as many.
abbrev IsList : Iconv → NodeType → ℕ → Block → ℕ → ℕ → Option (List Node) → Type 0
IsList page type conv b n at none = Unit
IsList page type conv b n at (some ns) = (length ns ≡ n) × Records page type conv b at ns
