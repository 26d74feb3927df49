-- ===== src/Kernel/Config/Choice.antt =====
-- src/kernel/config_view.py: the last row of a table entry.
use absolute_zero.Prelude.{◌≡◌, Bool, true, List, [], ◌∷◌, ◌&&◌, all_of, arith}
use absolute_zero.Kernel.Config.{Row, Rows, last_of, last_row}

last_of-all_of :
    (p : Row → Bool) (r : Row) (rest : List Row)
    → p r ≡ true
    → all_of p rest ≡ true
    → p (last_of r rest) ≡ true
unfolding last_of
last_of-all_of p r [] h k = h
last_of-all_of p r (s ∷ rest) h k = last_of-all_of p s rest (ground arith) (ground arith)

pub last_row-all_of :
    (p : Row → Bool) (rs : Rows)
    → (p rs.first && all_of p rs.others) ≡ true
    → p (last_row rs) ≡ true
unfolding last_row
last_row-all_of p rs h = last_of-all_of p rs.first rs.others (ground arith) (ground arith)
