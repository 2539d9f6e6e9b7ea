-- ===== src/Samples/Tables.antt =====
-- A table of descriptor contexts in which a descriptor behind its end is opened.
use acid_compute.Prelude.{ℕ, Bool, true, Option, some, refl, arith}
use acid_compute.Descriptors.{new_manager}
use acid_compute.Descriptors.Table.{Created, get-Created}

abbrev sockets : ℕ → Option Bool
sockets fd = some true

get-Created_example : Created sockets 100 3 true new_manager
unfolding new_manager
get-Created_example =
    get-Created sockets new_manager 100 3 true (omega arith) (omega arith) (omega arith) refl
      (omega arith)
