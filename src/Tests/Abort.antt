-- ===== src/Tests/Abort.antt =====
-- abort/: an instance.
use goja_ext.Prelude.{List, [], ◌∷◌, some, none}
use goja_ext.Abort.Once.{SignalCall, abort, add, remove}

abbrev script : List SignalCall
script = add 1 ∷ add 2 ∷ add 3 ∷ remove 2 ∷ abort none ∷ add 4 ∷ abort (some 7) ∷ []
