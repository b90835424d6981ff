-- ===== src/Examples/Handles.antt =====
-- The C interface, after a few calls.
use setrixdb.Base.{◌≡◌, true, some, List, [], ◌∷◌}
use setrixdb.Capi.{
  initial, run, Call, call_new, call_add_many, call_len, sx_set_has, sx_intersect_many,
}
use setrixdb.Capi.Refinement.{run_store, empty_store}
use setrixdb.Capi.Answers.{sx_set_has-run_store, sx_intersect_many-run_store}

abbrev calls : List Call
calls =
    call_new
    ∷ call_add_many 1 (7 ∷ 3 ∷ 7 ∷ []) 3
    ∷ call_new
    ∷ call_len 1
    ∷ call_add_many 2 (3 ∷ 7 ∷ 9 ∷ []) 2
    ∷ []

sx_set_has-run_store_example : (sx_set_has (run initial calls) 1 3).0 ≡ some true
unfolding run_store empty_store
sx_set_has-run_store_example = sx_set_has-run_store calls 1 3

sx_intersect_many-run_store_example : (sx_intersect_many (run initial calls) 1 2).0 ≡ some 2
unfolding run_store empty_store
sx_intersect_many-run_store_example = sx_intersect_many-run_store calls 1 2
