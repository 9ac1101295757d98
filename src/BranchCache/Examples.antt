-- ===== src/BranchCache/Examples.antt =====
-- A branch that is learned, and one beside it.
use m68k_rs.Base.{true, false, ◌≡◌}
use mathlib.Core.List.{[], ◌∷◌}
use m68k_rs.BranchCache.{empty, predict}
use m68k_rs.BranchCache.Laws.{run, predict-run, decides, counts, strength}

predict-run_example :
    predict (run empty 0x1000 ((true, true) ∷ (false, true) ∷ (true, false) ∷ [])) 0x1000
    ≡ decides (counts (strength empty 0x1000) ((true, true) ∷ (false, true) ∷ (true, false) ∷ []))
predict-run_example = predict-run empty 0x1000 ((true, true) ∷ (false, true) ∷ (true, false) ∷ [])
