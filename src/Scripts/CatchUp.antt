-- ===== src/Scripts/CatchUp.antt =====
-- Catching up ends.
use web_broadcaster.Base.{ℕ, zero, suc, List, [], ◌∷◌}
use web_broadcaster.Scripts.Worker.{Worker, Event, finishes}

-- `k` seconds that are processed with no tick between.
abbrev pub seconds : ℕ → List Event
seconds zero = []
seconds (suc k) = finishes ∷ seconds k
