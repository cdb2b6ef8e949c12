-- ===== src/Tests/Analyzer.antt =====
-- The theorem on the analyzer at a concrete input.
use multicast_bridge.Common.{Bool, true, false, List, [], ◌∷◌}
use multicast_bridge.Fec.Analyzer.Verdict.{Verdict}

-- A data packet is lost, and the redundant one comes.
abbrev came : List Bool
came = true ∷ false ∷ true ∷ []
