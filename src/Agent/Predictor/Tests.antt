-- ===== src/Agent/Predictor/Tests.antt =====
-- A run of the predictor: two readings above the threshold of the CPU, one below, one above that of the
-- memory.
use open_gslb.Common.{ℕ, none, some, List, [], ◌∷◌, leb}
use open_gslb.Agent.Predictor.{Floats, PredictiveConfig, Reading}

abbrev percents : Floats
percents = record { Float = ℕ; zero_float = 0; at_least = λ x limit. leb limit x }

abbrev thresholds : PredictiveConfig percents
thresholds = record { cpu_threshold = 90; memory_threshold = 80; error_rate_threshold = 10 }

abbrev reading : ℕ → ℕ → ℕ → Reading percents
reading cpu memory now = record { cpu = some cpu; memory = some memory; errors = none; now = now }

abbrev readings : List (Reading percents)
readings = reading 20 85 4 ∷ reading 30 40 3 ∷ reading 95 40 2 ∷ reading 91 40 1 ∷ []
