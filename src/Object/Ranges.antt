-- ===== src/Object/Ranges.antt =====
-- Ranges of addresses and lists of them, apart from the lists of signal_test/object.c and src/object.c that hold them.
use atrace.Prelude.{ℕ, Bool, false, ◌&&◌, ◌||◌, List, [], ◌∷◌, ◌==◌}

-- Does the range stand in a list?
abbrev pub listed : ℕ × ℕ → List (ℕ × ℕ) → Bool
listed r [] = false
listed r (s ∷ rest) = (r.0 == s.0 && r.1 == s.1) || listed r rest
