-- ===== src/Metrics/Laws.antt =====
-- Increments of the counters of app/metrics.py.
use webhook_ingestion_servic.Prelude.{ℕ, ◌+◌, ◌≡◌, ◌↔◌, Bool, true, [], ◌∷◌, arith, if◌then◌else◌}
use webhook_ingestion_servic.Metrics.{Series, inc, value}

module _ {K : Type 0} (same : K → K → Bool) (lawful : (a b : K) → (same a b ≡ true) ↔ (a ≡ b)) where
  -- An increment is seen at its own label set and at no other.
  pub value-inc :
      (k j : K) (n : ℕ) (l : Series K)
      → value (same k) (inc (same j) j n l) ≡ value (same k) l + (if same k j then n else 0)
  unfolding value inc
  value-inc k j n [] = ground arith
  value-inc k j n ((i, v) ∷ l) =
      ground (arith, lawful k i, lawful j i, lawful k j, value-inc k j n l)
