-- ===== src/Json/Laws.antt =====
-- Reading a JSON object after a write.
use webhook_ingestion_servic.Prelude.{String, ◌≡◌, refl, some, str_eq, eq_iff, arith, if◌then◌else◌}
use webhook_ingestion_servic.Json.{Json, Fields, end, field, get, set}

-- A write is read back under its key, and under no other.
pub get-set :
    (k j : String) (v : Json) (d : Fields)
    → get j (set k v d) ≡ (if str_eq k j then some v else get j d)
unfolding get set
get-set k j v end = refl
get-set k j v (field i w rest) =
    ground (arith, eq_iff i k, eq_iff i j, eq_iff k j, get-set k j v rest)
