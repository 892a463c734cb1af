-- ===== src/Tools/Text.antt =====
-- Python's text operations that the tools use.
use Prim.Native.String.{find, len}
use webhook_ingestion_servic.Prelude.{String, Bool, leb, str_eq, if◌then◌else◌}

-- `marker in text`
abbrev pub contains : String → String → Bool
contains text marker = leb (find text marker) (len text)

-- `s.rstrip('/')`
abbrev pub rstrip_slash : String → String
rstrip_slash String.[] = ""
rstrip_slash (String.◌∷◌ c s) =
    let rest = rstrip_slash s in
    let kept = String.◌∷◌ c rest in if str_eq kept "/" then "" else kept
