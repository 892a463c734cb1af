-- ===== src/Json.antt =====
-- The JSON values that webhook payloads and queue messages hold (`Dict[str, Any]` in app/schemas.py,
-- `json.loads` in app/queue.py), with the Python operations that the code applies to them.
pub mod Laws
use webhook_ingestion_servic.Prelude.{
  zero, String, Bool, true, false, not, Option, none, some, ℤ, pos, str_eq, if◌then◌else◌,
}

-- A float, by what `int(x)` and `bool(x)` tell of it: `truncated` is none for NaN and the infinities.
pub record Float : Type 0 where
  pub truncated : Option ℤ
  pub nonzero : Bool

mutual
  pub data Json : Type 0 where
    null : Json
    bool : Bool → Json
    num : ℤ → Json
    float : Float → Json
    text : String → Json
    arr : Items → Json
    obj : Fields → Json

  pub data Items : Type 0 where
    nil : Items
    cons : Json → Items → Items

  pub data Fields : Type 0 where
    end : Fields
    field : String → Json → Fields → Fields

-- `d.get(key)`, with none for a missing key.
unfoldable pub get : String → Fields → Option Json
get key end = none
get key (field k v rest) = if str_eq k key then some v else get key rest

-- `d[key] = v` on a copy of `d`.
unfoldable pub set : String → Json → Fields → Fields
set key v end = field key v end
set key v (field k w rest) = if str_eq k key then field k v rest else field k w (set key v rest)

-- `bool(x)`
unfoldable pub truthy : Json → Bool
truthy null = false
truthy (bool b) = b
truthy (num (pos zero)) = false
truthy (num n) = true
truthy (float x) = x.nonzero
truthy (text s) = not (str_eq s "")
truthy (arr nil) = false
truthy (arr (cons x xs)) = true
truthy (obj end) = false
truthy (obj (field k v rest)) = true

-- `x is True`
unfoldable pub is_true : Json → Bool
is_true (bool b) = b
is_true null = false
is_true (num n) = false
is_true (float x) = false
is_true (text s) = false
is_true (arr xs) = false
is_true (obj xs) = false
