-- ===== src/Security/ApiKey.antt =====
-- Which requests `require_api_key` of app/routers/webhooks.py lets through.
use webhook_ingestion_servic.Prelude.{
  String, ◌≡◌, ap, ◌⊎◌, ◌↔◌, true, Option, none, some, eq_iff, arith,
}
use webhook_ingestion_servic.Runtime.{Runtime, World, Outcome, ok}
use webhook_ingestion_servic.Security.{is_ascii, require_api_key}

module _ (rt : Runtime) where
  -- The header holds the configured key.
  pub record HasKey (x_api_key : Option String) : Type 0 where
    pub given : x_api_key ≡ some rt.settings.api_key
    pub ascii : is_ascii rt.settings.api_key ≡ true

  require_api_key_sound :
      (x : Option String) (w : World)
      → (require_api_key rt x w).0 ≡ ok tt
      → (rt.settings.api_key ≡ "") ⊎ HasKey x
  unfolding require_api_key
  require_api_key_sound none w h = ground (arith, eq_iff rt.settings.api_key "")
  require_api_key_sound (some k) w h =
      ground (arith, eq_iff rt.settings.api_key "", eq_iff k "", eq_iff k rt.settings.api_key)

  require_api_key_complete :
      (x : Option String) (w : World)
      → (rt.settings.api_key ≡ "") ⊎ HasKey x
      → require_api_key rt x w ≡ (ok tt, w)
  unfolding require_api_key
  require_api_key_complete none w h = ground (arith, eq_iff rt.settings.api_key "")
  require_api_key_complete (some k) w h =
      ground (arith, eq_iff rt.settings.api_key "", eq_iff k "", eq_iff k rt.settings.api_key)

  -- The check returns exactly when no key is configured, or when the header holds the configured key
  -- and that key is ASCII.
  pub require_api_key_iff :
      (x_api_key : Option String) (w : World)
      → ((require_api_key rt x_api_key w).0 ≡ ok tt)
        ↔ ((rt.settings.api_key ≡ "") ⊎ HasKey x_api_key)
  require_api_key_iff x w = (
    require_api_key_sound x w,
    λ h. ap (λ (r : Outcome Unit × World). r.0) (require_api_key_complete x w h),
  )

  -- The check changes nothing, whatever it decides.
  pub require_api_key_unchanged :
      (x_api_key : Option String) (w : World) → (require_api_key rt x_api_key w).1 ≡ w
  unfolding require_api_key
  require_api_key_unchanged none w = ground arith
  require_api_key_unchanged (some k) w = ground arith
