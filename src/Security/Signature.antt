-- ===== src/Security/Signature.antt =====
-- What app/security.py accepts and refuses, and that it accepts what tools/send_signed_webhook.py
-- signs.
use Prim.Native.String.{◌++◌}
use webhook_ingestion_servic.Prelude.{
  String, ◌≡◌, refl, ap, ◌∙◌, ◌≢◌, ◌↔◌, true, Option, none, some, ℤ, ◌≤ℤ◌, ◌-ℤ◌, abs, eq_iff, arith,
  Option-cases, inl, inr,
}
use webhook_ingestion_servic.Metrics.{record_signature_failure}
use webhook_ingestion_servic.Runtime.{Runtime, World, Outcome, ok, raise, Bytes, http}
use webhook_ingestion_servic.Security.{
  is_ascii, verify_webhook_signature, check_headers, check_window, check_digest, outside_window,
  build_signature,
}

module _ (rt : Runtime) where
  -- What the headers and the body of a genuine request satisfy, at the time of `w`.
  pub record IsGenuine (body : Bytes) (timestamp signature : Option String) (w : World)
      : Type 0 where
    pub stamp : String
    pub digest : String
    pub value : ℤ
    pub decoded : String
    pub has_stamp : timestamp ≡ some stamp
    pub has_digest : signature ≡ some digest
    pub stamp_given : stamp ≢ ""
    pub digest_given : digest ≢ ""
    pub is_number : rt.int_of_str stamp ≡ some value
    pub in_window :
        abs (rt.time w.history -ℤ value) ≤ℤ rt.settings.webhook_timestamp_tolerance_seconds
    pub is_text : rt.decode_utf8 body ≡ some decoded
    pub digest_ascii : is_ascii digest ≡ true
    pub matches : digest ≡ rt.hmac_sha256_hex rt.settings.webhook_secret (stamp ++ ("." ++ decoded))

  module _ (t s : String) where
    Accepts : Bytes → World → Type 0
    Accepts body w = (verify_webhook_signature rt body (some t) (some s) w).0 ≡ ok tt

    stamp_value :
        (body : Bytes) (w : World)
        → rt.settings.webhook_secret ≢ ""
        → Accepts body w
        → (n : ℤ) × (rt.int_of_str t ≡ some n)
    unfolding Accepts verify_webhook_signature check_headers check_window
    stamp_value body w on h = elim (Option-cases (rt.int_of_str t)) [
      | inl unreadable ↦ ground (arith, eq_iff rt.settings.webhook_secret "")
      | inr found ↦ found
    ]

    body_text :
        (n : ℤ) (body : Bytes) (w : World)
        → rt.settings.webhook_secret ≢ ""
        → rt.int_of_str t ≡ some n
        → Accepts body w
        → (d : String) × (rt.decode_utf8 body ≡ some d)
    unfolding Accepts verify_webhook_signature check_headers check_window check_digest
    body_text n body w on en h = ground (arith, eq_iff rt.settings.webhook_secret "")

  -- With a secret set, only genuine requests pass.
  verify_webhook_signature_sound :
      (body : Bytes) (timestamp signature : Option String) (w : World)
      → rt.settings.webhook_secret ≢ ""
      → (verify_webhook_signature rt body timestamp signature w).0 ≡ ok tt
      → IsGenuine body timestamp signature w
  unfolding Accepts verify_webhook_signature check_headers check_window check_digest outside_window
  verify_webhook_signature_sound body none signature w on h =
      ground (arith, eq_iff rt.settings.webhook_secret "")
  verify_webhook_signature_sound body (some t) none w on h =
      ground (arith, eq_iff rt.settings.webhook_secret "")
  verify_webhook_signature_sound body (some t) (some s) w on h =
      let (n, en) = stamp_value t s body w on h in
      let (d, ed) = body_text t s n body w on en h in
      record {
        stamp = t;
        digest = s;
        value = n;
        decoded = d;
        has_stamp = refl;
        has_digest = refl;
        stamp_given = ground (arith, eq_iff rt.settings.webhook_secret "", eq_iff t "");
        digest_given = ground (arith, eq_iff rt.settings.webhook_secret "", eq_iff s "");
        is_number = en;
        in_window = ground (arith, eq_iff rt.settings.webhook_secret "");
        is_text = ed;
        digest_ascii = ground (arith, eq_iff rt.settings.webhook_secret "");
        matches = ground (
          arith,
          eq_iff rt.settings.webhook_secret "",
          eq_iff s (rt.hmac_sha256_hex rt.settings.webhook_secret (t ++ ("." ++ d))),
        );
      }

  -- The expected digest of a text body under a time stamp.
  abbrev pub expected : String → String → String
  expected t d = rt.hmac_sha256_hex rt.settings.webhook_secret (t ++ ("." ++ d))

  genuine_passes :
      (t : String) (n : ℤ) (d : String) (body : Bytes) (w : World)
      → t ≢ ""
      → expected t d ≢ ""
      → rt.int_of_str t ≡ some n
      → abs (rt.time w.history -ℤ n) ≤ℤ rt.settings.webhook_timestamp_tolerance_seconds
      → rt.decode_utf8 body ≡ some d
      → is_ascii (expected t d) ≡ true
      → verify_webhook_signature rt body (some t) (some (expected t d)) w ≡ (ok tt, w)
  unfolding verify_webhook_signature check_headers check_window check_digest outside_window
  genuine_passes t n d body w nt ns en iw ed da =
      ground (arith, eq_iff t "", eq_iff (expected t d) "", eq_iff (expected t d) (expected t d))

  verify_webhook_signature_complete :
      (body : Bytes) (timestamp signature : Option String) (w : World)
      → IsGenuine body timestamp signature w
      → verify_webhook_signature rt body timestamp signature w ≡ (ok tt, w)
  verify_webhook_signature_complete body timestamp signature w g =
      rw (g.has_stamp, g.has_digest, g.matches)
        (genuine_passes g.stamp g.value g.decoded body w g.stamp_given
          (λ e. g.digest_given (g.matches ∙ e)) g.is_number g.in_window g.is_text
          (rw g.matches at g.digest_ascii))

  -- With a secret set, a request passes exactly if it is genuine: both headers are there and not
  -- empty, the time stamp is a number inside the tolerance window around now, the body is UTF-8, and
  -- the signature is ASCII and equals the HMAC of "<timestamp>.<body>" under the secret.
  pub verify_webhook_signature_iff :
      (body : Bytes) (timestamp signature : Option String) (w : World)
      → rt.settings.webhook_secret ≢ ""
      → ((verify_webhook_signature rt body timestamp signature w).0 ≡ ok tt)
        ↔ IsGenuine body timestamp signature w
  verify_webhook_signature_iff body timestamp signature w on = (
    verify_webhook_signature_sound body timestamp signature w on,
    λ g.
        ap (λ (r : Outcome Unit × World). r.0)
          (verify_webhook_signature_complete body timestamp signature w g),
  )

  -- A body that tools/send_signed_webhook.py signs at `sent` under the service's secret passes at
  -- every later check inside the tolerance window, whatever the clock did in between. Assumed of
  -- Python: `int` reads back what `str` prints of an integer, and a printed integer and a
  -- hexadecimal digest are not empty and the digest is ASCII.
  pub verify-build_signature :
      (str_of_int : ℤ → String) (sent : ℤ) (body : Bytes) (digest : String) (v w : World)
      → (str_of_int sent ≢ "")
      → (rt.int_of_str (str_of_int sent) ≡ some sent)
      → ((k m : String)
          → (rt.hmac_sha256_hex k m ≢ "") × (is_ascii (rt.hmac_sha256_hex k m) ≡ true))
      → (build_signature rt str_of_int rt.settings.webhook_secret body sent v).0 ≡ ok digest
      → abs (rt.time w.history -ℤ sent) ≤ℤ rt.settings.webhook_timestamp_tolerance_seconds
      → verify_webhook_signature rt body (some (str_of_int sent)) (some digest) w ≡ (ok tt, w)
  unfolding build_signature
  verify-build_signature str_of_int sent body digest v w printed reads hex signed iw =
      elim (Option-cases (rt.decode_utf8 body)) [
        | inl undecodable ↦ ground arith
        | inr (d, ed) ↦
            let e : expected (str_of_int sent) d ≡ digest = ground arith in
            let (nonempty, ascii) =
              hex rt.settings.webhook_secret (str_of_int sent ++ ("." ++ d)) in
            rw (← e)
              (genuine_passes (str_of_int sent) sent d body w printed nonempty reads iw ed ascii)
      ]

  abbrev pub Refuses : World → Outcome (Unit {0}) × World → Type 0
  Refuses w (raise (http s d), w') =
      (s ≡ 401) × (w' ≡ record w { metrics = record_signature_failure w.metrics })
  Refuses w (r, w') = w' ≡ w

  -- A refusal with a status is a 401 and counts one signature failure and does nothing else; in every
  -- other case, also where another exception is raised, nothing is changed.
  pub verify_webhook_signature_effect :
      (body : Bytes) (timestamp signature : Option String) (w : World)
      → Refuses w (verify_webhook_signature rt body timestamp signature w)
  unfolding verify_webhook_signature check_headers check_window check_digest
  verify_webhook_signature_effect body none signature w = ground arith
  verify_webhook_signature_effect body (some t) none w = ground arith
  verify_webhook_signature_effect body (some t) (some s) w = ground arith
