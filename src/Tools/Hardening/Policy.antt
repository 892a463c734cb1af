-- ===== src/Tools/Hardening/Policy.antt =====
-- What tools/hardening_check.py reports, compared with the policy as a list of requirements.
use mathlib.Core.List.{map-append, append-nil, append_assoc}
use webhook_ingestion_servic.Prelude.{
  ◌≡◌, refl, sym, ap, ◌∙◌, subst, ◌↔◌, inl, inr, String, Bool, true, false, not, ◌&&◌, Option, none,
  some, is_some, List, [], ◌∷◌, ◌++◌, map, select, select-append, All, arith, Bool-cases,
  Option-cases, str_eq, if◌then◌else◌,
}
use webhook_ingestion_servic.Tools.Text.{contains}
use webhook_ingestion_servic.Tools.Hardening.{
  Files, Run, fail, missing_marker, missing_asset, check_markers, check_assets, require_markers,
  write_report, conclude, main, dockerfile_markers, ci_markers, compose_markers, required_assets,
  readme_markers, router_markers, ◌>>=◌,
}

-- A text that a file must contain, or a path that must exist.
pub data Requirement : Type 0 where
  marker : (path text : String) → Requirement
  asset : String → Requirement

abbrev pub message : Requirement → String
message (marker path text) = missing_marker path text
message (asset path) = missing_asset path

abbrev pub image : List Requirement
image = map (λ s. marker "Dockerfile" s) dockerfile_markers

abbrev pub image_ci : List Requirement
image_ci = image ++ map (λ s. marker ".github/workflows/ci.yml" s) ci_markers

abbrev pub image_ci_compose : List Requirement
image_ci_compose = image_ci ++ map (λ s. marker "docker-compose.yml" s) compose_markers

abbrev pub all_assets : List Requirement
all_assets = image_ci_compose ++ map (λ p. asset p) required_assets

abbrev pub all_docs : List Requirement
all_docs = all_assets ++ map (λ s. marker "README.md" s) readme_markers

abbrev pub policy : List Requirement
policy = all_docs ++ map (λ s. marker "app/routers/webhooks.py" s) router_markers

module _ (files : Files) where
  abbrev pub is_met : Requirement → Bool
  is_met (marker path s) = elim (files.text path) [ none ↦ false | some text ↦ contains text s ]
  is_met (asset path) = files.exists path

  abbrev pub unmet : List Requirement → List Requirement
  unmet l = select (λ r. not (is_met r)) l

  abbrev pub is_readable : String → Bool
  is_readable path = is_some (files.text path)

  -- The files that the check reads and the report can be read and written.
  abbrev pub accessible : Bool
  accessible =
      is_readable "Dockerfile"
      && is_readable ".github/workflows/ci.yml"
      && is_readable "docker-compose.yml"
      && is_readable "README.md"
      && is_readable "app/routers/webhooks.py"
      && files.writable

  abbrev pub Judges : Option Run → Type 0
  Judges none = accessible ≡ false
  Judges (some run) =
      (accessible ≡ true)
      × (run.report.errors ≡ map message (unmet policy))
      × ((run.exit_code ≡ 0) ↔ All (λ r. is_met r ≡ true) policy)
      × ((run.report.status ≡ "passed") ↔ (run.exit_code ≡ 0))

  unmet_met : (r : Requirement) (l : List Requirement) → is_met r ≡ true → unmet (r ∷ l) ≡ unmet l
  unfolding select
  unmet_met r l h = rw h refl

  unmet_lacking :
      (r : Requirement) (l : List Requirement) → is_met r ≡ false → unmet (r ∷ l) ≡ r ∷ unmet l
  unfolding select
  unmet_lacking r l h = rw h refl

  -- The errors after one requirement, and after those that follow.
  after_one :
      (r : Requirement) (l : List Requirement) (errors : List String)
      → (if is_met r then errors else fail errors (message r)) ++ map message (unmet l)
        ≡ errors ++ map message (unmet (r ∷ l))
  after_one r l errors = elim (Bool-cases (is_met r)) [
    | inl met ↦ rw (met, unmet_met r l met) refl
    | inr lacking ↦ rw (lacking, unmet_lacking r l lacking) (append_assoc errors (message r ∷ []) _)
  ]

  check_markers-unmet :
      (path text : String) (markers errors : List String)
      → files.text path ≡ some text
      → check_markers text path markers errors
        ≡ errors ++ map message (unmet (map (λ s. marker path s) markers))
  unfolding check_markers select
  check_markers-unmet path text [] errors found = sym (append-nil errors)
  check_markers-unmet path text (s ∷ markers) errors found =
      let same : is_met (marker path s) ≡ contains text s = rw (is_met, found) refl in
      check_markers-unmet path text markers _ found
      ∙ subst
          (λ b.
            (if b then errors else fail errors (missing_marker path s))
              ++ map message (unmet (map (λ s'. marker path s') markers))
            ≡ errors ++ map message (unmet (marker path s ∷ map (λ s'. marker path s') markers)))
          same (after_one (marker path s) (map (λ s'. marker path s') markers) errors)

  check_assets-unmet :
      (paths errors : List String)
      → check_assets files paths errors ≡ errors ++ map message (unmet (map (λ p. asset p) paths))
  unfolding check_assets select
  check_assets-unmet [] errors = sym (append-nil errors)
  check_assets-unmet (p ∷ paths) errors =
      check_assets-unmet paths _ ∙ after_one (asset p) (map (λ q. asset q) paths) errors

  -- The errors so far are those of the requirements so far.
  unmet_more :
      (l l' : List Requirement) (errors : List String)
      → errors ≡ map message (unmet l)
      → errors ++ map message (unmet l') ≡ map message (unmet (l ++ l'))
  unmet_more l l' errors so = rw (select-append (λ r. not (is_met r)) l l', map-append) (rw so refl)

  -- One file's markers: the file is not readable, or the errors are extended by its unmet markers.
  markers_step :
      (Q : Option Run → Type 0) (l : List Requirement) (path : String)
      (markers errors : List String) (after : List String → Option Run)
      → errors ≡ map message (unmet l)
      → (is_readable path ≡ false → Q none)
      → (is_readable path ≡ true
          → (errors' : List String)
          → errors' ≡ map message (unmet (l ++ map (λ s. marker path s) markers))
          → Q (after errors'))
      → Q (require_markers files errors path markers >>= after)
  unfolding require_markers
  markers_step Q l path markers errors after so bad good = elim (Option-cases (files.text path)) [
    | inl missing ↦ rw missing (bad (ap is_some missing))
    | inr (text, found) ↦ rw found (
        good (ap is_some found) _ (
          check_markers-unmet path text markers errors found
          ∙ unmet_more l (map (λ s. marker path s) markers) errors so))
  ]

  All-met : (l : List Requirement) → (unmet l ≡ []) ↔ All (λ r. is_met r ≡ true) l
  unfolding select
  All-met [] = (λ h. tt, λ h. refl)
  All-met (r ∷ l) = elim (Bool-cases (is_met r)) [
    | inl met ↦ rw met (λ h. (refl, (All-met l).0 h), λ h. (All-met l).1 h.1)
    | inr lacking ↦ rw lacking (λ h. absurd (cc), λ h. absurd (cc))
  ]

  empty_map : (l : List Requirement) → map message l ≡ [] → l ≡ []
  empty_map [] h = refl
  empty_map (r ∷ l) h = absurd (cc)

  clash : (x : String) (l : List String) → x ∷ l ≡ [] → ⊥
  clash x l h = cc

  differ : ◌≡◌ {A = String} "failed" "passed" → ⊥
  differ h = ground (arith, ap (λ s. str_eq s "passed") h)

  concluded :
      (l : List Requirement) (errors : List String)
      → errors ≡ map message (unmet l)
      → (((conclude errors).exit_code ≡ 0) ↔ All (λ r. is_met r ≡ true) l)
        × (((conclude errors).report.status ≡ "passed") ↔ ((conclude errors).exit_code ≡ 0))
        × ((conclude errors).report.errors ≡ errors)
  unfolding conclude
  concluded l [] so =
      let none_open : unmet l ≡ [] = empty_map (unmet l) (sym so) in
      ((λ h. (All-met l).0 none_open, λ h. refl), (λ h. refl, λ h. refl), refl)
  concluded l (error ∷ errors) so = (
    (
      λ h. absurd (omega (arith, h)),
      λ h. absurd (clash error errors (so ∙ ap (map message) ((All-met l).1 h))),
    ),
    (λ h. absurd (differ h), λ h. absurd (omega (arith, h))),
    refl,
  )

  written :
      (errors : List String)
      → errors ≡ map message (unmet policy)
      → accessible ≡ files.writable
      → Judges (write_report files errors)
  unfolding write_report
  written errors so access =
      let (code, status, listed) = concluded policy errors so in
      decide files.writable access (λ can. (can, listed ∙ so, code, status))
    where
      decide :
          (b : Bool)
          → accessible ≡ b
          → (accessible ≡ true → Judges (some (conclude errors)))
          → Judges (if b then some (conclude errors) else none)
      decide true h f = f h
      decide false h f = h

  -- The hardening check is the check of the policy: it ends with a report if the five files and the
  -- report are accessible, and raises otherwise. The report lists the unmet requirements, each once and
  -- in the order of the policy; the exit code is 0 exactly if all are met, and the status is "passed"
  -- exactly then.
  pub main-Judges : Judges (main files)
  unfolding main select
  main-Judges =
      markers_step Judges [] "Dockerfile" dockerfile_markers [] _ refl (λ b. ground (arith))
        λ a1 _ so1.
          markers_step Judges image ".github/workflows/ci.yml" ci_markers _ _ so1
            (λ b. ground arith)
            λ a2 _ so2.
              markers_step Judges image_ci "docker-compose.yml" compose_markers _ _ so2
                (λ b. ground arith)
                λ a3 e3 so3.
                  markers_step Judges all_assets "README.md" readme_markers _ _
                    (check_assets-unmet required_assets e3
                      ∙ unmet_more image_ci_compose (map (λ p. asset p) required_assets) e3 so3)
                    (λ b. ground arith)
                    λ a4 _ so4.
                      markers_step Judges all_docs "app/routers/webhooks.py" router_markers _ _ so4
                        (λ b. ground arith)
                        λ a5 e5 so5. written e5 so5 (ground (arith, a1, a2, a3, a4, a5))
