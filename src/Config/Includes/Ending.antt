-- ===== src/Config/Includes/Ending.antt =====
-- pkg/config/includes.go: a load ends, whatever the files include.
use open_gslb.Common.{
  ℕ, zero, suc, ◌+◌, ◌≤◌, ◌≡◌, ◌≢◌, refl, ap, ◌∙◌, inl, inr, Text, List, [], ◌∷◌, ltb, text_eq,
  Bool-cases, Option-cases, arith, if◌then◌else◌,
}
use open_gslb.Common.Table.{mentions}
use open_gslb.Config.Types.{Config}
use open_gslb.Config.Validator.Domains.{region_names, domain_names}
use open_gslb.Config.Includes.{
  Files, LoadError, out_of_fuel, IncludeContext, Loaded, failed, loaded, and_then,
  max_include_depth, new_include_context, first_known, merge_config, has_double_star, expand,
  include_matches, include_patterns, load_included, mark, visit, load_file, load_with_includes,
}

abbrev pub Load : Type 0
Load = Text → IncludeContext → Loaded Config

-- The result is not for want of fuel, and a context comes back at the same depth.
abbrev EndsAt : {A : Type 0} → ℕ → Loaded A → Type 0
EndsAt d (failed e) = e ≢ out_of_fuel
EndsAt d (loaded a ctx) = ctx.depth ≡ d

-- Two ways to load give the same, and end.
abbrev SameEnd : {A : Type 0} → ℕ → Loaded A → Loaded A → Type 0
SameEnd d r s = (r ≡ s) × EndsAt d r

abbrev SameLoads : ℕ → Load → Load → Type 0
SameLoads d left right =
    (path : Text) (ctx : IncludeContext)
    → ctx.depth ≡ d
    → SameEnd d (left path ctx) (right path ctx)

error_of : {A : Type 0} → Loaded A → LoadError
error_of (failed e) = e
error_of (loaded a ctx) = out_of_fuel

EndsAt-result : {A : Type 0} (d : ℕ) (r : Loaded A) → EndsAt d r → r ≢ failed out_of_fuel
unfolding error_of
EndsAt-result d (failed e) h = λ k. h (ap error_of k)
EndsAt-result d (loaded a ctx) h = λ k. cc k

too_deep_for_none : (d : ℕ) → 12 ≤ zero + d → d ≤ 11 → 1 ≤ zero
too_deep_for_none d h k = omega arith

and_then-SameEnd :
    {A B : Type 0} (d d' : ℕ) (r s : Loaded A) (f g : A → IncludeContext → Loaded B)
    → SameEnd d r s
    → ((a : A) (ctx : IncludeContext) → ctx.depth ≡ d → SameEnd d' (f a ctx) (g a ctx))
    → SameEnd d' (and_then r f) (and_then s g)
unfolding and_then
and_then-SameEnd d d' (failed e) s f g (same, ends) next = (ap (λ r. and_then r g) same, ends)
and_then-SameEnd d d' (loaded a ctx) s f g (same, ends) next =
    (((next a ctx ends).0) ∙ ap (λ r. and_then r g) same, (next a ctx ends).1)

merge_config-EndsAt :
    (d : ℕ) (main included : Config) (source : Text) (ctx : IncludeContext)
    → ctx.depth ≡ d
    → EndsAt d (merge_config main included source ctx)
unfolding merge_config
merge_config-EndsAt d main included source ctx at =
    elim (Option-cases (first_known (region_names main.regions) (region_names included.regions))) [
      | inr (name, e) ↦ rw (e, merge_config) (λ k. cc k)
      | inl e ↦
          elim (Option-cases
            (first_known (domain_names main.domains) (domain_names included.domains))) [
              | inr (name, u) ↦ rw (e, merge_config, u) (λ k. cc k)
              | inl u ↦ rw (e, merge_config, u) at
            ]
    ]

module _ (fs : Files) where
  expand-EndsAt :
      (d : ℕ) (base_dir pattern : Text) (ctx : IncludeContext)
      → ctx.depth ≡ d
      → EndsAt d (expand fs base_dir pattern ctx)
  unfolding expand
  expand-EndsAt d base_dir pattern ctx at =
      elim (Option-cases
        (fs.glob (if fs.is_abs pattern then pattern else fs.join base_dir pattern))) [
          | inl e ↦ rw (e, expand) (λ k. cc k)
          | inr (matches, e) ↦ elim (Bool-cases (has_double_star pattern)) [
            | inr plain ↦ rw (e, expand, plain) at
            | inl starred ↦ elim (Option-cases (fs.expand_double_star base_dir pattern)) [
              | inl u ↦ rw (e, expand, starred, u) (λ k. cc k)
              | inr (found, u) ↦ rw (e, expand, starred, u) at
            ]
          ]
        ]

  include_matches-SameEnd :
      (left right : Load) (d : ℕ) (matches : List Text) (cfg : Config) (ctx : IncludeContext)
      → SameLoads d left right
      → ctx.depth ≡ d
      → SameEnd d
          (include_matches fs left matches cfg ctx)
          (include_matches fs right matches cfg ctx)
  unfolding include_matches
  include_matches-SameEnd left right d [] cfg ctx same at = (refl, at)
  include_matches-SameEnd left right d (match ∷ matches) cfg ctx same at =
      elim (Option-cases (fs.abs match)) [
        | inl e ↦ rw (e, include_matches) (refl, λ k. cc k)
        | inr (path, e) ↦ elim (Option-cases (fs.stat path)) [
          | inl u ↦ rw (e, include_matches, u) (refl, λ k. cc k)
          | inr (info, u) ↦ elim (Bool-cases info.is_dir) [
            | inl directory ↦
                rw (e, include_matches, u, directory)
                  (include_matches-SameEnd left right d matches cfg ctx same at)
            | inr file ↦ elim (Bool-cases info.world_writable) [
              | inl open_to_all ↦ rw (e, include_matches, u, file, open_to_all) (refl, λ k. cc k)
              | inr closed ↦
                  rw (e, include_matches, u, file, closed)
                    (and_then-SameEnd d d _ _ _ _ (same path ctx at) (λ included next at2.
                      and_then-SameEnd d d _ _ _ _
                        (refl, merge_config-EndsAt d cfg included path next at2)
                        (λ merged last at3.
                          include_matches-SameEnd left right d matches merged last same at3)))
            ]
          ]
        ]
      ]

  include_patterns-SameEnd :
      (left right : Load) (d : ℕ) (base_dir : Text) (patterns : List Text) (cfg : Config)
      (ctx : IncludeContext)
      → SameLoads d left right
      → ctx.depth ≡ d
      → SameEnd d
          (include_patterns fs left base_dir patterns cfg ctx)
          (include_patterns fs right base_dir patterns cfg ctx)
  unfolding include_patterns
  include_patterns-SameEnd left right d base_dir [] cfg ctx same at = (refl, at)
  include_patterns-SameEnd left right d base_dir (pattern ∷ patterns) cfg ctx same at =
      and_then-SameEnd d d _ _ _ _ (refl, expand-EndsAt d base_dir pattern ctx at)
        (λ matches next at2.
          and_then-SameEnd d d _ _ _ _
            (include_matches-SameEnd left right d matches cfg next same at2)
            (λ merged last at3.
              include_patterns-SameEnd left right d base_dir patterns merged last same at3))

  load_included-SameEnd :
      (left right : Load) (d : ℕ) (path : Text) (patterns : List Text) (cfg : Config)
      (ctx : IncludeContext)
      → SameLoads (d + 1) left right
      → ctx.depth ≡ d
      → SameEnd d
          (load_included fs left path patterns cfg ctx)
          (load_included fs right path patterns cfg ctx)
  unfolding load_included
  load_included-SameEnd left right d path [] cfg ctx same at = (refl, at)
  load_included-SameEnd left right d path (p ∷ ps) cfg ctx same at =
      and_then-SameEnd (d + 1) d _ _ _ _
        (include_patterns-SameEnd left right (d + 1) (fs.dir path) (p ∷ ps) cfg
          (record ctx { depth = ctx.depth + 1 }) same (omega (arith, at)))
        (λ merged next at2. (refl, omega (arith, at2)))

  visit-SameEnd :
      (left right : Load) (d : ℕ) (path : Text) (ctx : IncludeContext)
      → SameLoads (d + 1) left right
      → ctx.depth ≡ d
      → SameEnd d (visit fs left path ctx) (visit fs right path ctx)
  unfolding visit mark
  visit-SameEnd left right d path ctx same at = elim (Option-cases (fs.read_file path)) [
    | inl e ↦ rw (e, visit) (refl, λ k. cc k)
    | inr (content, e) ↦ elim (Option-cases (fs.unmarshal content)) [
      | inl u ↦ rw (e, visit, u) (refl, λ k. cc k)
      | inr (cfg, u) ↦
          rw (e, visit, u)
            (and_then-SameEnd d d _ _ _ _
              (load_included-SameEnd left right d path cfg.includes cfg (mark path ctx) same at)
              (λ merged next at2. (refl, at2)))
    ]
  ]

  -- Any fuel that covers the levels that the depth leaves gives the same.
  load_file-SameEnd :
      (fuel more d : ℕ)
      → 12 ≤ fuel + d
      → 12 ≤ more + d
      → d ≤ 11
      → SameLoads d (load_file fs fuel) (load_file fs more)
  unfolding load_file
  load_file-SameEnd zero more d enough also shallow path ctx at =
      elim (too_deep_for_none d enough shallow) [ ]
  load_file-SameEnd (suc fuel) zero d enough also shallow path ctx at =
      elim (too_deep_for_none d also shallow) [ ]
  load_file-SameEnd (suc fuel) (suc more) d enough also shallow path ctx at =
      elim (Bool-cases (ltb max_include_depth ctx.depth)) [
        | inl deep ↦ rw deep (refl, λ k. cc k)
        | inr fine ↦ elim (Bool-cases (mentions ctx.visited path)) [
          | inl again ↦ rw (fine, again) (refl, λ k. cc k)
          | inr new ↦
              rw (fine, new)
                (visit-SameEnd (load_file fs fuel) (load_file fs more) d path ctx
                  (load_file-SameEnd fuel more (d + 1) (omega arith) (omega arith) (ground arith))
                  at)
        ]
      ]

  -- Loading a file ends, whatever the files include, and however they include each other: twelve calls
  -- inside each other are enough for a result, and more give the same result.
  pub load_with_includes-ends :
      (fuel : ℕ) (path : Text)
      → 12 ≤ fuel
      → (load_with_includes fs fuel path ≡ load_with_includes fs 12 path)
        × (load_with_includes fs fuel path ≢ failed out_of_fuel)
  unfolding load_with_includes
  load_with_includes-ends fuel path enough = elim (Option-cases (fs.abs (fs.clean path))) [
    | inl e ↦ rw (e, load_with_includes) (refl, λ k. cc k)
    | inr (absolute, e) ↦
        let (same, ends) =
          load_file-SameEnd fuel 12 0 (omega arith) (omega arith) (omega arith) absolute
            new_include_context refl in
        rw (e, load_with_includes) (same, EndsAt-result 0 _ ends)
  ]
