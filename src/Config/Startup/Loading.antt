-- ===== src/Config/Startup/Loading.antt =====
-- What the defaults of pkg/config/config.go leave of the mode and the domains.
use open_gslb.Common.{
  ℕ, ◌≡◌, ◌≢◌, refl, sym, ◌∙◌, subst, inl, inr, codes, none, true, false, ◌||◌, List, [], ◌∷◌, map,
  In, In-cons, ◌==◌, ==_iff, text_eq, Bool-cases, arith, default_if_zero,
}
use open_gslb.Config.Types.{Domain, Config}
use open_gslb.Config.Defaults.{
  domain_defaults, domain_defaults-named, overwatch_defaults, apply_defaults,
}
use open_gslb.Config.Validator.{validate, validate_mode}
use open_gslb.Config.Validator.Errors.{Libraries}

pub apply_defaults-mode : (c : Config) → (apply_defaults c).mode ≡ c.mode
unfolding apply_defaults overwatch_defaults
apply_defaults-mode c = elim (Bool-cases (c.mode == codes "agent")) [
  | inl agent ↦ rw agent refl
  | inr other ↦ elim (Bool-cases (c.mode == codes "overwatch" || c.mode == [])) [
    | inl serves ↦ rw (other, serves) refl
    | inr unknown ↦ rw (other, unknown) refl
  ]
]

apply_defaults-domains :
    (c : Config)
    → c.mode ≢ codes "agent"
    → (c.mode == codes "overwatch" || c.mode == []) ≡ true
    → (apply_defaults c).domains
      ≡ map (domain_defaults (default_if_zero c.dns.default_ttl 60)) c.domains
unfolding apply_defaults overwatch_defaults
apply_defaults-domains c mode serves = elim (Bool-cases (c.mode == codes "agent")) [
  | inl agent ↦ elim (mode ((==_iff c.mode (codes "agent")).0 agent)) [ ]
  | inr other ↦ rw (other, serves) refl
]

-- A mode that is none of the two is an error.
validate_unknown :
    (lib : Libraries) (c : Config)
    → c.mode ≢ codes "agent"
    → (c.mode == codes "overwatch" || c.mode == []) ≡ false
    → ¬ (validate lib c ≡ none)
unfolding validate validate_mode
validate_unknown lib c mode unknown ok = elim (Bool-cases (c.mode == codes "agent")) [
  | inl agent ↦ elim (mode ((==_iff c.mode (codes "agent")).0 agent)) [ ]
  | inr other ↦ ground arith
]

all_named :
    (default_ttl : ℕ) (ds : List Domain) (d : Domain)
    → In d (map (domain_defaults default_ttl) ds)
    → d.routing_algorithm ≢ []
all_named default_ttl (e ∷ ds) d k = elim (In-cons k) [
  | inl now ↦ subst (λ x. x.routing_algorithm ≢ []) (sym now) (domain_defaults-named default_ttl e)
  | inr later ↦ all_named default_ttl ds d later
]
all_named default_ttl [] d k = elim k [ ]

pub apply_defaults-named :
    (lib : Libraries) (c : Config)
    → c.mode ≢ codes "agent"
    → validate lib (apply_defaults c) ≡ none
    → (d : Domain) → In d (apply_defaults c).domains
    → d.routing_algorithm ≢ []
apply_defaults-named lib c mode ok d k =
    elim (Bool-cases (c.mode == codes "overwatch" || c.mode == [])) [
      | inl serves ↦
          all_named (default_if_zero c.dns.default_ttl 60) c.domains d
            (subst (In d) (apply_defaults-domains c mode serves) k)
      | inr unknown ↦
          elim (validate_unknown lib (apply_defaults c)
            (λ e. mode (sym (apply_defaults-mode c) ∙ e))
            (subst (λ m. (m == codes "overwatch" || m == []) ≡ false) (sym (apply_defaults-mode c))
              unknown)
            ok) [ ]
    ]
