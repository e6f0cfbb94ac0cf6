-- ===== src/Config/Includes.antt =====
-- pkg/config/includes.go: a file and the files that it includes, read into one configuration. The file
-- system is an argument, and does not change during a load.
pub mod Ending
mod Tests
use open_gslb.Common.{
  ℕ, zero, suc, ◌+◌, ◌-◌, Text, codes, Option, none, some, Bool, true, false, not, ◌&&◌, List, [],
  ◌∷◌, ◌++◌, length, take, ltb, leb, nat_beq, ◌==◌, text_eq, if◌then◌else◌,
}
use open_gslb.Common.Table.{Table, insert, mentions}
use open_gslb.Config.Types.{Region, Domain, AgentConfig, OverwatchConfig, Config}
use open_gslb.Config.Validator.Domains.{region_names, domain_names}

pub record FileInfo : Type 0 where
  pub is_dir : Bool
  pub world_writable : Bool

-- `os.ReadFile` with `yaml.Unmarshal`, and the functions of `path/filepath` and `os` that find files.
-- `expand_double_star` is `expandDoubleStarGlob`, which walks a directory.
pub record Files : Type 0 where
  pub read_file : Text → Option Text
  pub unmarshal : Text → Option Config
  pub stat : Text → Option FileInfo
  pub glob : Text → Option (List Text)
  pub expand_double_star : Text → Text → Option (List Text)
  pub abs : Text → Option Text
  pub clean : Text → Text
  pub dir : Text → Text
  pub is_abs : Text → Bool
  pub join : Text → Text → Text

-- An error, with the file that it names. `out_of_fuel` is the model's own.
pub data LoadError : Type 0 where
  unresolved too_deep unreadable unparsable not_stated world_writable : Text → LoadError
  circular : List Text → Text → LoadError
  bad_glob bad_pattern : Text → Text → LoadError
  duplicate_region duplicate_domain : Text → Text → LoadError
  out_of_fuel : LoadError

pub record IncludeContext : Type 0 where
  pub depth : ℕ
  pub visited : List Text
  pub visit_path : List Text
  pub loaded_files : List Text

pub data Loaded (A : Type 0) : Type 0 where
  failed : LoadError → Loaded A
  loaded : A → IncludeContext → Loaded A

-- `if err != nil { return nil, err }`
unfoldable pub and_then : {A B : Type 0} → Loaded A → (A → IncludeContext → Loaded B) → Loaded B
and_then (failed e) next = failed e
and_then (loaded a ctx) next = next a ctx

abbrev pub max_include_depth : ℕ
max_include_depth = 10

abbrev pub new_include_context : IncludeContext
new_include_context = record { depth = 0; visited = []; visit_path = []; loaded_files = [] }

-- The file is visited from here on.
unfoldable pub mark : Text → IncludeContext → IncludeContext
mark path ctx = record {
  depth = ctx.depth;
  visited = path ∷ ctx.visited;
  visit_path = ctx.visit_path ++ path ∷ [];
  loaded_files = ctx.loaded_files ++ path ∷ [];
}

unfoldable pub first_known : List Text → List Text → Option Text
first_known known [] = none
first_known known (name ∷ names) =
    let rest = first_known known names in if mentions known name then some name else rest

-- `main.AgentTokens[k] = v`, in the order in which `range` visits the included map.
unfoldable pub merge_tokens : Table Text Text → Table Text Text → Table Text Text
merge_tokens main [] = main
merge_tokens main ((agent, token) ∷ included) = merge_tokens (insert agent token main) included

-- The merge of what cannot fail.
unfoldable pub merge_rest : Config → Config → Config
unfolding merge_tokens
merge_rest main included =
    let tokens = merge_tokens main.overwatch.agent_tokens included.overwatch.agent_tokens in
    let mappings =
      main.overwatch.geolocation.custom_mappings
      ++ included.overwatch.geolocation.custom_mappings in
    record main {
      agent = record main.agent { backends = main.agent.backends ++ included.agent.backends };
      overwatch = record main.overwatch {
        agent_tokens = tokens;
        geolocation = record main.overwatch.geolocation { custom_mappings = mappings };
      };
      regions = main.regions ++ included.regions;
      domains = main.domains ++ included.domains;
    }

unfoldable pub merge_config : Config → Config → Text → IncludeContext → Loaded Config
unfolding merge_rest first_known
merge_config main included source ctx =
    elim (first_known (region_names main.regions) (region_names included.regions)) [
      | some name ↦ failed (duplicate_region source name)
      | none ↦ elim (first_known (domain_names main.domains) (domain_names included.domains)) [
        | some name ↦ failed (duplicate_domain source name)
        | none ↦ loaded (merge_rest main included) ctx
      ]
    ]

-- `strings.Contains(pattern, "**")`
unfoldable pub has_double_star : Text → Bool
has_double_star (x ∷ y ∷ rest) =
    let later = has_double_star (y ∷ rest) in
    if nat_beq x b'*' && nat_beq y b'*' then true else later
has_double_star _ = false

-- The order of Go's strings, and a sort: equal texts are the same, so any sort gives the same list.
unfoldable pub text_le : Text → Text → Bool
text_le [] _ = true
text_le (x ∷ left) [] = false
text_le (x ∷ left) (y ∷ right) = if nat_beq x y then text_le left right else ltb x y

unfoldable pub insert_sorted : Text → List Text → List Text
unfolding text_le
insert_sorted t [] = t ∷ []
insert_sorted t (x ∷ xs) =
    let rest = insert_sorted t xs in if text_le t x then t ∷ x ∷ xs else x ∷ rest

unfoldable pub sort_texts : List Text → List Text
unfolding insert_sorted
sort_texts [] = []
sort_texts (t ∷ ts) = insert_sorted t (sort_texts ts)

module _ (fs : Files) where
  open fs use {read_file, unmarshal, stat, glob, expand_double_star, abs, clean, dir, is_abs, join}

  -- The files that a pattern matches, sorted. A glob that fails is an error before the stars are seen.
  unfoldable pub expand : Text → Text → IncludeContext → Loaded (List Text)
  unfolding has_double_star sort_texts
  expand base_dir pattern ctx =
      elim (glob (if is_abs pattern then pattern else join base_dir pattern)) [
        | none ↦ failed (bad_glob base_dir pattern)
        | some matches ↦
            if has_double_star pattern
            then (elim (expand_double_star base_dir pattern) [
              | none ↦ failed (bad_pattern base_dir pattern)
              | some found ↦ loaded (sort_texts found) ctx
            ])
            else loaded (sort_texts matches) ctx
      ]

  -- The loop over the matches, given how a file is loaded.
  unfoldable pub include_matches :
      (Text → IncludeContext → Loaded Config) → List Text → Config → IncludeContext → Loaded Config
  unfolding merge_config and_then
  include_matches load [] cfg ctx = loaded cfg ctx
  include_matches load (match ∷ matches) cfg ctx = elim (abs match) [
    | none ↦ failed (unresolved match)
    | some path ↦ elim (stat path) [
      | none ↦ failed (not_stated path)
      | some info ↦
          if info.is_dir
          then include_matches load matches cfg ctx
          else if info.world_writable
          then failed (world_writable path)
          else and_then (load path ctx) (λ included next.
            and_then (merge_config cfg included path next)
              (λ merged last. include_matches load matches merged last))
    ]
  ]

  -- The loop over the patterns.
  unfoldable pub include_patterns :
      (Text → IncludeContext → Loaded Config)
      → Text
      → List Text
      → Config
      → IncludeContext
      → Loaded Config
  unfolding expand include_matches and_then
  include_patterns load base_dir [] cfg ctx = loaded cfg ctx
  include_patterns load base_dir (pattern ∷ patterns) cfg ctx =
      and_then (expand base_dir pattern ctx) (λ matches same.
        and_then (include_matches load matches cfg same)
          (λ merged next. include_patterns load base_dir patterns merged next))

  -- The includes of a file that is read, a level deeper, if it has any.
  unfoldable pub load_included :
      (Text → IncludeContext → Loaded Config)
      → Text
      → List Text
      → Config
      → IncludeContext
      → Loaded Config
  unfolding include_patterns and_then
  load_included load path [] cfg ctx = loaded cfg ctx
  load_included load path (p ∷ ps) cfg ctx =
      and_then
        (include_patterns load (dir path) (p ∷ ps) cfg (record ctx { depth = ctx.depth + 1 }))
        (λ merged next. loaded merged (record next { depth = next.depth - 1 }))

  -- `loadWithIncludes` once the depth and the cycle are checked. The path of the visit loses its last
  -- file when the call returns.
  unfoldable pub visit :
      (Text → IncludeContext → Loaded Config) → Text → IncludeContext → Loaded Config
  unfolding load_included mark and_then
  visit load path ctx = elim (read_file path) [
    | none ↦ failed (unreadable path)
    | some content ↦ elim (unmarshal content) [
      | none ↦ failed (unparsable path)
      | some cfg ↦
          and_then (load_included load path cfg.includes cfg (mark path ctx)) (λ merged next.
            loaded merged
              (record next { visit_path = take (length next.visit_path - 1) next.visit_path }))
    ]
  ]

  unfoldable pub load_file : ℕ → Text → IncludeContext → Loaded Config
  unfolding visit
  load_file zero path ctx = failed out_of_fuel
  load_file (suc fuel) path ctx =
      if ltb max_include_depth ctx.depth
      then failed (too_deep path)
      else if mentions ctx.visited path
      then failed (circular ctx.visit_path path)
      else visit (load_file fuel) path ctx

  -- `LoadWithIncludes`. Every level of includes is a level of depth, so 12 calls in each other are more
  -- than the depth allows.
  unfoldable pub load_with_includes : ℕ → Text → Loaded Config
  unfolding load_file
  load_with_includes fuel path = elim (abs (clean path)) [
    | none ↦ failed (unresolved path)
    | some absolute ↦ load_file fuel absolute new_include_context
  ]
