-- ===== src/Config/Includes/Tests.antt =====
-- Loads of pkg/config/includes.go from file systems of three files.
use open_gslb.Common.{
  ◌≡◌, ◌≢◌, refl, arith, Text, codes, none, some, false, List, [], ◌∷◌, ◌==◌, text_eq, text_beq,
  if◌then◌else◌,
}
use open_gslb.Common.Table.{mentions}
use open_gslb.Config.Types.{Config}
use open_gslb.Config.Tests.{bare_config}
use open_gslb.Config.Includes.{Files, failed, circular, out_of_fuel, load_with_includes}
use open_gslb.Config.Includes.Ending.{load_with_includes-ends}

abbrev including : List Text → Config
including names = record bare_config { includes = names; regions = []; domains = [] }

-- A file's content is its name, and every pattern matches the file of its name.
abbrev files_of : (Text → List Text) → Files
files_of includes_of = record {
  read_file = λ path. some path;
  unmarshal = λ content. some (including (includes_of content));
  stat = λ path. some (record { is_dir = false; world_writable = false });
  glob = λ pattern. some (pattern ∷ []);
  expand_double_star = λ base pattern. none;
  abs = λ path. some path;
  clean = λ path. path;
  dir = λ path. [];
  is_abs = λ path. false;
  join = λ base name. name;
}

-- `main` includes `a` and `b`, and both include `c`, which includes nothing.
abbrev diamond : Text → List Text
diamond name =
    if name == codes "main"
    then codes "a" ∷ codes "b" ∷ []
    else if name == codes "c"
    then []
    else codes "c" ∷ []

-- A file that includes itself.
abbrev endless : Files
endless = files_of (λ name. name ∷ [])

-- A file that two others include is refused as a circular include, though there is no cycle.
diamond_refused :
    load_with_includes (files_of diamond) 12 (codes "main")
    ≡ failed (circular (codes "main" ∷ codes "b" ∷ []) (codes "c"))
unfolding load_with_includes mentions text_beq
diamond_refused = refl

load_with_includes-ends_example :
    (load_with_includes endless 20 (codes "main") ≡ load_with_includes endless 12 (codes "main"))
    × (load_with_includes endless 20 (codes "main") ≢ failed out_of_fuel)
load_with_includes-ends_example = load_with_includes-ends endless 20 (codes "main") (omega arith)
