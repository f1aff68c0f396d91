-- ===== src/Generator/Output.antt =====
-- cmd/evercoregen/generate.go, and the part of main.go and utils.go that leads to it. What the
-- templates, the files and sort.Strings do is given by a record; every path is used once.
pub mod Imports
pub mod Writes
use evercore.Base.{
  ℕ, String, List, [], ◌∷◌, ◌++◌, Option, none, some, Bool, true, false, map, ◌==◌, if◌then◌else◌,
  string_eq,
}
use evercore.Base.Dict.{Dict, insert}
use evercore.Generator.Directives.{
  Directive, LocatedDirectives, GeneratorError, Result, done, failed, aggregate, wrapped, plain,
}
use evercore.Generator.Files.{Library, second}
use evercore.Generator.Project.{Config, File, walk_project}

pub record OutputConfig : Type 0 where
  pub output_dir : String
  pub output_pkg : String

pub record OutputData : Type 0 where
  pub directives : LocatedDirectives
  pub config : OutputConfig
  pub unique_imports : List String
  pub module_name : String

-- A template that was executed into a file.
pub record Write : Type 0 where
  pub path : String
  pub template : String
  pub output_data : OutputData

pub record System : Type 0 where
  pub sort_strings : List String → List String
  pub join : String → String → String
  pub parse_template : String → Result (Unit {0})
  pub create_file : String → Result (Unit {0})
  pub make_directory : String → Result (Unit {0})
  pub execute_template : String → Result (Unit {0})

-- A step that may write files, and what follows it.
abbrev pub Step : Type 0 → Type 0
Step A = List Write → Result A × List Write

abbrev pub and_then : {A B : Type 0} → Result A × List Write → (A → Step B) → Result B × List Write
and_then (done a, w) f = f a w
and_then (failed e, w) f = (failed e, w)

infixl 5 ◌>>=◌ ◌>>◌
abbrev pub ◌>>=◌ : {A B : Type 0} → Step A → (A → Step B) → Step B
◌>>=◌ m f w = and_then (m w) f

abbrev pub ◌>>◌ : {A B : Type 0} → Step A → Step B → Step B
◌>>◌ m k = m >>= λ _. k

abbrev pub relabel : {A : Type 0} → String → Result A → Result A
relabel l (done a) = done a
relabel l (failed e) = failed (wrapped l e)

unfoldable pub attempt : {A : Type 0} → String → Result A → Step A
attempt l r w = (relabel l r, w)

-- `Execute` into a file that was created. A failed one may leave a part of it, which is not counted.
unfoldable pub written : String → Write → Result (Unit {0}) → Step (Unit {0})
written label write (done _) w = (done tt, w ++ write ∷ [])
written label write (failed e) w = (failed (wrapped label e), w)

-- The keys of `uniquePackages`, in the order of the ranges over the maps.
abbrev pub collect_values : Dict String Directive → Dict String Bool → Dict String Bool
collect_values [] packages = packages
collect_values ((k, d) ∷ m) packages =
    let rest = collect_values m packages in
    if d.directive_type == aggregate then rest else insert d.package_path true rest

abbrev pub unique_packages : LocatedDirectives → Dict String Bool
unique_packages located =
    collect_values located.state_events
      (collect_values located.events (collect_values located.aggregates []))

module _ (system : System) where
  unfoldable pub with_imports : OutputData → OutputData
  with_imports output_data = record output_data {
    unique_imports = system.sort_strings (map (λ e. e.0) (unique_packages output_data.directives));
  }

  unfoldable pub execute : String → String → String → OutputData → Step (Unit {0})
  unfolding written
  execute label path template output_data =
      written label (record { path = path; template = template; output_data = output_data })
        (system.execute_template template)

  unfoldable pub generate_code : OutputData → Step (Unit {0})
  unfolding with_imports
  generate_code output_data =
      let all = with_imports output_data in
      let dir = all.config.output_dir in
      let output_file = system.join dir "generated.go" in
      let events_dir = system.join dir "events" in
      let aggregates_dir = system.join dir "aggregates" in
      let aggregates_file = system.join aggregates_dir "aggregates.go" in
      let events_file = system.join events_dir "events.go" in
      (do
        attempt "failed to parse template" (system.parse_template "templates/targetcode.tmpl")
        attempt "failed to parse template" (system.parse_template "templates/events.tmpl")
        attempt "failed to parse template" (system.parse_template "templates/aggregates.tmpl")
        attempt "failed to create output file" (system.create_file output_file)
        execute "failed to execute template" output_file "templates/targetcode.tmpl" all
        attempt "failed to create events directory" (system.make_directory events_dir)
        attempt "failed to create aggregates directory" (system.make_directory aggregates_dir)
        attempt "failed to create aggregates file" (system.create_file aggregates_file)
        execute "failed to execute aggregates template" aggregates_file "templates/aggregates.tmpl"
            all
        attempt "failed to create events file" (system.create_file events_file)
        execute "failed to execute events template" events_file "templates/events.tmpl" all)

-- The lines of go.mod, if it can be read, give the module's name.
unfoldable pub module_line : Library → List String → Result String
module_line lib [] = failed (plain "no module declaration found in go.mod")
module_line lib (line ∷ lines) =
    let rest = module_line lib lines in
    if lib.has_prefix line "module "
    then elim (second (lib.fields line)) [
      | some name ↦ done name
      | none ↦ failed (plain "invalid module declaration in go.mod")
    ]
    else rest

unfoldable pub get_module_name : Library → Result (List String) → Result String
unfolding module_line
get_module_name lib (failed e) = failed (wrapped "failed to read go.mod" e)
get_module_name lib (done lines) = module_line lib lines

abbrev pub default_config : Config
default_config = record {
  exclude_dirs = "vendor" ∷ "testdata" ∷ ".*" ∷ [];
  include_globs = "**/*.go" ∷ [];
}

-- What is made of the walk's result.
abbrev pub output_of : String → OutputConfig → LocatedDirectives → OutputData
output_of module_name config located = record {
  directives = located;
  config = config;
  unique_imports = [];
  module_name = module_name;
}

-- `main`, from the name of the module on. An error ends the program.
module _ (lib : Library) (to_slash : String → String) (match : String → String → Option Bool)
    (system : System) where
  finish_main : String → OutputConfig → LocatedDirectives × Option GeneratorError → Step (Unit {0})
  unfolding generate_code
  finish_main module_name config (located, none) =
      generate_code system (output_of module_name config located)
  finish_main module_name config (located, some e) = λ w. (failed e, w)

  unfoldable pub main : Result (List String) → OutputConfig → List File → Step (Unit {0})
  unfolding finish_main
  main go_mod config files w = elim (get_module_name lib go_mod) [
    | failed e ↦ (failed e, w)
    | done name ↦
        finish_main name config (walk_project lib to_slash match name default_config files) w
  ]
