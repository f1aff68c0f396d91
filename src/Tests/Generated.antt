-- ===== src/Tests/Generated.antt =====
-- A project of two files, one of them excluded.
use evercore.Base.{
  String, List, [], ◌∷◌, Option, none, some, Bool, true, false, ◌==◌, string_eq, if◌then◌else◌, ◌≡◌,
  refl,
}
use evercore.Base.Dict.{insert}
use evercore.Generator.Directives.{Directive, LocatedDirectives, done, validate_directive}
use evercore.Generator.Files.{
  Library, process_file, process_lines, extract_package_name, extract_struct_name, is_valid_from,
  is_valid_go_identifier, find_next_non_empty_line, enter,
}
use evercore.Generator.Files.Named.{Names}
use evercore.Generator.Located.Entries.{Entered}
use evercore.Generator.Located.Complete.{process_file-HasEntry}
use evercore.Generator.Project.{Config, File, walk_project}
use evercore.Generator.Project.Gathered.{AreGathered, walk_project-AreGathered}

abbrev pub texts : Library
texts = record {
  trim_space = λ l. l;
  fields = λ l. if l == "package shop" then "package" ∷ "shop" ∷ [] else [];
  has_prefix = λ l p. l == "package shop";
  directive_match = λ l. if l == "// evercore:event" then some "event" else none;
  struct_match = λ l. if l == "type Placed struct {" then some "Placed" else none;
  runes = λ name. 80 ∷ 108 ∷ [];
  is_letter = λ c. true;
  is_digit = λ c. false;
  import_path = λ m p. m;
}

abbrev pub source : List String
source = "package shop" ∷ "// evercore:event" ∷ "" ∷ "type Placed struct {" ∷ "}" ∷ []

abbrev placed_struct : Directive
placed_struct = record {
  directive_type = "event";
  struct = "Placed";
  file_path = "a.go";
  package_path = "shop";
  package_name = "shop";
  line = 2;
}

abbrev one_event : LocatedDirectives
one_event = record { aggregates = []; state_events = []; events = ("Placed", placed_struct) ∷ [] }

processed : process_file texts "a.go" "shop" source ≡ done one_event
unfolding process_file process_lines extract_package_name extract_struct_name is_valid_from
    is_valid_go_identifier find_next_non_empty_line enter validate_directive insert
processed = refl

process_file-HasEntry_example :
    (name : String) × Names texts source 2 name × Entered "event" name 1 one_event
process_file-HasEntry_example =
    process_file-HasEntry texts "a.go" "shop" "event" "// evercore:event" ("package shop" ∷ [])
      ("" ∷ "type Placed struct {" ∷ "}" ∷ []) one_event refl processed refl

abbrev globs : String → String → Option Bool
globs p path = some (p == path)

abbrev config : Config
config = record { exclude_dirs = "b.go" ∷ []; include_globs = "a.go" ∷ "b.go" ∷ [] }

abbrev files : List File
files = record { path = "a.go"; lines = some source } ∷ record { path = "b.go"; lines = none } ∷ []

walk_project-AreGathered_example :
    AreGathered texts
      (λ p. p)
      globs
      "shop"
      config
      files
      (walk_project texts (λ p. p) globs "shop" config files).0
walk_project-AreGathered_example =
    walk_project-AreGathered texts (λ p. p) globs "shop" config files refl
