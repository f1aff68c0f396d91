-- ===== src/Tests/Outputs.antt =====
-- A run of the generator on a project of one file.
use evercore.Base.{
  String, List, [], ◌∷◌, ◌||◌, ◌&&◌, Option, some, Bool, ◌==◌, string_eq, if◌then◌else◌, ◌≡◌, refl,
}
use evercore.Base.Dict.{insert}
use evercore.Generator.Directives.{Result, done, validate_directive}
use evercore.Generator.Files.{
  Library, process_file, process_lines, extract_package_name, extract_struct_name, is_valid_from,
  is_valid_go_identifier, find_next_non_empty_line, enter,
}
use evercore.Generator.Project.{
  File, walk_project, walk, merge, merge_directives, should_process_file, read_file,
}
use evercore.Generator.Output.{
  System, OutputConfig, with_imports, output_of, main, default_config, get_module_name, module_line,
}
use evercore.Generator.Output.Imports.{includes, needs_package, AreDistinct}
use evercore.Generator.Output.Writes.{Sorts, Writes, generated, main-Writes}
use evercore.Tests.Generated.{texts, source}

abbrev module_texts : Library
module_texts = record texts {
  has_prefix =
      λ l p. (p == "package " && l == "package shop") || (p == "module " && l == "module shop");
  fields = λ l. if l == "package shop" then "package" ∷ "shop" ∷ [] else "module" ∷ "shop" ∷ [];
}

-- A system on which nothing fails.
abbrev disk : System
disk = record {
  sort_strings = λ ps. ps;
  join = λ dir path. path;
  parse_template = λ path. done tt;
  create_file = λ path. done tt;
  make_directory = λ path. done tt;
  execute_template = λ template. done tt;
}

disk-Sorts : Sorts disk
disk-Sorts = record { includes = λ p ps. refl; distinct = λ ps distinct. distinct }

abbrev go_files : String → String → Option Bool
go_files p path = some (p == "**/*.go")

abbrev project : List File
project = record { path = "a.go"; lines = some source } ∷ []

abbrev go_mod : Result (List String)
go_mod = done ("module shop" ∷ "" ∷ [])

abbrev target : OutputConfig
target = record { output_dir = "generated"; output_pkg = "generated" }

main-Writes_example :
    let located = (walk_project module_texts (λ p. p) go_files "shop" default_config project).0 in
    let completed = with_imports disk (output_of "shop" target located) in
    Writes
      (generated disk completed)
      (main module_texts (λ p. p) go_files disk go_mod target project [])
    × ((p : String) → includes p completed.unique_imports ≡ needs_package located p)
    × AreDistinct completed.unique_imports
unfolding get_module_name module_line walk_project walk merge merge_directives should_process_file
    read_file process_file process_lines extract_package_name extract_struct_name is_valid_from
    is_valid_go_identifier find_next_non_empty_line enter validate_directive insert
main-Writes_example =
    main-Writes module_texts (λ p. p) go_files disk disk-Sorts go_mod target project "shop" refl
      refl
