-- ===== src/Generator/Files.antt =====
-- cmd/evercoregen/processor.go. What it uses of strings, regexp, unicode and filepath is a record.
pub mod Named
use evercore.Base.{
  ℕ, ◌+◌, String, List, [], ◌∷◌, Option, none, some, Bool, true, false, not, ◌&&◌, ◌||◌, ◌==◌,
  if◌then◌else◌, string_eq, nat_eq, drop,
}
use evercore.Base.Dict.{insert}
use evercore.Generator.Directives.{
  Directive, LocatedDirectives, new_located_directives, Result, done, failed, aggregate, event,
  state_event, validate_directive, invalid_struct_definition, file_processing,
  no_package_declaration,
}

pub record Library : Type 0 where
  pub trim_space : String → String
  pub fields : String → List String
  pub has_prefix : String → String → Bool
  -- The first group of the expression for a directive, and of the one for a struct, if it matches.
  pub directive_match : String → Option String
  pub struct_match : String → Option String
  pub runes : String → List ℕ
  pub is_letter : ℕ → Bool
  pub is_digit : ℕ → Bool
  -- The directory of a path below a module.
  pub import_path : String → String → String

-- The second field, if there are two.
abbrev pub second : List String → Option String
second (_ ∷ name ∷ _) = some name
second _ = none

-- The `switch` on the directive.
unfoldable pub enter : String → Directive → LocatedDirectives → LocatedDirectives
enter directive d located =
    if directive == aggregate
    then record located { aggregates = insert d.struct d located.aggregates }
    else if directive == state_event
    then record located { state_events = insert d.struct d located.state_events }
    else if directive == event
    then record located { events = insert d.struct d located.events }
    else located

abbrev pub in_file : {A B : Type 0} → String → Result A → (A → Result B) → Result B
in_file file_path (done a) f = f a
in_file file_path (failed e) f = failed (file_processing file_path e)

module _ (lib : Library) where
  unfoldable pub extract_package_name : List String → String
  extract_package_name [] = ""
  extract_package_name (line ∷ lines) =
      let rest = extract_package_name lines in
      if lib.has_prefix line "package "
      then elim (second (lib.fields line)) [ some name ↦ name | none ↦ rest ]
      else rest

  first_non_empty : List String → String
  first_non_empty [] = ""
  first_non_empty (line ∷ lines) =
      let rest = first_non_empty lines in
      if lib.trim_space line == "" then rest else lib.trim_space line

  unfoldable pub find_next_non_empty_line : List String → ℕ → String
  unfolding first_non_empty
  find_next_non_empty_line lines start = first_non_empty (drop start lines)

  -- 95 is the underscore. A digit may not be the first rune.
  unfoldable pub is_valid_from : Bool → List ℕ → Bool
  is_valid_from first [] = true
  is_valid_from first (c ∷ cs) =
      let rest = is_valid_from false cs in
      if not (lib.is_letter c) && (not (c == 95) && (first || not (lib.is_digit c)))
      then false
      else rest

  unfoldable pub is_valid_go_identifier : List ℕ → Bool
  unfolding is_valid_from
  is_valid_go_identifier [] = false
  is_valid_go_identifier (c ∷ cs) = is_valid_from true (c ∷ cs)

  -- The error is made without its line.
  unfoldable pub extract_struct_name : String → String → Result String
  unfolding is_valid_go_identifier
  extract_struct_name line file_path = elim (lib.struct_match line) [
    | none ↦ failed (invalid_struct_definition file_path 0 line)
    | some name ↦
        if is_valid_go_identifier (lib.runes name)
        then done name
        else failed (invalid_struct_definition file_path 0 line)
  ]

  module _ (file_path module_name : String) where
    -- The loop over the lines, from the one at `idx` on.
    unfoldable pub process_lines :
        List String → String → ℕ → List String → LocatedDirectives → Result LocatedDirectives
    process_lines lines pkg_name idx [] located = done located
    process_lines lines pkg_name idx (line ∷ rest) located =
        elim (lib.directive_match (lib.trim_space line)) [
          | none ↦ process_lines lines pkg_name (idx + 1) rest located
          | some directive ↦
              in_file file_path (validate_directive directive file_path (idx + 1)) (λ _.
                in_file file_path
                  (extract_struct_name (find_next_non_empty_line lines (idx + 1)) file_path)
                  (λ struct_name. process_lines lines pkg_name (idx + 1) rest (
                    enter directive
                      (record {
                        directive_type = directive;
                        struct = struct_name;
                        file_path = file_path;
                        package_path = lib.import_path module_name file_path;
                        package_name = pkg_name;
                        line = idx + 1;
                      })
                      located)))
        ]

    unfoldable pub process_file : List String → Result LocatedDirectives
    unfolding process_lines extract_package_name
    process_file lines =
        let pkg_name = extract_package_name lines in
        if pkg_name == ""
        then failed (no_package_declaration file_path)
        else process_lines lines pkg_name 0 lines new_located_directives
