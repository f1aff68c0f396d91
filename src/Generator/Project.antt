-- ===== src/Generator/Project.antt =====
-- cmd/evercoregen/utils.go: which files are read, and what is gathered from them. The walk over the
-- directories gives their files; matching a pattern is a parameter, `none` for an invalid one.
pub mod Chosen
pub mod Gathered
use evercore.Base.{
  String, List, [], ◌∷◌, Option, none, some, Bool, true, false, if◌then◌else◌, string_eq,
}
use evercore.Base.Dict.{Dict, insert}
use evercore.Generator.Directives.{
  Directive, LocatedDirectives, new_located_directives, GeneratorError, Result, done, failed,
  unreadable,
}
use evercore.Generator.Files.{Library, process_file}

pub record Config : Type 0 where
  pub exclude_dirs : List String
  pub include_globs : List String

-- What the walk knows of a file: its lines, if it can be read.
pub record File : Type 0 where
  pub path : String
  pub lines : Option (List String)

-- The entries of a map are put into another.
unfoldable pub merge : Dict String Directive → Dict String Directive → Dict String Directive
merge [] target = target
merge ((k, v) ∷ new) target = insert k v (merge new target)

unfoldable pub merge_directives : LocatedDirectives → LocatedDirectives → LocatedDirectives
unfolding merge
merge_directives new located = record {
  aggregates = merge new.aggregates located.aggregates;
  state_events = merge new.state_events located.state_events;
  events = merge new.events located.events;
}

module _ (lib : Library) (to_slash : String → String) (match : String → String → Option Bool) where
  -- Whether a pattern matches: an invalid one is passed over.
  abbrev pub matches_one : List String → String → Bool
  matches_one [] path = false
  matches_one (pattern_ ∷ patterns) path =
      let rest = matches_one patterns path in
      elim (match pattern_ path) [ none ↦ rest | some true ↦ true | some false ↦ rest ]

  unfoldable pub should_process_file : String → Config → Bool
  should_process_file path config =
      if matches_one config.exclude_dirs (to_slash path)
      then false
      else matches_one config.include_globs (to_slash path)

  unfoldable pub read_file : String → File → Result LocatedDirectives
  read_file module_name file = elim file.lines [
    | none ↦ failed (unreadable file.path)
    | some lines ↦ process_file lib file.path module_name lines
  ]

  module _ (module_name : String) (config : Config) where
    -- An error ends the walk; what was gathered before it is returned beside it.
    unfoldable pub walk : List File → LocatedDirectives → LocatedDirectives × Option GeneratorError
    unfolding merge_directives should_process_file read_file
    walk [] located = (located, none)
    walk (file ∷ files) located =
        let skipped = walk files located in
        if should_process_file file.path config
        then elim (read_file module_name file) [
          | failed e ↦ (located, some e)
          | done new ↦ walk files (merge_directives new located)
        ]
        else skipped

    unfoldable pub walk_project : List File → LocatedDirectives × Option GeneratorError
    unfolding walk
    walk_project files = walk files new_located_directives
