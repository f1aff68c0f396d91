-- ===== src/Generator/Output/Writes.antt =====
-- What a run of the generator writes.
use evercore.Base.{
  String, List, [], ◌∷◌, ◌++◌, Option, none, Bool, map, ◌≡◌, ◌⊎◌, inl, inr, refl, ◌∙◌, take,
}
use evercore.Generator.Directives.{GeneratorError, Result, done, failed}
use evercore.Generator.Files.{Library}
use evercore.Generator.Project.{File, walk_project}
use evercore.Generator.Output.{
  OutputConfig, OutputData, Write, System, Step, and_then, attempt, execute, written, with_imports,
  generate_code, get_module_name, default_config, output_of, main, finish_main, unique_packages,
}
use evercore.Generator.Output.Imports.{
  includes, AreDistinct, needs_package, unique_packages-includes, unique_packages-AreDistinct,
}

-- sort.Strings moves what is in a slice, and neither adds nor drops anything.
pub record Sorts (system : System) : Type 0 where
  pub includes :
      (p : String) (ps : List String) → includes p (system.sort_strings ps) ≡ includes p ps
  pub distinct : (ps : List String) → AreDistinct ps → AreDistinct (system.sort_strings ps)

-- The files of a complete run, in the order in which they are written.
abbrev pub generated : System → OutputData → List Write
generated system output_data =
    let dir = output_data.config.output_dir in
    record {
      path = system.join dir "generated.go";
      template = "templates/targetcode.tmpl";
      output_data = output_data;
    }
    ∷ record {
      path = system.join (system.join dir "aggregates") "aggregates.go";
      template = "templates/aggregates.tmpl";
      output_data = output_data;
    }
    ∷ record {
      path = system.join (system.join dir "events") "events.go";
      template = "templates/events.tmpl";
      output_data = output_data;
    }
    ∷ []

-- All of these files were written, or the first of them before an error.
abbrev pub Writes : List Write → Result (Unit {0}) × List Write → Type 0
Writes all r =
    ((r.0 ≡ done tt) × (r.1 ≡ all))
    ⊎ ((e : GeneratorError) × (rest : List Write) × (r.0 ≡ failed e) × (r.1 ++ rest ≡ all))

module _ (all : List Write) where
  attempt-Writes :
      (label : String) (x : Result (Unit {0})) (k : Step (Unit {0})) (w rest : List Write)
      → w ++ rest ≡ all
      → Writes all (k w)
      → Writes all (and_then (attempt label x w) (λ _. k))
  unfolding attempt
  attempt-Writes label (done _) k w rest part more = more
  attempt-Writes label (failed e) k w rest part more = inr (_, rest, refl, part)

module _ (all : List Write) where
  written-Writes :
      (label : String) (write : Write) (x : Result (Unit {0})) (w : List Write)
      → w ++ write ∷ [] ≡ all
      → Writes all (written label write x w)
  unfolding written
  written-Writes label write (done _) w part = inl (refl, part)
  written-Writes label write (failed e) w part = inr (_, write ∷ [], refl, part)

  written-then-Writes :
      (label : String) (write : Write) (x : Result (Unit {0})) (k : Step (Unit {0}))
      (w rest : List Write)
      → w ++ rest ≡ all
      → Writes all (k (w ++ write ∷ []))
      → Writes all (and_then (written label write x w) (λ _. k))
  unfolding written
  written-then-Writes label write (done _) k w rest part more = more
  written-then-Writes label write (failed e) k w rest part more = inr (_, rest, refl, part)

module _ (system : System) (all : List Write) where
  execute-then-Writes :
      (label path template : String) (d : OutputData) (k : Step (Unit {0})) (w rest : List Write)
      → w ++ rest ≡ all
      → Writes all (k (w ++ record { path = path; template = template; output_data = d } ∷ []))
      → Writes all (and_then (execute system label path template d w) (λ _. k))
  unfolding execute
  execute-then-Writes label path template d =
      written-then-Writes all label (record { path = path; template = template; output_data = d })
        (system.execute_template template)

  execute-Writes :
      (label path template : String) (d : OutputData) (w : List Write)
      → w ++ record { path = path; template = template; output_data = d } ∷ [] ≡ all
      → Writes all (execute system label path template d w)
  unfolding execute
  execute-Writes label path template d =
      written-Writes all label (record { path = path; template = template; output_data = d })
        (system.execute_template template)

generate_code-Writes :
    (system : System) (d : OutputData)
    → Writes (generated system (with_imports system d)) (generate_code system d [])
unfolding generate_code with_imports
generate_code-Writes system d =
    let all = generated system (with_imports system d) in
    let first : List Write = take 1 all in
    let two : List Write = take 2 all in
    attempt-Writes all _ _ _ [] all refl (
      attempt-Writes all _ _ _ [] all refl (
        attempt-Writes all _ _ _ [] all refl (
          attempt-Writes all _ _ _ [] all refl (
            execute-then-Writes system all _ _ _ _ _ [] all refl (
              attempt-Writes all _ _ _ first _ refl (
                attempt-Writes all _ _ _ first _ refl (
                  attempt-Writes all _ _ _ first _ refl (
                    execute-then-Writes system all _ _ _ _ _ first _ refl (
                      attempt-Writes all _ _ _ two _ refl
                        (execute-Writes system all _ _ _ _ two refl))))))))))

module _ (lib : Library) (to_slash : String → String) (match : String → String → Option Bool)
    (system : System) (sorts : Sorts system) where
  -- A run of the generator that finds the module's name, and whose walk of the project ends
  -- without an error, writes the code for all directives found, then for the aggregates and for
  -- the events, each from the same data, or stops with an error after the first of these; the
  -- data list as imports, each once, exactly the packages of the directives found that are not
  -- for an aggregate, where sort.Strings keeps what is in a slice.
  pub main-Writes :
      (go_mod : Result (List String)) (config : OutputConfig) (files : List File) (name : String)
      → get_module_name lib go_mod ≡ done name
      → let walked = walk_project lib to_slash match name default_config files in
        walked.1 ≡ none
        → let completed = with_imports system (output_of name config walked.0) in
          Writes
            (generated system completed)
            (main lib to_slash match system go_mod config files [])
          × ((p : String) → includes p completed.unique_imports ≡ needs_package walked.0 p)
          × AreDistinct completed.unique_imports
  unfolding main with_imports finish_main
  main-Writes go_mod config files name named found =
      let located = (walk_project lib to_slash match name default_config files).0 in
      (
        rw (named, main)
            (rw (found, finish_main) (generate_code-Writes system (output_of name config located))),
        λ p.
            sorts.includes p (map (λ e. e.0) (unique_packages located))
            ∙ unique_packages-includes located p,
        sorts.distinct (map (λ e. e.0) (unique_packages located))
            (unique_packages-AreDistinct located),
      )
