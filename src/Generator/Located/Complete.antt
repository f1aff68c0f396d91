-- ===== src/Generator/Located/Complete.antt =====
-- Every directive of a file is entered.
use evercore.Base.{
  ℕ, ◌+◌, ◌≤◌, String, List, [], ◌∷◌, ◌++◌, none, some, ◌==◌, ◌≡◌, string_eq, refl, sym, ◌∙◌, subst,
  inl, inr, arith, Bool-cases, Option-cases, length,
}
use evercore.Base.Dict.{lookup-insert_self}
use evercore.Generator.Directives.{
  Directive, LocatedDirectives, new_located_directives, Result, done, failed, validate_directive,
  no_package_declaration,
}
use evercore.Generator.Files.{
  Library, find_next_non_empty_line, extract_struct_name, extract_package_name, enter,
  process_lines, process_file,
}
use evercore.Generator.Files.Named.{Names, extract_struct_name-Names}
use evercore.Generator.Located.{IfDone, in_file-IfDone}
use evercore.Generator.Located.Entries.{entries, Entered, entries-enter_valid, enter-Entered}

IfDone-map :
    {A : Type 0} (P Q : A → Type 0)
    → ((a : A) → P a → Q a)
    → (r : Result A) → IfDone P r
    → IfDone Q r
IfDone-map P Q f (done a) p = f a p
IfDone-map P Q f (failed e) p = tt

module _ (lib : Library) (file_path module_name pkg_name kind : String) (lines : List String) where
  abbrev Loop : ℕ → List String → LocatedDirectives → Result LocatedDirectives
  Loop = process_lines lib file_path module_name lines pkg_name

  process_lines-Entered :
      (name : String) (index idx : ℕ) (rest : List String) (located : LocatedDirectives)
      → index ≤ idx
      → Entered kind name index located
      → IfDone (Entered kind name index) (Loop idx rest located)
  unfolding process_lines
  process_lines-Entered name index idx [] located after h = h
  process_lines-Entered name index idx (line ∷ rest) located after h =
      elim (Option-cases (lib.directive_match (lib.trim_space line))) [
        | inl nothing ↦
            rw (nothing, IfDone)
              (process_lines-Entered name index (idx + 1) rest located (omega (arith, after)) h)
        | inr (directive, matched) ↦
            rw (matched, IfDone)
              (in_file-IfDone (Entered kind name index) file_path
                (validate_directive directive file_path (idx + 1)) _
                (λ _ _.
                  in_file-IfDone (Entered kind name index) file_path
                    (extract_struct_name lib (find_next_non_empty_line lib lines (idx + 1))
                      file_path)
                    _
                    (λ struct _.
                      process_lines-Entered name index (idx + 1) rest _ (omega (arith, after)) (
                        enter-Entered kind name directive index _ located (omega (arith, after))
                          h))))
      ]

  -- The struct that follows a directive has an entry.
  abbrev pub HasEntry : ℕ → LocatedDirectives → Type 0
  HasEntry index located =
      (name : String) × Names lib lines (index + 1) name × Entered kind name index located

  process_lines-HasEntry :
      (index idx : ℕ) (before : List String) (text : String) (after : List String)
      (located : LocatedDirectives)
      → index ≡ idx + length before
      → lib.struct_match "" ≡ none
      → lib.directive_match (lib.trim_space text) ≡ some kind
      → IfDone (HasEntry index) (Loop idx (before ++ text ∷ after) located)
  unfolding process_lines
  process_lines-HasEntry index idx [] text after located at no_struct matched =
      let here : idx ≡ index = omega (arith, at) in
      subst (λ i. IfDone (HasEntry i) (Loop idx (text ∷ after) located)) here
        (rw (matched, IfDone)
          (in_file-IfDone (HasEntry idx) file_path (validate_directive kind file_path (idx + 1)) _
            (λ _ valid.
              in_file-IfDone (HasEntry idx) file_path
                (extract_struct_name lib (find_next_non_empty_line lib lines (idx + 1)) file_path) _
                (λ struct found.
                  let d : Directive = record {
                    directive_type = kind;
                    struct = struct;
                    file_path = file_path;
                    package_path = lib.import_path module_name file_path;
                    package_name = pkg_name;
                    line = idx + 1;
                  } in
                  let entered : Entered kind struct idx (enter kind d located) = (
                    d,
                    rw (entries-enter_valid kind file_path (idx + 1) d located valid)
                        (lookup-insert_self struct d (entries kind located)),
                    omega arith,
                  ) in
                  IfDone-map (Entered kind struct idx) (HasEntry idx)
                    (λ _ h. (
                      struct,
                      extract_struct_name-Names lib lines (idx + 1) file_path struct no_struct
                          found,
                      h,
                    ))
                    (Loop (idx + 1) after (enter kind d located))
                    (process_lines-Entered struct idx (idx + 1) after (enter kind d located)
                      (omega arith) entered)))))
  process_lines-HasEntry index idx (line ∷ before) text after located at no_struct matched =
      let later = λ (located' : LocatedDirectives).
        process_lines-HasEntry index (idx + 1) before text after located' (omega (arith, at))
          no_struct matched in
      elim (Option-cases (lib.directive_match (lib.trim_space line))) [
        | inl nothing ↦ rw (nothing, IfDone) (later located)
        | inr (directive, found) ↦
            rw (found, IfDone)
              (in_file-IfDone (HasEntry index) file_path
                (validate_directive directive file_path (idx + 1)) _
                (λ _ _.
                  in_file-IfDone (HasEntry index) file_path
                    (extract_struct_name lib (find_next_non_empty_line lib lines (idx + 1))
                      file_path)
                    _ (λ struct _. later _)))
      ]

-- In a file that is processed without an error, no directive is passed over: where a line is one,
-- the first later line that is not blank declares a struct, whose name is an identifier, and the
-- map of the directive's kind has an entry under that name, numbered by this line or a later one;
-- where the expression for a declaration does not match the empty text.
pub process_file-HasEntry :
    (lib : Library) (file_path module_name kind text : String) (before after : List String)
    (located : LocatedDirectives)
    → lib.struct_match "" ≡ none
    → process_file lib file_path module_name (before ++ text ∷ after) ≡ done located
    → lib.directive_match (lib.trim_space text) ≡ some kind
    → (name : String) × Names lib (before ++ text ∷ after) (length before + 1) name
      × Entered kind name (length before) located
unfolding process_file
process_file-HasEntry lib file_path module_name kind text before after located no_struct result
      matched =
    let lines = before ++ text ∷ after in
    let pkg_name = extract_package_name lib lines in
    elim (Bool-cases (pkg_name == "")) [
      | inl missing ↦ absurd (
          let never : process_file lib file_path module_name lines
              ≡ failed (no_package_declaration file_path) =
            rw missing refl in
          cc)
      | inr named ↦
          let ran : process_file lib file_path module_name lines
              ≡ process_lines lib file_path module_name lines pkg_name 0 lines
                  new_located_directives =
            rw named refl in
          subst (IfDone (HasEntry lib file_path module_name pkg_name kind lines (length before)))
            (sym ran ∙ result)
            (process_lines-HasEntry lib file_path module_name pkg_name kind lines (length before) 0
              before text after new_located_directives (omega arith) no_struct matched)
    ]
