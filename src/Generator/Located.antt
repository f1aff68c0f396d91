-- ===== src/Generator/Located.antt =====
-- What the located directives of a file say of its lines.
pub mod Entries
pub mod Complete
use mathlib.Core.List.{append_assoc}
use evercore.Base.{
  ℕ, ◌+◌, String, List, [], ◌∷◌, ◌++◌, none, some, true, ◌==◌, ◌≡◌, string_eq, refl, sym, ◌∙◌,
  subst, inl, inr, arith, Bool-cases, Option-cases, Eq-cases, get_elem?, length, length-append,
}
use evercore.Base.Dict.{Dict, lookup, insert, lookup-insert_self, lookup-insert_ne}
use evercore.Generator.Directives.{
  Directive, LocatedDirectives, new_located_directives, Result, done, failed, aggregate, event,
  state_event, validate_directive, no_package_declaration,
}
use evercore.Generator.Files.Named.{Names, extract_struct_name-Names}
use evercore.Generator.Files.{
  Library, find_next_non_empty_line, extract_struct_name, extract_package_name, enter, in_file,
  process_lines, process_file,
}

get_elem?-middle :
    {A : Type 0} (before : List A) (x : A) (rest : List A)
    → get_elem? (before ++ x ∷ rest) (length before) ≡ some x
get_elem?-middle [] x rest = refl
get_elem?-middle (b ∷ before) x rest = get_elem?-middle before x rest

module _ (lib : Library) (file_path : String) (lines : List String) where
  -- The directive stands on its line, and its struct on the next line that is not empty.
  pub record IsAt (kind : String) (d : Directive) : Type 0 where
    pub index : ℕ
    pub text : String
    pub there : get_elem? lines index ≡ some text
    pub matched : lib.directive_match (lib.trim_space text) ≡ some kind
    pub named : Names lib lines (index + 1) d.struct
    pub filed : d.file_path ≡ file_path
    pub numbered : d.line ≡ index + 1
    pub typed : d.directive_type ≡ kind

  abbrev pub AllAt : String → Dict String Directive → Type 0
  AllAt kind m =
      (name : String) (d : Directive) → lookup name m ≡ some d → (d.struct ≡ name) × IsAt kind d

  pub record IsLocated (located : LocatedDirectives) : Type 0 where
    pub aggregates : AllAt aggregate located.aggregates
    pub state_events : AllAt state_event located.state_events
    pub events : AllAt event located.events

  insert-AllAt :
      (kind : String) (d : Directive) (m : Dict String Directive)
      → IsAt kind d
      → AllAt kind m
      → AllAt kind (insert d.struct d m)
  insert-AllAt kind d m at all name d' found = elim (Eq-cases name d.struct) [
    | inl same ↦
        let here : lookup name (insert d.struct d m) ≡ some d =
          subst (λ n. lookup n (insert d.struct d m) ≡ some d) (sym same)
            (lookup-insert_self d.struct d m) in
        let it : d ≡ d' = cc in subst (λ x. (x.struct ≡ name) × IsAt kind x) it (sym same, at)
    | inr other ↦
        all name d' (sym (lookup-insert_ne d.struct name d m (λ q. other (sym q))) ∙ found)
  ]

  enter-IsLocated :
      (directive : String) (d : Directive) (located : LocatedDirectives)
      → IsAt directive d
      → IsLocated located
      → IsLocated (enter directive d located)
  unfolding enter
  enter-IsLocated directive d located at l =
      let is : (kind : String) → (directive == kind) ≡ true → IsAt kind d =
        λ kind same. subst (λ k. IsAt k d) ((string_eq.same_iff directive kind).0 same) at in
      elim (Bool-cases (directive == aggregate)) [
        | inl a ↦ rw a (record {
          aggregates = insert-AllAt aggregate d located.aggregates (is aggregate a) l.aggregates;
          state_events = l.state_events;
          events = l.events;
        })
        | inr not_a ↦ elim (Bool-cases (directive == state_event)) [
          | inl s ↦
              rw (not_a, s)
                (record {
                  aggregates = l.aggregates;
                  state_events =
                      insert-AllAt state_event d located.state_events (is state_event s)
                        l.state_events;
                  events = l.events;
                })
          | inr not_s ↦ elim (Bool-cases (directive == event)) [
            | inl e ↦
                rw (not_a, not_s, e)
                  (record {
                    aggregates = l.aggregates;
                    state_events = l.state_events;
                    events = insert-AllAt event d located.events (is event e) l.events;
                  })
            | inr not_e ↦ rw (not_a, not_s, not_e) l
          ]
        ]
      ]

-- A result of which something holds if there is one.
abbrev pub IfDone : {A : Type 0} → (A → Type 0) → Result A → Type 0
IfDone P (done a) = P a
IfDone P (failed e) = Unit

pub in_file-IfDone :
    {A B : Type 0} (P : B → Type 0) (file_path : String) (r : Result A) (f : A → Result B)
    → ((a : A) → r ≡ done a → IfDone P (f a))
    → IfDone P (in_file file_path r f)
in_file-IfDone P file_path (done a) f h = h a refl
in_file-IfDone P file_path (failed e) f h = tt

module _ (lib : Library) (file_path module_name pkg_name : String)
    (no_struct : lib.struct_match "" ≡ none) where
  process_lines-IsLocated :
      (lines before rest : List String) (idx : ℕ) (located : LocatedDirectives)
      → lines ≡ before ++ rest
      → idx ≡ length before
      → IsLocated lib file_path lines located
      → IfDone
          (IsLocated lib file_path lines)
          (process_lines lib file_path module_name lines pkg_name idx rest located)
  unfolding process_lines
  process_lines-IsLocated lines before [] idx located e i l = l
  process_lines-IsLocated lines before (line ∷ rest) idx located e i l =
      let later : (located' : LocatedDirectives)
          → IsLocated lib file_path lines located'
          → IfDone (IsLocated lib file_path lines)
              (process_lines lib file_path module_name lines pkg_name (idx + 1) rest located') =
        λ located' l'.
          process_lines-IsLocated lines (before ++ line ∷ []) rest (idx + 1) located'
            (e ∙ sym (append_assoc before (line ∷ []) rest))
            (omega (arith, i, length-append before (line ∷ []))) l' in
      let there : get_elem? lines idx ≡ some line = rw (e, i) (get_elem?-middle before line rest) in
      elim (Option-cases (lib.directive_match (lib.trim_space line))) [
        | inl nothing ↦ rw (nothing, IfDone) (later located l)
        | inr (directive, matched) ↦
            rw (matched, IfDone)
              (in_file-IfDone (IsLocated lib file_path lines) file_path
                (validate_directive directive file_path (idx + 1)) _
                (λ _ _.
                  in_file-IfDone (IsLocated lib file_path lines) file_path
                    (extract_struct_name lib (find_next_non_empty_line lib lines (idx + 1))
                      file_path)
                    _
                    (λ name followed. later _ (
                      enter-IsLocated lib file_path lines directive _ located
                        (record {
                          index = idx;
                          text = line;
                          there = there;
                          matched = matched;
                          named =
                              extract_struct_name-Names lib lines (idx + 1) file_path name no_struct
                                followed;
                          filed = refl;
                          numbered = refl;
                          typed = refl;
                        })
                        l))))
      ]

-- A file that is processed without an error gives directives that stand in it: each is of the
-- kind of its map, which its line names, is numbered by that line, and is entered under the name,
-- an identifier, of the struct that the first later line that is not blank declares; where the
-- expression for a declaration does not match the empty text.
pub process_file-IsLocated :
    (lib : Library) (file_path module_name : String) (lines : List String)
    (located : LocatedDirectives)
    → lib.struct_match "" ≡ none
    → process_file lib file_path module_name lines ≡ done located
    → IsLocated lib file_path lines located
unfolding process_file lookup
process_file-IsLocated lib file_path module_name lines located no_struct result =
    let name = extract_package_name lib lines in
    elim (Bool-cases (name == "")) [
      | inl missing ↦ absurd (
          let never : process_file lib file_path module_name lines
              ≡ failed (no_package_declaration file_path) =
            rw missing refl in
          cc)
      | inr named ↦
          let ran : process_file lib file_path module_name lines
              ≡ process_lines lib file_path module_name lines name 0 lines new_located_directives =
            rw named refl in
          subst (IfDone (IsLocated lib file_path lines)) (sym ran ∙ result) (
            process_lines-IsLocated lib file_path module_name name no_struct lines [] lines 0
              new_located_directives refl refl
              (record {
                aggregates = λ _ _ h. absurd (cc);
                state_events = λ _ _ h. absurd (cc);
                events = λ _ _ h. absurd (cc);
              }))
    ]
