-- ===== src/Generator/Project/Gathered.antt =====
-- Whatever the walk gathers stands in a file that it has read.
use mathlib.Core.List.{append_assoc}
use evercore.Base.{
  none, String, List, [], ◌∷◌, ◌++◌, Option, some, Bool, ◌≡◌, ◌⊎◌, string_eq, refl, sym, ◌∙◌, subst,
  inl, inr, Bool-cases, Option-cases, Eq-cases, ==_ne,
}
use evercore.Base.Dict.{Dict, lookup, insert, lookup-insert_self, lookup-insert_ne}
use evercore.Generator.Directives.{
  Result-cases, Directive, LocatedDirectives, new_located_directives, aggregate, event, state_event,
}
use evercore.Generator.Files.{Library, process_file}
use evercore.Generator.Located.{IsAt, AllAt, process_file-IsLocated}
use evercore.Generator.Project.Chosen.{IsChosen, should_process_file-IsChosen}
use evercore.Generator.Project.{
  Config, File, merge, merge_directives, should_process_file, read_file, walk, walk_project,
}

-- An entry of a merged map is one of either.
merge-either :
    (name : String) (v : Directive) (new target : Dict String Directive)
    → lookup name (merge new target) ≡ some v
    → (lookup name new ≡ some v) ⊎ (lookup name target ≡ some v)
unfolding merge lookup
merge-either name v [] target found = inr found
merge-either name v ((k, w) ∷ new) target found = elim (Eq-cases k name) [
  | inl same ↦
      let here : lookup name (insert k w (merge new target)) ≡ some w =
        subst (λ n. lookup n (insert k w (merge new target)) ≡ some w) same
          (lookup-insert_self k w (merge new target)) in
      rw ((string_eq.same_iff k name).1 same) (inl (sym here ∙ found))
  | inr other ↦ rw (==_ne k name other) (
      merge-either name v new target
        (sym (lookup-insert_ne k name w (merge new target) other) ∙ found))
]

module _ (lib : Library) (to_slash : String → String) (match : String → String → Option Bool)
    (module_name : String) (config : Config) where
  -- A directive of this kind in a file that is to be processed and can be read.
  pub record IsGathered (files : List File) (kind name : String) (v : Directive) : Type 0 where
    pub file : File
    pub lines : List String
    pub walked : (before after : List File) × (files ≡ before ++ file ∷ after)
    pub chosen : IsChosen lib to_slash match config file.path
    pub readable : file.lines ≡ some lines
    pub named : v.struct ≡ name
    pub located : IsAt lib file.path lines kind v

  module _ (files : List File) where
    abbrev AllGathered : String → Dict String Directive → Type 0
    AllGathered kind m =
        (name : String) (v : Directive) → lookup name m ≡ some v → IsGathered files kind name v

    pub record AreGathered (located : LocatedDirectives) : Type 0 where
      pub aggregates : AllGathered aggregate located.aggregates
      pub state_events : AllGathered state_event located.state_events
      pub events : AllGathered event located.events

    -- What a file adds is gathered from it.
    merge-AllGathered :
        (kind : String) (new target : Dict String Directive) (file : File) (lines : List String)
        → ((before after : List File) × (files ≡ before ++ file ∷ after))
        → IsChosen lib to_slash match config file.path
        → file.lines ≡ some lines
        → AllAt lib file.path lines kind new
        → AllGathered kind target
        → AllGathered kind (merge new target)
    merge-AllGathered kind new target file lines walked chosen readable at old name v found =
        elim (merge-either name v new target found) [
          | inr earlier ↦ old name v earlier
          | inl added ↦
              let (named, located) = at name v added in
              record {
                file = file;
                lines = lines;
                walked = walked;
                chosen = chosen;
                readable = readable;
                named = named;
                located = located;
              }
        ]

    walk-AreGathered :
        (no_struct : lib.struct_match "" ≡ none) (before rest : List File)
        (located : LocatedDirectives)
        → files ≡ before ++ rest
        → AreGathered located
        → AreGathered (walk lib to_slash match module_name config rest located).0
    unfolding walk merge_directives read_file
    walk-AreGathered no_struct before [] located e g = g
    walk-AreGathered no_struct before (file ∷ rest) located e g =
        let ih = λ (located' : LocatedDirectives) (g' : AreGathered located').
          walk-AreGathered no_struct (before ++ file ∷ []) rest located'
            (e ∙ sym (append_assoc before (file ∷ []) rest)) g' in
        elim (Bool-cases (should_process_file lib to_slash match file.path config)) [
          | inr skipped ↦ rw skipped (ih located g)
          | inl chosen ↦ elim (Option-cases file.lines) [
            | inl unread ↦ rw (chosen, unread) g
            | inr (lines, readable) ↦
                elim (Result-cases (process_file lib file.path module_name lines)) [
                  | inr (x, wrong) ↦ rw (chosen, readable) (rw wrong g)
                  | inl (new, processed) ↦
                      let is_chosen =
                        should_process_file-IsChosen lib to_slash match config file.path chosen in
                      let at =
                        process_file-IsLocated lib file.path module_name lines new no_struct
                          processed in
                      rw (chosen, readable)
                        (rw processed (
                          ih _ (record {
                            aggregates =
                                merge-AllGathered aggregate new.aggregates located.aggregates file
                                  lines (before, rest, e) is_chosen readable at.aggregates
                                  g.aggregates;
                            state_events =
                                merge-AllGathered state_event new.state_events located.state_events
                                  file lines (before, rest, e) is_chosen readable at.state_events
                                  g.state_events;
                            events =
                                merge-AllGathered event new.events located.events file lines
                                  (before, rest, e) is_chosen readable at.events g.events;
                          })))
                ]
          ]
        ]

    -- Whatever the walk over a project's files has gathered, also where an error ended it, stands
    -- in a file that can be read, that no exclude pattern matches and some include pattern does:
    -- a directive of that kind on the line that it names, and on the first later line that is not
    -- blank the declaration of the struct under whose name it was gathered, which is an
    -- identifier; where the expression for a declaration does not match the empty text.
    pub walk_project-AreGathered :
        lib.struct_match "" ≡ none
        → AreGathered (walk_project lib to_slash match module_name config files).0
    unfolding walk_project lookup
    walk_project-AreGathered no_struct =
        walk-AreGathered no_struct [] files new_located_directives refl (record {
          aggregates = λ _ _ h. absurd (cc);
          state_events = λ _ _ h. absurd (cc);
          events = λ _ _ h. absurd (cc);
        })
