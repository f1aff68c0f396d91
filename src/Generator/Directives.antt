-- ===== src/Generator/Directives.antt =====
-- cmd/evercoregen/directives.go and cmd/evercoregen/errors.go.
use evercore.Base.{ℕ, String, [], ◌||◌, ◌==◌, if◌then◌else◌, string_eq, ◌≡◌, ◌⊎◌, inl, inr, refl}
use evercore.Base.Dict.{Dict}

-- The `DirectiveType`s.
abbrev pub aggregate : String
aggregate = "aggregate"

abbrev pub event : String
event = "event"

abbrev pub state_event : String
state_event = "state-event"

pub record Directive : Type 0 where
  pub directive_type : String
  pub struct : String
  pub file_path : String
  pub package_path : String
  pub package_name : String
  pub line : ℕ

pub record LocatedDirectives : Type 0 where
  pub aggregates : Dict String Directive
  pub state_events : Dict String Directive
  pub events : Dict String Directive

abbrev pub new_located_directives : LocatedDirectives
new_located_directives = record { aggregates = []; state_events = []; events = [] }

pub data GeneratorError : Type 0 where
  invalid_directive : String → String → ℕ → GeneratorError
  invalid_struct_definition : String → ℕ → String → GeneratorError
  file_processing : String → GeneratorError → GeneratorError
  no_package_declaration : String → GeneratorError
  unreadable : String → GeneratorError
  -- `fmt.Errorf`, with an error inside or without.
  wrapped : String → GeneratorError → GeneratorError
  plain : String → GeneratorError

pub data Result (A : Type 0) : Type 0 where
  done : A → Result A
  failed : GeneratorError → Result A

pub Result-cases :
    {A : Type 0} (r : Result A) → ((a : A) × (r ≡ done a)) ⊎ ((e : GeneratorError) × (r ≡ failed e))
Result-cases (done a) = inl (a, refl)
Result-cases (failed e) = inr (e, refl)

unfoldable pub validate_directive : String → String → ℕ → Result (Unit {0})
validate_directive directive file_path line_num =
    if directive == aggregate || (directive == event || directive == state_event)
    then done tt
    else failed (invalid_directive directive file_path line_num)
