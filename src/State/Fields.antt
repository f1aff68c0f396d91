-- ===== src/State/Fields.antt =====
-- `CopyFields`. A struct is its fields by name. What `reflect` says of types and of the conversion
-- of values is a parameter; a pointer field of the source is nil or stands for what it points to.
-- Fields promoted from embedded structs are left out.
pub mod Copies
use evercore.Base.{ℕ, String, Bool, List, [], ◌∷◌, Option, none, some, if◌then◌else◌, string_eq}
use evercore.Base.Dict.{Dict, lookup, insert}
use evercore.Base.Outcome.{M, ok, err, ◌>>◌, pure, cannot_assign}

-- `Type.AssignableTo`, `Type.ConvertibleTo` and `Value.Convert`, from the first type to the second.
pub record Reflection (V : Type 0) : Type 0 where
  pub is_assignable : String → String → Bool
  pub is_convertible : String → String → Bool
  pub convert : String → String → V → V

-- A field of the source: the type of the value, behind the pointer if there is one.
pub record SourceField (V : Type 0) : Type 0 where
  pub value_type : String
  pub value : Option V

pub record TargetField (V : Type 0) : Type 0 where
  pub value_type : String
  pub can_set : Bool
  pub value : V

module _ {V : Type 0} (r : Reflection V) where
  -- A field whose value is there and whose counterpart can be set.
  assign : String → SourceField V → V → TargetField V → M (Dict String (TargetField V)) (Unit {0})
  assign name source v target fields =
      if r.is_assignable source.value_type target.value_type
      then (ok tt, insert name (record target { value = v }) fields)
      else if r.is_convertible source.value_type target.value_type
      then (
        ok tt,
        insert name (record target { value = r.convert source.value_type target.value_type v })
            fields,
      )
      else (err (cannot_assign name), fields)

  unfoldable pub copy_field : String → SourceField V → M (Dict String (TargetField V)) (Unit {0})
  unfolding assign
  copy_field name source fields = elim (lookup name fields) [
    | none ↦ (ok tt, fields)
    | some target ↦
        if target.can_set
        then elim source.value [
          | none ↦ (ok tt, fields)
          | some v ↦ assign name source v target fields
        ]
        else (ok tt, fields)
  ]

  unfoldable pub copy_fields :
      List (String × SourceField V) → M (Dict String (TargetField V)) (Unit {0})
  unfolding copy_field
  copy_fields [] = pure tt
  copy_fields ((name, source) ∷ sources) = do copy_field name source; copy_fields sources
