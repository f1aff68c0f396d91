-- ===== src/State/Fields/Copies.antt =====
-- What `CopyFields` copies, and what it leaves alone.
use evercore.Base.{
  String, true, List, [], ◌∷◌, ◌++◌, none, some, ◌≡◌, ◌≢◌, refl, sym, ap, ◌∙◌, inl, inr, arith,
  if◌then◌else◌, string_eq, Bool-cases, Option-cases,
}
use evercore.Base.Dict.{Dict, lookup, lookup-insert_self, lookup-insert_ne}
use evercore.Base.Outcome.{Outcome, ok, err, panic, resume}
use evercore.State.Fields.{Reflection, SourceField, TargetField, assign, copy_field, copy_fields}

-- No field of the source has the name.
abbrev pub IsUnnamed : {V : Type 0} → String → List (String × SourceField V) → Type 0
IsUnnamed name [] = Unit
IsUnnamed name ((n, source) ∷ sources) = (n ≢ name) × IsUnnamed name sources

module _ {V : Type 0} (r : Reflection V) where
  assign-other :
      (name n : String) (source : SourceField V) (v : V) (target : TargetField V)
      (fields : Dict String (TargetField V))
      → n ≢ name
      → lookup name (assign r n source v target fields).1 ≡ lookup name fields
  unfolding assign
  assign-other name n source v target fields apart =
      elim (Bool-cases (r.is_assignable source.value_type target.value_type)) [
        | inl direct ↦ rw direct (lookup-insert_ne n name _ fields apart)
        | inr typed ↦ elim (Bool-cases (r.is_convertible source.value_type target.value_type)) [
          | inl converted ↦ rw (typed, converted) (lookup-insert_ne n name _ fields apart)
          | inr neither ↦ rw (typed, neither)
        ]
      ]

  copy_field-other :
      (name n : String) (source : SourceField V) (fields : Dict String (TargetField V))
      → n ≢ name
      → lookup name (copy_field r n source fields).1 ≡ lookup name fields
  unfolding copy_field
  copy_field-other name n source fields apart = elim (Option-cases (lookup n fields)) [
    | inl e ↦ rw (e, copy_field)
    | inr (target, e) ↦ elim (Bool-cases target.can_set) [
      | inr fixed ↦ rw (e, copy_field) (rw fixed)
      | inl free ↦ elim (Option-cases source.value) [
        | inl nil ↦ rw (e, copy_field) (rw (free, nil))
        | inr (v, at) ↦
            rw (e, copy_field) (rw (free, at) (assign-other name n source v target fields apart))
      ]
    ]
  ]

  resume-copy :
      (name : String) (sources : List (String × SourceField V))
      (s : Outcome (Unit {0}) × Dict String (TargetField V))
      → ((fields : Dict String (TargetField V))
          → lookup name (copy_fields r sources fields).1 ≡ lookup name fields)
      → lookup name (resume s (λ _. copy_fields r sources)).1 ≡ lookup name s.1
  resume-copy name sources (ok a, fields) h = h fields
  resume-copy name sources (err e, fields) h = refl
  resume-copy name sources (panic m, fields) h = refl

  -- A field that the source does not name stays as it is, also when the copy fails.
  pub copy_fields-other :
      (name : String) (sources : List (String × SourceField V))
      (fields : Dict String (TargetField V))
      → IsUnnamed name sources
      → lookup name (copy_fields r sources fields).1 ≡ lookup name fields
  unfolding copy_fields
  copy_fields-other name [] fields h = refl
  copy_fields-other name ((n, source) ∷ sources) fields (apart, h) =
      resume-copy name sources (copy_field r n source fields)
        (λ fs. copy_fields-other name sources fs h)
      ∙ copy_field-other name n source fields apart

  -- The value that a field of the source gives its counterpart.
  abbrev copied : SourceField V → V → TargetField V → V
  copied source v target =
      if r.is_assignable source.value_type target.value_type
      then v
      else r.convert source.value_type target.value_type v

  assign-copied :
      (name : String) (source : SourceField V) (v : V) (target : TargetField V)
      (fields : Dict String (TargetField V))
      → (assign r name source v target fields).0 ≡ ok tt
      → lookup name (assign r name source v target fields).1
        ≡ some (record target { value = copied source v target })
  unfolding assign
  assign-copied name source v target fields success =
      elim (Bool-cases (r.is_assignable source.value_type target.value_type)) [
        | inl direct ↦ rw direct (lookup-insert_self name _ fields)
        | inr typed ↦ elim (Bool-cases (r.is_convertible source.value_type target.value_type)) [
          | inl converted ↦ rw (typed, converted) (lookup-insert_self name _ fields)
          | inr neither ↦ absurd (ground arith)
        ]
      ]

  copy_field-assign :
      (name : String) (source : SourceField V) (v : V) (target : TargetField V)
      (fields : Dict String (TargetField V))
      → source.value ≡ some v
      → lookup name fields ≡ some target
      → target.can_set ≡ true
      → copy_field r name source fields ≡ assign r name source v target fields
  unfolding copy_field
  copy_field-assign name source v target fields at e free =
      rw (e, copy_field)
        (ap
            (λ b.
              if b
              then elim source.value [
                | none ↦ (ok tt, fields)
                | some x ↦ assign r name source x target fields
              ]
              else (ok tt, fields))
            free
          ∙ rw at)

  -- A run over more fields that succeeds has succeeded on each of them.
  copy_fields-cons :
      (name : String) (source : SourceField V) (sources : List (String × SourceField V))
      (fields : Dict String (TargetField V))
      → (copy_fields r ((name, source) ∷ sources) fields).0 ≡ ok tt
      → ((copy_field r name source fields).0 ≡ ok tt)
        × (copy_fields r ((name, source) ∷ sources) fields
            ≡ copy_fields r sources (copy_field r name source fields).1)
  unfolding copy_fields
  copy_fields-cons name source sources fields success =
      went (copy_field r name source fields) success
    where
      went :
          (s : Outcome (Unit {0}) × Dict String (TargetField V))
          → (resume s (λ _. copy_fields r sources)).0 ≡ ok tt
          → (s.0 ≡ ok tt) × (resume s (λ _. copy_fields r sources) ≡ copy_fields r sources s.1)
      went (ok a, fs) h = (refl, refl)
      went (err e, fs) h = absurd (cc)
      went (panic m, fs) h = absurd (cc)

  -- After a copy of fields that succeeds, a field that the source names once, with a value, and
  -- that can be set has that value, converted if it cannot be assigned as it is; its type is as
  -- before.
  pub copy_fields-copied :
      (name : String) (source : SourceField V) (v : V) (target : TargetField V)
      (before after : List (String × SourceField V)) (fields : Dict String (TargetField V))
      → IsUnnamed name before
      → IsUnnamed name after
      → source.value ≡ some v
      → lookup name fields ≡ some target
      → target.can_set ≡ true
      → let result = copy_fields r (before ++ (name, source) ∷ after) fields in
        result.0 ≡ ok tt
        → lookup name result.1 ≡ some (record target { value = copied source v target })
  copy_fields-copied name source v target [] after fields u w at e free success =
      let (here, rest) = copy_fields-cons name source after fields success in
      let same = copy_field-assign name source v target fields at e free in
      ap (λ o. lookup name o.1) rest
      ∙ copy_fields-other name after _ w
      ∙ ap (λ o. lookup name o.1) same
      ∙ assign-copied name source v target fields (sym (ap (λ o. o.0) same) ∙ here)
  copy_fields-copied name source v target ((n, s) ∷ before) after fields (apart, u) w at e free
        success =
      let (here, rest) = copy_fields-cons n s (before ++ (name, source) ∷ after) fields success in
      ap (λ o. lookup name o.1) rest
      ∙ copy_fields-copied name source v target before after (copy_field r n s fields).1 u w at
          (copy_field-other name n s fields apart ∙ e) free (sym (ap (λ o. o.0) rest) ∙ success)
