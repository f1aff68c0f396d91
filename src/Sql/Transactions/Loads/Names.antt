-- ===== src/Sql/Transactions/Loads/Names.antt =====
-- The names that a table of types has for ids, when types are added.
use evercore.Base.{
  ℕ, String, false, List, [], ◌∷◌, ◌++◌, none, some, ◌≡◌, ◌==◌, nat_eq, string_eq, arith, All,
  Bool-cases, inl, inr, ==_refl, subst, ap,
}
use evercore.Types.{IdNamePair}
use evercore.Sql.Tables.Rows.{any}
use evercore.Sql.Tables.Streams.{name_of_id, id_of_name}
use evercore.Sql.Valid.{Apart, same_pair_id}

-- A name stays when types are added.
pub name_of_id-append :
    (id : ℕ) (name : String) (types more : List IdNamePair)
    → name_of_id id types ≡ some name
    → name_of_id id (types ++ more) ≡ some name
unfolding name_of_id
name_of_id-append id name [] more h = absurd (let no : none ≡ some name = h in cc)
name_of_id-append id name (p ∷ ps) more h = ground (arith, name_of_id-append id name ps more)

-- A new id has the name that it was added with.
pub name_of_id-new :
    (id : ℕ) (name : String) (types : List IdNamePair)
    → any (λ p. p.id == id) types ≡ false
    → name_of_id id (types ++ record { id = id; name = name } ∷ []) ≡ some name
unfolding name_of_id
name_of_id-new id name [] h = ground arith
name_of_id-new id name (p ∷ ps) h = ground (arith, name_of_id-new id name ps)

id_of_name-later :
    (p : IdNamePair) (name : String) (id : ℕ) (ps : List IdNamePair)
    → All (λ o. same_pair_id p o ≡ false) ps
    → id_of_name name ps ≡ some id
    → (p.id == id) ≡ false
unfolding id_of_name
id_of_name-later p name id [] all h = absurd (let no : none ≡ some id = h in cc)
id_of_name-later p name id (o ∷ ps) (apart, all) h =
    ground (arith, id_of_name-later p name id ps all)

-- The id that a name has leads back to the name.
pub name_of_id-id_of_name :
    (name : String) (id : ℕ) (types : List IdNamePair)
    → Apart same_pair_id types
    → id_of_name name types ≡ some id
    → name_of_id id types ≡ some name
unfolding name_of_id id_of_name
name_of_id-id_of_name name id [] apart h = absurd (let no : none ≡ some id = h in cc)
name_of_id-id_of_name name id (p ∷ ps) (alone, apart) h = elim (Bool-cases (p.name == name)) [
  | inl hit ↦
      let same : p.id ≡ id = (let e : some p.id ≡ some id = rw hit at h in cc) in
      subst (λ k. name_of_id k (p ∷ ps) ≡ some name) same
        (rw (==_refl p.id) (ap some ((string_eq.same_iff p.name name).0 hit)))
  | inr miss ↦
      let later : id_of_name name ps ≡ some id = rw miss at h in
      rw (id_of_name-later p name id ps alone later) (name_of_id-id_of_name name id ps apart later)
]
