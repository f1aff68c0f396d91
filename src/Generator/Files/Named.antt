-- ===== src/Generator/Files/Named.antt =====
-- The struct that follows a directive, described by the lines of the file.
use evercore.Base.{
  ℕ, zero, suc, ◌+◌, ◌-◌, ◌<◌, ◌≤◌, String, List, [], ◌∷◌, none, some, true, false, ◌||◌, ◌==◌, ◌≡◌,
  ◌≢◌, ◌⊎◌, inl, inr, refl, sym, subst, ap, ◌∙◌, arith, All, Bool-cases, Option-cases, string_eq,
  nat_eq, get_elem?, drop,
}
use evercore.Generator.Directives.{done}
use evercore.Generator.Files.{
  Library, first_non_empty, find_next_non_empty_line, is_valid_from, is_valid_go_identifier,
  extract_struct_name,
}

module _ (lib : Library) where
  -- A name in Go: a letter or an underscore, and then letters, underscores and digits.
  abbrev pub IsIdentifier : List ℕ → Type 0
  IsIdentifier [] = ⊥
  IsIdentifier (c ∷ cs) =
      ((lib.is_letter c || c == 95) ≡ true)
      × All (λ x. (lib.is_letter x || (x == 95 || lib.is_digit x)) ≡ true) cs

  -- The first line from `start` on that is not blank declares the struct.
  pub record Names (lines : List String) (start : ℕ) (name : String) : Type 0 where
    pub index : ℕ
    pub text : String
    pub there : get_elem? lines index ≡ some text
    pub from : start ≤ index
    pub blank :
        (j : ℕ) (line : String)
        → start ≤ j
        → j < index
        → get_elem? lines j ≡ some line
        → lib.trim_space line ≡ ""
    pub filled : lib.trim_space text ≢ ""
    pub matched : lib.struct_match (lib.trim_space text) ≡ some name
    pub identifier : IsIdentifier (lib.runes name)

  -- What the search for a line that is not blank has found, if there is one.
  record Finds (lines : List String) : Type 0 where
    pub index : ℕ
    pub text : String
    pub there : get_elem? lines index ≡ some text
    pub blank :
        (j : ℕ) (line : String)
        → j < index
        → get_elem? lines j ≡ some line
        → lib.trim_space line ≡ ""
    pub filled : lib.trim_space text ≢ ""
    pub found : first_non_empty lib lines ≡ lib.trim_space text

  blank_before :
      (line : String) (lines : List String) (index : ℕ)
      → (lib.trim_space line == "") ≡ true
      → ((j : ℕ) (l : String) → j < index → get_elem? lines j ≡ some l → lib.trim_space l ≡ "")
      → (j : ℕ) (l : String) → j < suc index
      → get_elem? (line ∷ lines) j ≡ some l
      → lib.trim_space l ≡ ""
  blank_before line lines index empty blank zero l lt there =
      let same : line ≡ l = (let h = there in cc) in
      subst (λ x. lib.trim_space x ≡ "") same
        ((string_eq.same_iff (lib.trim_space line) "").0 empty)
  blank_before line lines index empty blank (suc j) l lt there = blank j l (omega (arith, lt)) there

  first_non_empty-Finds : (lines : List String) → (first_non_empty lib lines ≡ "") ⊎ Finds lines
  unfolding first_non_empty
  first_non_empty-Finds [] = inl refl
  first_non_empty-Finds (line ∷ lines) = elim (Bool-cases (lib.trim_space line == "")) [
    | inr full ↦ inr (record {
      index = 0;
      text = line;
      there = refl;
      blank = λ j l lt _. absurd (omega (arith, lt));
      filled = λ e. absurd (let yes = (string_eq.same_iff (lib.trim_space line) "").1 e in cc);
      found = rw full refl;
    })
    | inl empty ↦ elim (first_non_empty-Finds lines) [
      | inl none_left ↦ inl (rw empty none_left)
      | inr f ↦ inr (record {
        index = suc f.index;
        text = f.text;
        there = f.there;
        blank = blank_before line lines f.index empty f.blank;
        filled = f.filled;
        found = rw empty f.found;
      })
    ]
  ]

  get_elem?-drop :
      (n : ℕ) (lines : List String) (k : ℕ) → get_elem? (drop n lines) k ≡ get_elem? lines (n + k)
  get_elem?-drop zero lines k = ap (get_elem? lines) (let same : k ≡ 0 + k = omega arith in same)
  get_elem?-drop (suc n) [] k = refl
  get_elem?-drop (suc n) (x ∷ lines) k =
      get_elem?-drop n lines k
      ∙ ap (get_elem? (x ∷ lines)) (let same : suc (n + k) ≡ suc n + k = omega arith in same)

  is_valid_from-rest :
      (cs : List ℕ)
      → is_valid_from lib false cs ≡ true
      → All (λ x. (lib.is_letter x || (x == 95 || lib.is_digit x)) ≡ true) cs
  unfolding is_valid_from
  is_valid_from-rest [] valid = tt
  is_valid_from-rest (c ∷ cs) valid = ground (arith, valid, is_valid_from-rest cs)

  is_valid_go_identifier-IsIdentifier :
      (cs : List ℕ) → is_valid_go_identifier lib cs ≡ true → IsIdentifier cs
  unfolding is_valid_go_identifier is_valid_from
  is_valid_go_identifier-IsIdentifier [] valid = absurd (let no : false ≡ true = valid in cc)
  is_valid_go_identifier-IsIdentifier (c ∷ cs) valid = ground (arith, valid, is_valid_from-rest cs)

  extract_struct_name-matched :
      (line file_path name : String)
      → extract_struct_name lib line file_path ≡ done name
      → (lib.struct_match line ≡ some name) × (is_valid_go_identifier lib (lib.runes name) ≡ true)
  unfolding extract_struct_name
  extract_struct_name-matched line file_path name result =
      elim (Option-cases (lib.struct_match line)) [
        | inl bad ↦ absurd (let no = rw (bad, extract_struct_name) at result in cc)
        | inr (struct, matched) ↦
            elim (Bool-cases (is_valid_go_identifier lib (lib.runes struct))) [
              | inr invalid ↦
                  absurd (let no = rw (matched, extract_struct_name, invalid) at result in cc)
              | inl valid ↦
                  let same : struct ≡ name =
                    (let h = rw (matched, extract_struct_name, valid) at result in cc) in
                  (
                    matched ∙ ap some same,
                    subst (λ n. is_valid_go_identifier lib (lib.runes n) ≡ true) same valid,
                  )
            ]
      ]

  pub extract_struct_name-Names :
      (lines : List String) (start : ℕ) (file_path name : String)
      → lib.struct_match "" ≡ none
      → extract_struct_name lib (find_next_non_empty_line lib lines start) file_path ≡ done name
      → Names lines start name
  unfolding find_next_non_empty_line
  extract_struct_name-Names lines start file_path name no_struct result =
      let (matched, valid) = extract_struct_name-matched _ file_path name result in
      elim (first_non_empty-Finds (drop start lines)) [
        | inl nothing ↦ absurd (
            let no : none ≡ some name =
              sym no_struct ∙ ap lib.struct_match (sym nothing) ∙ matched in
            cc)
        | inr f ↦ record {
          index = start + f.index;
          text = f.text;
          there = sym (get_elem?-drop start lines f.index) ∙ f.there;
          from = omega arith;
          blank = λ j line past before at.
              let back : j ≡ start + (j - start) = omega (arith, past) in
              f.blank (j - start) line (omega (arith, past, before))
                (get_elem?-drop start lines (j - start) ∙ ap (get_elem? lines) (sym back) ∙ at);
          filled = f.filled;
          matched = ap lib.struct_match (sym f.found) ∙ matched;
          identifier = is_valid_go_identifier-IsIdentifier (lib.runes name) valid;
        }
      ]
