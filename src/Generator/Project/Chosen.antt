-- ===== src/Generator/Project/Chosen.antt =====
-- Which files are to be processed, described by the patterns.
use evercore.Base.{
  String, Bool, true, false, List, [], ◌∷◌, ◌++◌, Option, some, ◌≡◌, ◌≢◌, refl, ap, inl, inr, All,
  Bool-cases, Option-cases,
}
use evercore.Generator.Files.{Library}
use evercore.Generator.Project.{Config, matches_one, should_process_file}

module _ (lib : Library) (to_slash : String → String) (match : String → String → Option Bool)
    (config : Config) where
  -- Some pattern matches a path, and an invalid pattern matches none.
  abbrev pub Matches : List String → String → Type 0
  Matches patterns path =
      (before : List String) × (p : String) × (after : List String) × (patterns
        ≡ before ++ p ∷ after)
      × (match p path ≡ some true)

  -- A file is to be processed where no pattern excludes it and one includes it.
  abbrev pub IsChosen : String → Type 0
  IsChosen path =
      All (λ p. match p (to_slash path) ≢ some true) config.exclude_dirs
      × Matches config.include_globs (to_slash path)

  matches_one-Matches :
      (patterns : List String) (path : String)
      → matches_one lib to_slash match patterns path ≡ true
      → Matches patterns path
  matches_one-Matches [] path h = absurd (let no : false ≡ true = h in cc)
  matches_one-Matches (p ∷ patterns) path h =
      let later : matches_one lib to_slash match patterns path ≡ true
          → Matches (p ∷ patterns) path =
        λ g.
          let (before, q, after, same, hit) = matches_one-Matches patterns path g in
          (p ∷ before, q, after, ap (λ l. p ∷ l) same, hit) in
      elim (Option-cases (match p path)) [
        | inl invalid ↦ later (rw (invalid, matches_one) at h)
        | inr (true, hit) ↦ ([], p, patterns, refl, hit)
        | inr (false, miss) ↦ later (rw (miss, matches_one) at h)
      ]

  matches_one-none :
      (patterns : List String) (path : String)
      → matches_one lib to_slash match patterns path ≡ false
      → All (λ p. match p path ≢ some true) patterns
  matches_one-none [] path h = tt
  matches_one-none (p ∷ patterns) path h = elim (Option-cases (match p path)) [
    | inl invalid ↦ ((λ e. cc), matches_one-none patterns path (rw (invalid, matches_one) at h))
    | inr (true, hit) ↦ absurd (let no : true ≡ false = rw (hit, matches_one) at h in cc)
    | inr (false, miss) ↦ ((λ e. cc), matches_one-none patterns path (rw (miss, matches_one) at h))
  ]

  pub should_process_file-IsChosen :
      (path : String) → should_process_file lib to_slash match path config ≡ true → IsChosen path
  unfolding should_process_file
  should_process_file-IsChosen path h =
      elim (Bool-cases (matches_one lib to_slash match config.exclude_dirs (to_slash path))) [
        | inl excluded ↦ absurd (let no : false ≡ true = rw excluded at h in cc)
        | inr kept ↦ (
          matches_one-none config.exclude_dirs (to_slash path) kept,
          matches_one-Matches config.include_globs (to_slash path) (rw kept at h),
        )
      ]
