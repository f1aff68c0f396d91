-- ===== src/Sql/Delivery/Cursor.antt =====
-- How the rows after a cursor change as it moves.
use evercore.Base.{
  List-cases, ℕ, zero, suc, ◌≤◌, ◌<◌, Bool, true, false, ◌&&◌, List, [], ◌∷◌, ltb, ◌≡◌, refl, sym,
  ◌∙◌, ◌≢◌, inl, inr, take, drop, Bool-cases, arith,
}
use evercore.Sql.Queries.{EventLogRow}
use evercore.Sql.Delivery.{after}
use evercore.Sql.Delivery.Rising.{Rises}

-- The id of the last row, of a list that is not empty.
abbrev pub end_of : List EventLogRow → ℕ
end_of [] = 0
end_of (r ∷ []) = r.id
end_of (r ∷ r' ∷ rows) = end_of (r' ∷ rows)

module _ (p : EventLogRow → Bool) where
  -- A cursor before all rows skips none.
  after-below :
      (c d : ℕ) (rows : List EventLogRow) → Rises d rows → c ≤ d → after p c rows ≡ after p d rows
  unfolding after
  after-below c d [] b h = refl
  after-below c d (r ∷ rows) (b, bs) h =
      let rest : after p c rows ≡ after p d rows =
        after-below c r.id rows bs (omega arith) ∙ sym (after-below d r.id rows bs (omega arith)) in
      ground (arith, rest)

  after-keep :
      (c : ℕ) (r : EventLogRow) (rows : List EventLogRow)
      → (ltb c r.id && p r) ≡ true
      → after p c (r ∷ rows) ≡ r ∷ after p c rows
  unfolding after
  after-keep c r rows h = rw h refl

  after-skip :
      (c : ℕ) (r : EventLogRow) (rows : List EventLogRow)
      → (ltb c r.id && p r) ≡ false
      → after p c (r ∷ rows) ≡ after p c rows
  unfolding after
  after-skip c r rows h = rw h refl

  end_of-cons :
      (r : EventLogRow) (k : ℕ) (rows : List EventLogRow)
      → rows ≢ []
      → end_of (r ∷ take (suc k) rows) ≡ end_of (take (suc k) rows)
  end_of-cons r k [] h = absurd (h refl)
  end_of-cons r k (x ∷ rows) h = refl

  -- The end of a batch lies beyond the cursor, and what is after it is the rest.
  abbrev pub Moves : ℕ → ℕ → List EventLogRow → Type 0
  Moves c k rows =
      let last = end_of (take (suc k) (after p c rows)) in
      (c < last) × (after p last rows ≡ drop (suc k) (after p c rows))

  kept_one :
      (c : ℕ) (r : EventLogRow) (rows : List EventLogRow)
      → Rises r.id rows
      → c < r.id
      → after p r.id (r ∷ rows) ≡ after p c rows
  kept_one c r rows b h =
      after-skip r.id r rows (ground arith) ∙ sym (after-below c r.id rows b (omega arith))

  kept-Moves :
      (c k : ℕ) (r : EventLogRow) (rows : List EventLogRow)
      → Rises r.id rows
      → c < r.id
      → ((j : ℕ) → after p r.id rows ≢ [] → Moves r.id j rows)
      → let last = end_of (r ∷ take k (after p c rows)) in
        (c < last) × (after p last (r ∷ rows) ≡ drop k (after p c rows))
  kept-Moves c zero r rows b h ih = (h, kept_one c r rows b h)
  kept-Moves c (suc k) r rows b h ih = elim (List-cases (after p r.id rows)) [
    | inl done ↦
        let none_left = after-below c r.id rows b (omega arith) ∙ done in
        rw none_left (h, kept_one c r rows b h ∙ none_left)
    | inr more ↦
        let same = after-below c r.id rows b (omega arith) in
        let (beyond, rest) = ih k more in
        rw same
          (rw (end_of-cons r k _ more) (omega arith, after-skip _ r rows (ground arith) ∙ rest))
  ]

  pub moves :
      (c k lo : ℕ) (rows : List EventLogRow) → Rises lo rows → after p c rows ≢ [] → Moves c k rows
  moves c k lo [] b h = absurd (h (unfold after in refl))
  moves c k lo (r ∷ rows) (b, bs) h = elim (Bool-cases (ltb c r.id && p r)) [
    | inl keep ↦
        rw (after-keep c r rows keep)
          (kept-Moves c k r rows bs (ground arith) (λ j more. moves r.id j r.id rows bs more))
    | inr skip ↦
        let eq = after-skip c r rows skip in
        let (beyond, rest) = moves c k r.id rows bs (λ n. h (eq ∙ n)) in
        rw eq (beyond, after-skip _ r rows (ground arith) ∙ rest)
  ]
