-- ===== src/Instances/Handles.antt =====
-- What a handle stands for, from the init of its engine to the destroy.
use gengo.Prelude.{
  ℕ, zero, suc, ◌+◌, ◌-◌, ◌≡◌, ◌≢◌, ◌≤◌, ◌<◌, refl, ap, ◌∙◌, List, [], ◌∷◌, Option, none, some,
  length, arith, inl, inr, Option-cases,
}
use gengo.Instances.{
  max_engines, handle, Table, slot_at, get_engine, claim_slot, engine_init, release, after_release,
  destroy_found, engine_destroy,
}

module _ {State : Type 0} where
  -- The slot that a claim took: it was free, now holds the engine, and every other is as it was.
  pub record Claimed (st : State) (slots slots' : List (Option State)) (k : ℕ) : Type 0 where
    pub inside : k < length slots
    pub was_free : slot_at slots k ≡ none
    pub holds : slot_at slots' k ≡ some st
    pub keeps : (j : ℕ) → j ≢ k → slot_at slots' j ≡ slot_at slots j

  keeps_behind :
      (a : Option State) (xs ys : List (Option State)) (k : ℕ)
      → ((j : ℕ) → j ≢ k → slot_at ys j ≡ slot_at xs j)
      → (j : ℕ) → j ≢ suc k
      → slot_at (a ∷ ys) j ≡ slot_at (a ∷ xs) j
  unfolding slot_at
  keeps_behind a xs ys k same zero n = refl
  keeps_behind a xs ys k same (suc j) n = same j λ e. n (ap (λ m. suc m) e)

  claim_slot-Claimed :
      (st : State) (slots : List (Option State)) (i h : ℕ)
      → (claim_slot (some st) slots i).0 ≡ handle h
      → (k : ℕ) × (h ≡ i + k + 1) × Claimed st slots (claim_slot (some st) slots i).1 k
  unfolding claim_slot slot_at
  claim_slot-Claimed st [] i h e = ground arith
  claim_slot-Claimed st (none ∷ slots) i h e = (
    0,
    ground arith,
    record { inside = omega arith; was_free = refl; holds = refl; keeps = keeps },
  )
    where
      keeps : (j : ℕ) → j ≢ 0 → slot_at (some st ∷ slots) j ≡ slot_at (none ∷ slots) j
      keeps zero n = absurd (n refl)
      keeps (suc j) n = refl
  claim_slot-Claimed st (some other ∷ slots) i h e =
      let (k, at, c) = claim_slot-Claimed st slots (i + 1) h e in
      (
        suc k,
        omega arith,
        record {
          inside = omega (arith, c.inside);
          was_free = c.was_free;
          holds = c.holds;
          keeps = keeps_behind (some other) slots (claim_slot (some st) slots (i + 1)).1 k c.keeps;
        },
      )

  -- A handle in range reads its slot, and any other is dead.
  get_engine_slot :
      (t : Table State) (k : ℕ) → k < max_engines → get_engine t (k + 1) ≡ slot_at t.slots k
  unfolding get_engine
  get_engine_slot t k h = ground arith

  get_engine_same :
      (t t' : Table State) (k : ℕ)
      → ((j : ℕ) → j ≢ k → slot_at t'.slots j ≡ slot_at t.slots j)
      → (h : ℕ) → h ≢ k + 1
      → get_engine t' h ≡ get_engine t h
  unfolding get_engine
  get_engine_same t t' k same zero n = refl
  get_engine_same t t' k same (suc h) n =
      let e : slot_at t'.slots h ≡ slot_at t.slots h = same h λ e. n (omega arith) in
      let e' : suc h - 1 ≡ h = omega arith in rw (e', e) refl

  -- A handle that `engine_init` gives is in range, was not in use, stands for the new engine from
  -- then on, and no other handle is touched: for a table of 64 slots.
  pub engine_init-get_engine :
      (st : State) (t : Table State) (h : ℕ)
      → length t.slots ≡ max_engines
      → (engine_init (some st) t).0 ≡ handle h
      → (0 < h)
        × (h ≤ max_engines)
        × (get_engine t h ≡ none)
        × (get_engine (engine_init (some st) t).1 h ≡ some st)
        × ((h' : ℕ) → h' ≢ h → get_engine (engine_init (some st) t).1 h' ≡ get_engine t h')
  unfolding engine_init
  engine_init-get_engine st t h sized e =
      let t' = (engine_init (some st) t).1 in
      let (k, at, c) = claim_slot-Claimed st t.slots 0 h e in
      let at' : h ≡ k + 1 = omega arith in
      let fits : k < max_engines = omega (arith, c.inside) in
      rw at' (
        omega arith,
        omega arith,
        get_engine_slot t k fits ∙ c.was_free,
        get_engine_slot t' k fits ∙ c.holds,
        get_engine_same t t' k c.keeps,
      )

  release_slot : (i : ℕ) (slots : List (Option State)) → slot_at (release i slots) i ≡ none
  unfolding release slot_at
  release_slot i [] = refl
  release_slot zero (slot ∷ slots) = refl
  release_slot (suc i) (slot ∷ slots) = release_slot i slots

  release_keeps :
      (i : ℕ) (slots : List (Option State)) (j : ℕ)
      → j ≢ i
      → slot_at (release i slots) j ≡ slot_at slots j
  unfolding release slot_at
  release_keeps i [] j n = refl
  release_keeps zero (slot ∷ slots) zero n = absurd (n refl)
  release_keeps zero (slot ∷ slots) (suc j) n = refl
  release_keeps (suc i) (slot ∷ slots) zero n = refl
  release_keeps (suc i) (slot ∷ slots) (suc j) n =
      release_keeps i slots j λ e. n (ap (λ m. suc m) e)

  released_dead :
      (h : ℕ) (t : Table State) → get_engine (after_release (release (h - 1) t.slots) t) h ≡ none
  unfolding get_engine after_release
  released_dead h t = ground (arith, release_slot (h - 1) t.slots)

  live_handle : (h : ℕ) (t : Table State) {st : State} → get_engine t h ≡ some st → h - 1 + 1 ≡ h
  unfolding get_engine
  live_handle zero t e = ground arith
  live_handle (suc h) t e = omega arith

  released_keeps :
      (h : ℕ) (t : Table State)
      → h - 1 + 1 ≡ h
      → (h' : ℕ) → h' ≢ h
      → get_engine (after_release (release (h - 1) t.slots) t) h' ≡ get_engine t h'
  unfolding after_release
  released_keeps h t e h' n =
      get_engine_same t (after_release (release (h - 1) t.slots) t) (h - 1)
        (release_keeps (h - 1) t.slots) h' λ e'. n (e' ∙ e)

  -- After `engine_destroy` the handle is dead, every other handle stands for what it did, and a
  -- second `engine_destroy` of it changes nothing, whatever number the handle is.
  pub engine_destroy-get_engine :
      (h : ℕ) (t : Table State)
      → (get_engine (engine_destroy h t) h ≡ none)
        × ((h' : ℕ) → h' ≢ h → get_engine (engine_destroy h t) h' ≡ get_engine t h')
        × (engine_destroy h (engine_destroy h t) ≡ engine_destroy h t)
  unfolding engine_destroy
  engine_destroy-get_engine h t = elim (Option-cases (get_engine t h)) [
    | inl dead ↦ rw dead (dead, λ h' n. refl, ap (λ o. destroy_found o h t) dead)
    | inr (st, live) ↦
        let gone = released_dead h t in
        rw live (
          gone,
          released_keeps h t (live_handle h t live),
          ap (λ o. destroy_found o h (after_release (release (h - 1) t.slots) t)) gone,
        )
  ]
