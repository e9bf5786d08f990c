-- ===== src/Bytecode/Walk/Closed.antt =====
-- A walk that finds nothing wrong ends with a table of depths that is closed: whatever is entered was visited,
-- and what a visit appends was entered too, or stands at no instruction.
use mathlib.Core.Path.{subst}
use native.Mathlib.Decide.{ℕ_discrete}
use gengo.Prelude.{
  ℕ, ◌≤◌, ◌<◌, ◌≡◌, ◌⊎◌, inl, inr, refl, sym, ◌∙◌, List, [], ◌∷◌, ◌++◌, Bool, true, false, Option,
  none, some, arith, length, length-replicate, replicate,
}
use gengo.Prelude.Updates.{set_elem, length-set_elem}
use gengo.Bytecode.Checked.{ok}
use gengo.Bytecode.Decoder.{Code}
use gengo.Bytecode.Walk.{
  WorkItem, work_item, Visit, Entry, visit, depth_at, is_new, larger, walk_fuel, run,
}
use gengo.Bytecode.Walk.Paths.{
  In, In-one, In-append, In-append_left, In-append_right, Reach, start, then_step, visit-Visited,
  Visited-Step,
}
use gengo.Bytecode.Walk.Rounds.{Walks, ends, skips, enters, walk-Walks}
use gengo.Bytecode.Walk.Depths.{
  depth_at_empty, depth_at_here, depth_at_there, is_new_still, is_new_entered, is_new-lt,
}

module _ (s : Code) (starts : List Bool) (e : Entry) where
  -- An entered address, with what is left to do for it.
  abbrev Done : List WorkItem → List (Option ℕ) → ℕ → WorkItem → Type 0
  Done work depths bound at =
      (v : Visit) × (visit s e at ≡ ok v)
      × (v.new_depth ≤ bound)
      × ((w : WorkItem) → In w v.work → In w work ⊎ (is_new s starts depths w.ip ≡ false))

  record Pending (from : WorkItem) (work : List WorkItem) (depths : List (Option ℕ)) (bound : ℕ)
      : Type 0 where
    pub sized : length depths ≡ s.code_len
    pub entered : (ip d : ℕ) → depth_at depths ip ≡ some d → Done work depths bound (work_item ip d)
    pub reached : (ip d : ℕ) → depth_at depths ip ≡ some d → Reach s from (work_item ip d)
    pub reached_work : (w : WorkItem) → In w work → Reach s from w

  -- What a walk that finds nothing wrong leaves.
  pub record Closed (from : WorkItem) (depths : List (Option ℕ)) (bound : ℕ) : Type 0 where
    pub entered :
        (ip d : ℕ)
        → depth_at depths ip ≡ some d
        → (v : Visit) × (visit s e (work_item ip d) ≡ ok v)
          × (v.new_depth ≤ bound)
          × ((w : WorkItem) → In w v.work → is_new s starts depths w.ip ≡ false)
    pub reached : (ip d : ℕ) → depth_at depths ip ≡ some d → Reach s from (work_item ip d)

  skip-Pending :
      (from at : WorkItem) (rest : List WorkItem) (depths : List (Option ℕ)) (bound : ℕ)
      → is_new s starts depths at.ip ≡ false
      → Pending from (at ∷ rest) depths bound
      → Pending from rest depths bound
  skip-Pending from at rest depths bound old p = record {
    sized = p.sized;
    entered = λ ip d e.
        let (v, visited, low, todo) = p.entered ip d e in
        (v, visited, low, λ w m. skipped w (todo w m));
    reached = p.reached;
    reached_work = λ w m. p.reached_work w (inr m);
  }
    where
      skipped :
          (w : WorkItem)
          → In w (at ∷ rest) ⊎ (is_new s starts depths w.ip ≡ false)
          → In w rest ⊎ (is_new s starts depths w.ip ≡ false)
      skipped w (inl (inl same)) =
          inr (subst (λ (k : WorkItem). is_new s starts depths k.ip ≡ false) (sym same) old)
      skipped w (inl (inr m)) = inl m
      skipped w (inr seen) = inr seen

  module _ (from at : WorkItem) (rest : List WorkItem) (depths : List (Option ℕ)) (bound : ℕ)
      (v : Visit) (new : is_new s starts depths at.ip ≡ true) (visited : visit s e at ≡ ok v)
      (p : Pending from (at ∷ rest) depths bound) where
    inside : at.ip < length depths
    inside = omega (arith, p.sized, is_new-lt s starts depths at.ip at.ip 0 new)

    -- The entry of an address in the new table is the new one or an old one.
    entry_cases :
        (ip d : ℕ)
        → depth_at (set_elem depths at.ip (some at.depth)) ip ≡ some d
        → (at ≡ work_item ip d) ⊎ (depth_at depths ip ≡ some d)
    entry_cases ip d h = elim (ℕ_discrete at.ip ip) [
      | yes q ↦
          let here : depth_at (set_elem depths at.ip (some at.depth)) ip ≡ some at.depth =
            subst (λ (k : ℕ). depth_at (set_elem depths at.ip (some at.depth)) k ≡ some at.depth) q
              (depth_at_here depths at.ip at.depth inside) in
          let same : at.depth ≡ d = cc in inl (λ i. work_item (q i) (same i))
      | no ne ↦ inr (sym (depth_at_there depths at.ip ip at.depth ne) ∙ h)
    ]

    still_todo :
        (w : WorkItem)
        → In w (at ∷ rest) ⊎ (is_new s starts depths w.ip ≡ false)
        → In w (rest ++ v.work)
          ⊎ (is_new s starts (set_elem depths at.ip (some at.depth)) w.ip ≡ false)
    still_todo w (inl (inl same)) = inr (
        subst
          (λ (k : WorkItem). is_new s starts (set_elem depths at.ip (some at.depth)) k.ip ≡ false)
          (sym same) (is_new_entered s starts depths at.ip at.ip at.depth inside))
    still_todo w (inl (inr m)) = inl (In-append_left w rest v.work m)
    still_todo w (inr seen) = inr (is_new_still s starts depths at.ip w.ip at.depth seen)

    done_at :
        Done (rest ++ v.work) (set_elem depths at.ip (some at.depth)) (larger bound v.new_depth) at
    done_at = (v, visited, ground arith, λ w m. inl (In-append_right w rest v.work m))

    entered_all :
        (ip d : ℕ)
        → (at ≡ work_item ip d) ⊎ (depth_at depths ip ≡ some d)
        → Done
            (rest ++ v.work)
            (set_elem depths at.ip (some at.depth))
            (larger bound v.new_depth)
            (work_item ip d)
    entered_all ip d (inl same) =
        subst
          (λ (k : WorkItem).
            Done (rest ++ v.work) (set_elem depths at.ip (some at.depth)) (larger bound v.new_depth)
              k)
          same done_at
    entered_all ip d (inr old) =
        let (u, was, low, todo) = p.entered ip d old in
        (u, was, ground arith, λ w m. still_todo w (todo w m))

    reached_all :
        (ip d : ℕ)
        → (at ≡ work_item ip d) ⊎ (depth_at depths ip ≡ some d)
        → Reach s from (work_item ip d)
    reached_all ip d (inl same) =
        subst (λ (k : WorkItem). Reach s from k) same (p.reached_work at (inl refl))
    reached_all ip d (inr old) = p.reached ip d old

    reached_next : (w : WorkItem) → In w rest ⊎ In w v.work → Reach s from w
    reached_next w (inl m) = p.reached_work w (inr m)
    reached_next w (inr m) =
        then_step (p.reached_work at (inl refl))
          (Visited-Step s e at w v (visit-Visited s e at v visited) m)

    enter-Pending :
        Pending from
          (rest ++ v.work)
          (set_elem depths at.ip (some at.depth))
          (larger bound v.new_depth)
    enter-Pending = record {
      sized = length-set_elem depths at.ip (some at.depth) ∙ p.sized;
      entered = λ ip d h. entered_all ip d (entry_cases ip d h);
      reached = λ ip d h. reached_all ip d (entry_cases ip d h);
      reached_work = λ w m. reached_next w (In-append w rest v.work m);
    }

  -- The table at the end, and that it holds whatever was to be visited or stood in the table before.
  abbrev Ends : WorkItem → List WorkItem → List (Option ℕ) → ℕ → Type 0
  Ends from work depths result =
      (final : List (Option ℕ)) × Closed from final result
      × ((w : WorkItem) → In w work → is_new s starts final w.ip ≡ false)
      × ((j : ℕ) → is_new s starts depths j ≡ false → is_new s starts final j ≡ false)

  seen_first :
      (final : List (Option ℕ)) (at : WorkItem) (rest : List WorkItem)
      → is_new s starts final at.ip ≡ false
      → ((w : WorkItem) → In w rest → is_new s starts final w.ip ≡ false)
      → (w : WorkItem) → In w (at ∷ rest)
      → is_new s starts final w.ip ≡ false
  seen_first final at rest old seen w (inl same) =
      subst (λ (k : WorkItem). is_new s starts final k.ip ≡ false) (sym same) old
  seen_first final at rest old seen w (inr m) = seen w m

  end_Closed :
      (from : WorkItem) (depths : List (Option ℕ)) (max result : ℕ)
      → max ≡ result
      → Pending from [] depths max
      → Closed from depths result
  end_Closed from depths max result same p = record {
    entered = λ ip d h.
        let (v, visited, low, todo) = p.entered ip d h in
        (v, visited, omega arith, λ w m. nothing_left w (todo w m));
    reached = p.reached;
  }
    where
      nothing_left :
          (w : WorkItem)
          → ⊥ ⊎ (is_new s starts depths w.ip ≡ false)
          → is_new s starts depths w.ip ≡ false
      nothing_left w (inl none_left) = elim none_left [ ]
      nothing_left w (inr seen) = seen

  Walks-Closed :
      (from : WorkItem) {work : List WorkItem} {depths : List (Option ℕ)} {max result : ℕ}
      → Walks s starts e work depths max result
      → Pending from work depths max
      → Ends from work depths result
  Walks-Closed from (ends {depths} {max} {result} same) p =
      (depths, end_Closed from depths max result same p, (λ w m. elim m [ ]), λ j h. h)
  Walks-Closed from (skips {at} {rest} {depths} {max} old r) p =
      let (final, closed, seen, kept) =
        Walks-Closed from r (skip-Pending from at rest depths max old p) in
      (final, closed, seen_first final at rest (kept at.ip old) seen, kept)
  Walks-Closed from (enters {at} {rest} {depths} {max} v new visited r) p =
      let (final, closed, seen, kept) =
        Walks-Closed from r (enter-Pending from at rest depths max v new visited p) in
      let lt = inside from at rest depths max v new visited p in
      (
        final,
        closed,
        seen_first final at rest
            (kept at.ip (is_new_entered s starts depths at.ip at.ip at.depth lt))
            (λ w m. seen w (In-append_left w rest v.work m)),
        λ j h. kept j (is_new_still s starts depths at.ip j at.depth h),
      )

  -- A run that finds nothing wrong has entered the entry and all that is appended from there.
  pub run-Closed :
      (result : ℕ)
      → run s starts e ≡ ok result
      → (final : List (Option ℕ)) × Closed (work_item e.entry_ip 0) final result
        × (is_new s starts final e.entry_ip ≡ false)
  unfolding run
  run-Closed result h =
      let first = work_item e.entry_ip 0 in
      let empty = replicate s.code_len none in
      let (final, closed, seen, kept) =
        Walks-Closed first (walk-Walks (walk_fuel s) s starts e (first ∷ []) empty 0 result h)
          record {
            sized = length-replicate s.code_len none;
            entered = λ ip d h. absurd (cc (depth_at_empty s.code_len ip));
            reached = λ ip d h. absurd (cc (depth_at_empty s.code_len ip));
            reached_work =
                λ w m. subst (λ (k : WorkItem). Reach s first k) (sym (In-one w first m)) start;
          } in
      (final, closed, seen first (inl refl))
