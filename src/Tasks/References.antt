-- ===== src/Tasks/References.antt =====
-- References to tasks that are gone: `idFor` and `resolveSameGeneration` over a slot that is claimed anew.
use gengo.Prelude.{
  ==_iff, ℕ, ◌+◌, ◌%◌, ◌^◌, ◌<◌, ◌≡◌, ◌≢◌, inl, inr, refl, false, ◌||◌, Option, none, some, ◌==◌,
  leb, arith, Bool-cases,
}
use gengo.Tasks.{
  max_tasks, ActorRef, State, next_generation, claimed, first_free, got, claim_at, claim_slot, send,
  id_for, resolve_same_generation,
}

next_generation-ne : (g : ℕ) → g < 2 ^ 32 → next_generation g ≢ g
unfolding next_generation
next_generation-ne g lt e = elim (Bool-cases ((g + 1) % 2 ^ 32 == 0)) [
  | inl wraps ↦ ground (arith, ==_iff ((g + 1) % 2 ^ 32) 0)
  | inr fits ↦ ground (arith, ==_iff ((g + 1) % 2 ^ 32) 0)
]

module _ {V M : Type 0} where
  resolve_same_generation-ne :
      (st : State V M) (id : ActorRef)
      → (st.slots id.index).generation ≢ id.generation
      → resolve_same_generation st id ≡ none
  unfolding resolve_same_generation
  resolve_same_generation-ne st id ne =
      elim (Bool-cases (id.index == 0 || leb max_tasks id.index)) [
        | inl outside ↦ rw outside refl
        | inr inside ↦
            let other : ((st.slots id.index).generation == id.generation) ≡ false =
              ground (arith, ==_iff (st.slots id.index).generation id.generation) in
            rw (inside, other) refl
      ]

  claim_at-generation :
      (found : Option ℕ) (fresh : Option V) (st : State V M) (idx : ℕ)
      → (claim_at found fresh st).1 ≡ got idx
      → ((claim_at found fresh st).0.slots idx).generation
        ≡ next_generation (st.slots idx).generation
  unfolding claim_at claimed
  claim_at-generation none fresh st idx h = absurd (cc)
  claim_at-generation (some i) none st idx h = absurd (cc)
  claim_at-generation (some i) (some vs) st idx h =
      let same : i ≡ idx = cc in ground (arith, ==_iff idx i)

  -- Where a slot with a 32-bit generation is claimed, a message to the reference that stood for the slot before
  -- changes nothing and is no error.
  pub send-claim_slot :
      (st : State V M) (fresh : Option V) (idx : ℕ) (clone : Option M)
      → (claim_slot fresh st).1 ≡ got idx
      → (st.slots idx).generation < 2 ^ 32
      → send (id_for st idx) clone (claim_slot fresh st).0 ≡ ((claim_slot fresh st).0, none)
  unfolding claim_slot send id_for
  send-claim_slot st fresh idx clone h lt =
      let out = (claim_slot fresh st).0 in
      let fresh_generation = claim_at-generation (first_free 63 1 st.slots) fresh st idx h in
      let ne : (out.slots idx).generation ≢ (st.slots idx).generation =
        λ e. next_generation-ne (st.slots idx).generation lt (cc) in
      rw (resolve_same_generation-ne out (id_for st idx) ne) refl
