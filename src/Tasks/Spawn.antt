-- ===== src/Tasks/Spawn.antt =====
-- What a spawn does to the table.
use mathlib.Core.Path.{subst}
use gengo.Prelude.{
  ==_iff, ℕ, zero, suc, ◌+◌, ◌≤◌, ◌<◌, ◌≡◌, ◌≢◌, inl, inr, refl, Bool, true, false, Option, none,
  some, arith, Bool-cases,
}
use gengo.Tasks.{
  TaskStatus, empty, ready, running, blocked_receive, sleeping, dead, TaskSlot, State, entry_failed,
  put, is_free, clear, recycled, claimed, first_free, claim_at, claim_slot, enqueue_ready,
  start_claimed, spawn_task,
}
use gengo.Tasks.Invariant.{Queued, IsScheduled, put-IsQueued, enqueue_ready-IsQueued, same_turn}

module _ {V M : Type 0} where
  abbrev pub IsLeaked : ℕ → State V M → Type 0
  IsLeaked idx st = ((st.slots idx).status ≡ ready) × (Queued idx st.ready_queue → ⊥)

  -- The search gives a free slot from where it starts on.
  pub first_free-is_free :
      (left idx : ℕ) (slots : ℕ → TaskSlot V M) (found : ℕ)
      → first_free left idx slots ≡ some found
      → (is_free (slots found).status ≡ true) × (idx ≤ found) × (found < idx + left)
  unfolding first_free
  first_free-is_free zero idx slots found h = absurd (cc)
  first_free-is_free (suc left) idx slots found h = elim (Bool-cases (is_free (slots idx).status)) [
    | inl free ↦
        let this : idx ≡ found = cc (rw free at h) in
        (subst (λ (k : ℕ). is_free (slots k).status ≡ true) this free, omega arith, omega arith)
    | inr taken ↦
        let (free, low, high) = first_free-is_free left (idx + 1) slots found (rw taken at h) in
        (free, omega arith, omega arith)
  ]

  recycled-empty :
      (s : TaskStatus) (slot : TaskSlot V M)
      → slot.status ≡ s
      → is_free s ≡ true
      → (recycled s slot).status ≡ empty
  unfolding clear
  recycled-empty dead slot e free = refl
  recycled-empty empty slot e free = e
  recycled-empty ready slot e free = absurd (cc)
  recycled-empty running slot e free = absurd (cc)
  recycled-empty blocked_receive slot e free = absurd (cc)
  recycled-empty sleeping slot e free = absurd (cc)

  module _ (idx : ℕ) (st : State V M) (free : is_free (st.slots idx).status ≡ true) (pos : idx ≢ 0)
      (h : IsScheduled st) where
    free-not_ready : (st.slots idx).status ≢ ready
    free-not_ready e = absurd (cc (rw e at free))

    free-not_running : (st.slots idx).status ≢ running
    free-not_running e = absurd (cc (rw e at free))

    -- Without memory the slot stays free.
    refused-IsScheduled : IsScheduled (put idx (claimed (st.slots idx) none) st)
    unfolding claimed
    refused-IsScheduled =
        let slot = claimed (st.slots idx) none in
        let is_empty : slot.status ≡ empty =
          recycled-empty (st.slots idx).status (st.slots idx) refl free in
        same_turn st (put idx slot st) h refl (λ i e. ground (arith, is_empty))
          (λ e. ground (arith, free-not_running, ==_iff st.current idx))
          (put-IsQueued idx slot st (λ e. absurd (free-not_ready e)) (λ e. absurd (cc is_empty))
            (λ e. absurd (cc is_empty)) (λ e. is_empty) (λ e. cc is_empty) h.queues)

    spawned-IsScheduled :
        (vs : V) → IsScheduled (enqueue_ready idx (put idx (claimed (st.slots idx) (some vs)) st))
    unfolding claimed enqueue_ready
    spawned-IsScheduled vs =
        let slot = claimed (st.slots idx) (some vs) in
        same_turn st (enqueue_ready idx (put idx slot st)) h refl (λ i e. ground arith)
          (λ e. ground (arith, free-not_running, ==_iff st.current idx))
          (enqueue_ready-IsQueued idx slot st free-not_ready pos h.queues)

    -- A claimed slot whose task never starts is ready and stands in no queue.
    leaked : (vs : V) → IsLeaked idx (put idx (claimed (st.slots idx) (some vs)) st)
    unfolding claimed
    leaked vs = (ground arith, λ m. free-not_ready (h.queues.queue_ready idx m))

  spawn_at-IsScheduled :
      (found : Option ℕ) (fresh : Option V) (entered : Bool) (st : State V M)
      → first_free 63 1 st.slots ≡ found
      → (start_claimed (claim_at found fresh st) entered).1 ≢ some entry_failed
      → IsScheduled st
      → IsScheduled (start_claimed (claim_at found fresh st) entered).0
  unfolding claim_at
  spawn_at-IsScheduled none fresh entered st e good h = h
  spawn_at-IsScheduled (some idx) none entered st e good h =
      let (free, low, high) = first_free-is_free 63 1 st.slots idx e in
      refused-IsScheduled idx st free (omega arith) h
  spawn_at-IsScheduled (some idx) (some vs) true st e good h =
      let (free, low, high) = first_free-is_free 63 1 st.slots idx e in
      spawned-IsScheduled idx st free (omega arith) h vs
  spawn_at-IsScheduled (some idx) (some vs) false st e good h = absurd (good refl)

  pub spawn_task-IsScheduled :
      (is_function sendable : Bool) (fresh : Option V) (entered : Bool) (st : State V M)
      → (spawn_task is_function sendable fresh entered st).1 ≢ some entry_failed
      → IsScheduled st
      → IsScheduled (spawn_task is_function sendable fresh entered st).0
  unfolding spawn_task claim_slot
  spawn_task-IsScheduled false sendable fresh entered st good h = h
  spawn_task-IsScheduled true false fresh entered st good h = h
  spawn_task-IsScheduled true true fresh entered st good h =
      spawn_at-IsScheduled (first_free 63 1 st.slots) fresh entered st refl good h

  spawn_at-leaks :
      (found : Option ℕ) (fresh : Option V) (entered : Bool) (st : State V M)
      → first_free 63 1 st.slots ≡ found
      → (start_claimed (claim_at found fresh st) entered).1 ≡ some entry_failed
      → IsScheduled st
      → (idx : ℕ) × IsLeaked idx (start_claimed (claim_at found fresh st) entered).0
  unfolding claim_at
  spawn_at-leaks none fresh entered st e bad h = absurd (cc)
  spawn_at-leaks (some idx) none entered st e bad h = absurd (cc)
  spawn_at-leaks (some idx) (some vs) true st e bad h = absurd (cc)
  spawn_at-leaks (some idx) (some vs) false st e bad h =
      let (free, low, high) = first_free-is_free 63 1 st.slots idx e in
      (idx, leaked idx st free (omega arith) h vs)

  -- In a turn of a table that is sound (IsScheduled), a spawn whose frame cannot be entered leaves a slot that is
  -- ready and stands in no queue.
  pub spawn_task_leaks :
      (is_function sendable : Bool) (fresh : Option V) (entered : Bool) (st : State V M)
      → (spawn_task is_function sendable fresh entered st).1 ≡ some entry_failed
      → IsScheduled st
      → (idx : ℕ) × IsLeaked idx (spawn_task is_function sendable fresh entered st).0
  unfolding spawn_task claim_slot
  spawn_task_leaks false sendable fresh entered st bad h = absurd (cc)
  spawn_task_leaks true false fresh entered st bad h = absurd (cc)
  spawn_task_leaks true true fresh entered st bad h =
      spawn_at-leaks (first_free 63 1 st.slots) fresh entered st refl bad h
