-- ===== src/Tasks/Invariant.antt =====
-- What holds of the table while a task has its turn, and that every call keeps it.
pub mod Calls
pub mod Turn
use mathlib.Core.Path.{subst}
use gengo.Prelude.{
  ==_iff, ℕ, zero, suc, ◌+◌, ◌≤◌, ◌<◌, ◌≡◌, ◌≢◌, ◌⊎◌, inl, inr, refl, sym, ◌∙◌, List, [], ◌∷◌, ◌++◌,
  Bool, true, false, ◌||◌, Option, none, some, ◌==◌, leb, arith, Bool-cases, if◌then◌else◌,
  get_elem?, length,
}
use gengo.Tasks.{
  max_tasks, TaskStatus, empty, ready, running, blocked_receive, sleeping, dead, ActorRef, TaskSlot,
  State, Fault, put, set_status, is_free, recycled, claimed, first_free, Claim, got, failed,
  claim_at, claim_slot, claim_main_slot, resolve_same_generation, is_alive, enqueue_ready, wake,
  deliver, deliver_to, send, start_claimed, spawn_task, taken, receive, turn_of, next_turn, finish,
  start,
}

-- An index stands in the queue.
abbrev pub Queued : ℕ → List ℕ → Type 0
Queued idx [] = ⊥
Queued idx (i ∷ queue) = (idx ≡ i) ⊎ Queued idx queue

abbrev pub NoRepeats : List ℕ → Type 0
NoRepeats [] = Unit
NoRepeats (i ∷ queue) = (Queued i queue → ⊥) × NoRepeats queue

Queued-snoc :
    (idx new : ℕ) (queue : List ℕ) → Queued idx (queue ++ new ∷ []) → (idx ≡ new) ⊎ Queued idx queue
Queued-snoc idx new [] (inl e) = inl e
Queued-snoc idx new [] (inr q) = elim q [ ]
Queued-snoc idx new (i ∷ queue) (inl e) = inr (inl e)
Queued-snoc idx new (i ∷ queue) (inr q) = elim (Queued-snoc idx new queue q) [
  | inl e ↦ inl e
  | inr old ↦ inr (inr old)
]

Queued-keep : (idx new : ℕ) (queue : List ℕ) → Queued idx queue → Queued idx (queue ++ new ∷ [])
Queued-keep idx new [] q = elim q [ ]
Queued-keep idx new (i ∷ queue) (inl e) = inl e
Queued-keep idx new (i ∷ queue) (inr q) = inr (Queued-keep idx new queue q)

Queued-new : (new : ℕ) (queue : List ℕ) → Queued new (queue ++ new ∷ [])
Queued-new new [] = inl refl
Queued-new new (i ∷ queue) = inr (Queued-new new queue)

NoRepeats-snoc :
    (new : ℕ) (queue : List ℕ)
    → (Queued new queue → ⊥)
    → NoRepeats queue
    → NoRepeats (queue ++ new ∷ [])
NoRepeats-snoc new [] fresh h = ((λ q. q), tt)
NoRepeats-snoc new (i ∷ queue) fresh h = (
  λ q. elim (Queued-snoc i new queue q) [ inl e ↦ fresh (inl (sym e)) | inr old ↦ h.0 old ],
  NoRepeats-snoc new queue (λ q. fresh (inr q)) h.1,
)

module _ {V M : Type 0} where
  -- Exactly the ready tasks stand in the queue, each once; a task that waits for a message has none; and slot 0 is
  -- never used.
  pub record IsQueued (st : State V M) : Type 0 where
    pub queue_ready : (i : ℕ) → Queued i st.ready_queue → (st.slots i).status ≡ ready
    pub ready_queued : (i : ℕ) → (st.slots i).status ≡ ready → Queued i st.ready_queue
    pub once : NoRepeats st.ready_queue
    pub waits_empty : (i : ℕ) → (st.slots i).status ≡ blocked_receive → (st.slots i).mailbox ≡ []
    pub null_slot : (st.slots 0).status ≡ empty
    pub awake : (i : ℕ) → (st.slots i).status ≢ sleeping

  -- In a turn the current task runs, and no other.
  pub record IsScheduled (st : State V M) : Type 0 where
    pub queues : IsQueued st
    pub turn : (st.slots st.current).status ≡ running
    pub one_runs : (i : ℕ) → (st.slots i).status ≡ running → i ≡ st.current

  -- Between two turns nothing runs.
  pub record IsBetween (st : State V M) : Type 0 where
    pub queues : IsQueued st
    pub none_runs : (i : ℕ) → (st.slots i).status ≢ running

  -- A slot that changes and stays ready or not ready.
  pub put-IsQueued :
      (idx : ℕ) (slot : TaskSlot V M) (st : State V M)
      → ((st.slots idx).status ≡ ready → slot.status ≡ ready)
      → (slot.status ≡ ready → (st.slots idx).status ≡ ready)
      → (slot.status ≡ blocked_receive → slot.mailbox ≡ [])
      → (idx ≡ 0 → slot.status ≡ empty)
      → slot.status ≢ sleeping
      → IsQueued st
      → IsQueued (put idx slot st)
  put-IsQueued idx slot st stays was waits null up q = record {
    queue_ready = λ i m. ground (arith, q.queue_ready i, ==_iff i idx);
    ready_queued = λ i e. ground (arith, q.ready_queued i);
    once = q.once;
    waits_empty = λ i e. ground (arith, q.waits_empty i);
    null_slot = ground (arith, q.null_slot);
    awake = λ i e. ground (arith, q.awake i);
  }

  -- A task that was not ready is put in the queue.
  pub enqueue_ready-IsQueued :
      (idx : ℕ) (slot : TaskSlot V M) (st : State V M)
      → (st.slots idx).status ≢ ready
      → idx ≢ 0
      → IsQueued st
      → IsQueued (enqueue_ready idx (put idx slot st))
  unfolding enqueue_ready
  enqueue_ready-IsQueued idx slot st new pos q = record {
    queue_ready = λ i m. ground (arith, q.queue_ready i, Queued-snoc i idx st.ready_queue m);
    ready_queued = λ i e.
        ground (
          arith,
          q.ready_queued i,
          Queued-keep i idx st.ready_queue,
          Queued-new idx st.ready_queue,
        );
    once = NoRepeats-snoc idx st.ready_queue (λ m. new (q.queue_ready idx m)) q.once;
    waits_empty = λ i e. ground (arith, q.waits_empty i);
    null_slot = ground (arith, q.null_slot);
    awake = λ i e. ground (arith, q.awake i);
  }

  -- The same tasks run as before.
  pub same_turn :
      (st out : State V M)
      → IsScheduled st
      → out.current ≡ st.current
      → ((i : ℕ) → (out.slots i).status ≡ running → (st.slots i).status ≡ running)
      → ((st.slots st.current).status ≡ running → (out.slots st.current).status ≡ running)
      → IsQueued out
      → IsScheduled out
  same_turn st out h same was stays q = record {
    queues = q;
    turn = rw same (stays h.turn);
    one_runs = λ i e. h.one_runs i (was i e) ∙ sym same;
  }
