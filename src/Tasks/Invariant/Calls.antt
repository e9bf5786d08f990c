-- ===== src/Tasks/Invariant/Calls.antt =====
-- A send, and a message that is taken, keep what holds of the table in a turn.
use gengo.Prelude.{
  ℕ, ◌≡◌, ◌≢◌, inl, inr, refl, List, [], ◌∷◌, ◌++◌, true, Option, none, some, arith, Bool-cases,
}
use gengo.Tasks.{
  TaskStatus, empty, ready, running, blocked_receive, sleeping, dead, ActorRef, TaskSlot, State,
  put, resolve_same_generation, is_alive, enqueue_ready, wake, deliver_to, send, taken, receive,
}
use gengo.Tasks.Invariant.{IsScheduled, put-IsQueued, enqueue_ready-IsQueued, same_turn}

module _ {V M : Type 0} where
  module _ (idx : ℕ) (message : M) (st : State V M) (alive : is_alive st idx ≡ true)
      (h : IsScheduled st) where
    abbrev posted : TaskSlot V M
    posted = record (st.slots idx) { mailbox = (st.slots idx).mailbox ++ message ∷ [] }

    alive-ne : idx ≢ 0
    unfolding is_alive
    alive-ne e =
        let free : (st.slots idx).status ≡ empty = rw e h.queues.null_slot in
        absurd (cc (rw free at alive))

    -- No wait, no wake: the mailbox of a task that does not wait.
    post-IsScheduled : (st.slots idx).status ≢ blocked_receive → IsScheduled (put idx posted st)
    post-IsScheduled awake =
        same_turn st (put idx posted st) h refl (λ i e. ground arith) (λ e. ground arith)
          (put-IsQueued idx posted st (λ e. e) (λ e. e) (λ e. absurd (awake e))
            (λ e. absurd (alive-ne e)) (h.queues.awake idx) h.queues)

    wake-IsScheduled :
        (s : TaskStatus) → (st.slots idx).status ≡ s → IsScheduled (wake s idx (put idx posted st))
    unfolding enqueue_ready
    wake-IsScheduled blocked_receive e =
        same_turn st (enqueue_ready idx (put idx posted st)) h refl (λ i r. ground arith)
          (λ r. ground arith) (enqueue_ready-IsQueued idx posted st (λ r. cc) alive-ne h.queues)
    wake-IsScheduled empty e = post-IsScheduled (λ r. cc)
    wake-IsScheduled ready e = post-IsScheduled (λ r. cc)
    wake-IsScheduled running e = post-IsScheduled (λ r. cc)
    wake-IsScheduled sleeping e = post-IsScheduled (λ r. cc)
    wake-IsScheduled dead e = post-IsScheduled (λ r. cc)

  deliver_to-IsScheduled :
      (to : Option ℕ) (clone : Option M) (st : State V M)
      → IsScheduled st
      → IsScheduled (deliver_to to clone st).0
  deliver_to-IsScheduled none clone st h = h
  deliver_to-IsScheduled (some idx) none st h = h
  deliver_to-IsScheduled (some idx) (some message) st h = elim (Bool-cases (is_alive st idx)) [
    | inl alive ↦ rw alive (wake-IsScheduled idx message st alive h (st.slots idx).status refl)
    | inr gone ↦ rw gone h
  ]

  pub send-IsScheduled :
      (target : ActorRef) (clone : Option M) (st : State V M)
      → IsScheduled st
      → IsScheduled (send target clone st).0
  unfolding send
  send-IsScheduled target clone st h =
      deliver_to-IsScheduled (resolve_same_generation st target) clone st h

  pub current-ne : (st : State V M) → IsScheduled st → st.current ≢ 0
  current-ne st h e =
      let unused : (st.slots st.current).status ≡ empty = rw e h.queues.null_slot in cc h.turn

  taken-IsScheduled :
      (mailbox : List M) (st : State V M) (message : M)
      → (taken mailbox st).1 ≡ some message
      → IsScheduled st
      → IsScheduled (taken mailbox st).0
  taken-IsScheduled [] st message took h = absurd (cc)
  taken-IsScheduled (first ∷ further) st message took h =
      let slot = record (st.slots st.current) { mailbox = further } in
      same_turn st (put st.current slot st) h refl (λ i e. ground arith) (λ e. ground arith)
        (put-IsQueued st.current slot st (λ e. e) (λ e. e) (λ e. absurd (cc h.turn))
          (λ e. absurd (current-ne st h e)) (h.queues.awake st.current) h.queues)

  pub receive-IsScheduled :
      (st : State V M) (message : M)
      → (receive st).1 ≡ some message
      → IsScheduled st
      → IsScheduled (receive st).0
  unfolding receive
  receive-IsScheduled st message took h =
      taken-IsScheduled (st.slots st.current).mailbox st message took h
