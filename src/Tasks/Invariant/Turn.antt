-- ===== src/Tasks/Invariant/Turn.antt =====
-- The end of a turn, and the next one.
use mathlib.Core.Path.{subst}
use gengo.Prelude.{
  ==_iff, ℕ, ◌≡◌, ◌≢◌, inl, inr, refl, sym, List, [], ◌∷◌, none, some, ◌==◌, arith, Bool-cases,
}
use gengo.Tasks.{
  TaskStatus, empty, ready, running, blocked_receive, sleeping, dead, State, set_status, taken,
  receive, turn_of, next_turn,
}
use gengo.Tasks.Invariant.{Queued, NoRepeats, IsScheduled, IsBetween, put-IsQueued}
use gengo.Tasks.Invariant.Calls.{current-ne}

module _ {V M : Type 0} where
  -- The current task stops, and nothing is left that runs.
  stop-IsBetween :
      (s : TaskStatus) (st : State V M)
      → s ≢ ready
      → s ≢ running
      → s ≢ sleeping
      → (s ≡ blocked_receive → (st.slots st.current).mailbox ≡ [])
      → IsScheduled st
      → IsBetween (set_status st.current s st)
  stop-IsBetween s st not_ready stopped up waits h = record {
    queues =
        put-IsQueued st.current (record (st.slots st.current) { status = s }) st
          (λ e. absurd (cc h.turn)) (λ e. absurd (not_ready e)) waits
          (λ e. absurd (current-ne st h e)) up h.queues;
    none_runs = λ i e. ground (arith, h.one_runs i, ==_iff i st.current);
  }

  taken-IsBetween :
      (mailbox : List M) (st : State V M)
      → (st.slots st.current).mailbox ≡ mailbox
      → (taken mailbox st).1 ≡ none
      → IsScheduled st
      → IsBetween (taken mailbox st).0
  taken-IsBetween [] st e waits h =
      stop-IsBetween blocked_receive st (λ r. cc) (λ r. cc) (λ r. cc) (λ r. e) h
  taken-IsBetween (first ∷ further) st e waits h = absurd (cc)

  -- A task that waits, or that is dead, ends its turn.
  pub receive-IsBetween :
      (st : State V M) → (receive st).1 ≡ none → IsScheduled st → IsBetween (receive st).0
  unfolding receive
  receive-IsBetween st waits h = taken-IsBetween (st.slots st.current).mailbox st refl waits h

  pub dead-IsBetween : (st : State V M) → IsScheduled st → IsBetween (set_status st.current dead st)
  dead-IsBetween st h = stop-IsBetween dead st (λ r. cc) (λ r. cc) (λ r. cc) (λ r. absurd (cc)) h

  module _ (idx : ℕ) (queue : List ℕ) (st : State V M) (same : st.ready_queue ≡ idx ∷ queue)
      (h : IsBetween st) where
    in_queue : (i : ℕ) → Queued i (idx ∷ queue) → (st.slots i).status ≡ ready
    in_queue i m = h.queues.queue_ready i (subst (λ (l : List ℕ). Queued i l) (sym same) m)

    ready_in : (i : ℕ) → (st.slots i).status ≡ ready → Queued i (idx ∷ queue)
    ready_in i e = subst (λ (l : List ℕ). Queued i l) same (h.queues.ready_queued i e)

    still_once : NoRepeats (idx ∷ queue)
    still_once = subst NoRepeats same h.queues.once

    not_again : (i : ℕ) → Queued i queue → i ≢ idx
    not_again i m e = still_once.0 (subst (λ (k : ℕ). Queued k queue) e m)

    left_in : (i : ℕ) → i ≢ idx → Queued i (idx ∷ queue) → Queued i queue
    left_in i ne (inl e) = absurd (ne e)
    left_in i ne (inr m) = m

    turn-ne : idx ≢ 0
    turn-ne e =
        let waits = in_queue idx (inl refl) in
        let unused : (st.slots idx).status ≡ empty = rw e h.queues.null_slot in cc waits

    turn-IsScheduled :
        IsScheduled (set_status idx running (record st { ready_queue = queue; current = idx }))
    turn-IsScheduled = record {
      queues = record {
        queue_ready = λ i m. ground (arith, in_queue i (inr m), not_again i m, ==_iff i idx);
        ready_queued = λ i e. elim (Bool-cases (i == idx)) [
          | inl this ↦ absurd (ground arith)
          | inr other ↦ left_in i (ground arith) (ready_in i (ground arith))
        ];
        once = still_once.1;
        waits_empty = λ i e. ground (arith, h.queues.waits_empty i);
        null_slot = ground (arith, h.queues.null_slot, turn-ne);
        awake = λ i e. ground (arith, h.queues.awake i);
      };
      turn = ground arith;
      one_runs = λ i e. ground (arith, h.none_runs i);
    }

  turn_of-IsScheduled :
      (queue : List ℕ) (st out : State V M)
      → st.ready_queue ≡ queue
      → IsBetween st
      → turn_of queue st ≡ some out
      → IsScheduled out
  turn_of-IsScheduled [] st out same h e = absurd (cc)
  turn_of-IsScheduled (idx ∷ queue) st out same h e =
      let is_out : set_status idx running (record st { ready_queue = queue; current = idx }) ≡ out =
        cc in
      subst IsScheduled is_out (turn-IsScheduled idx queue st same h)

  pub next_turn-IsScheduled :
      (st out : State V M) → IsBetween st → next_turn st ≡ some out → IsScheduled out
  unfolding next_turn
  next_turn-IsScheduled st out h e = turn_of-IsScheduled st.ready_queue st out refl h e
