-- ===== src/Tasks/Fair.antt =====
-- Whose turn comes, and what a deadlock means.
use mathlib.Core.Path.{subst}
use gengo.Prelude.{
  ℕ, suc, ◌+◌, ◌≡◌, ◌≢◌, inl, inr, refl, sym, ap, ◌∙◌, Bool, true, false, not, Option, none, some,
  arith, Bool-cases, List, [], ◌++◌, ◌∷◌, append-nil, get_elem?,
}
use gengo.Prelude.Updates.{get_elem?-lt, get_elem?-append}
use gengo.Tasks.{
  TaskStatus, empty, ready, running, blocked_receive, sleeping, dead, State, put, set_status,
  is_free, is_alive, first_free, claim_at, claim_slot, enqueue_ready, wake, deliver_to, send,
  start_claimed, spawn_task, taken, receive, turn_of, next_turn, finish, start,
  resolve_same_generation,
}
use gengo.Tasks.Invariant.{IsBetween, Queued}
use gengo.Tasks.Invariant.Turn.{receive-IsBetween}
use gengo.Tasks.Order.{
  Asks, sends, spawns, takes, Ends, waits, dies, Runs, begin, asks, ends, IsReset,
  scheduler-IsScheduled,
}

pub only_waits :
    (s : TaskStatus)
    → not (is_free s) ≡ true
    → s ≢ ready
    → s ≢ running
    → s ≢ sleeping
    → s ≡ blocked_receive
only_waits empty alive r u w = absurd (cc)
only_waits ready alive r u w = absurd (r refl)
only_waits running alive r u w = absurd (u refl)
only_waits blocked_receive alive r u w = refl
only_waits sleeping alive r u w = absurd (w refl)
only_waits dead alive r u w = absurd (cc)

module _ {V M : Type 0} where
  -- A call appends to the queue at most.
  abbrev Grows : State V M → State V M → Type 0
  Grows st out = (tail : List ℕ) × (out.ready_queue ≡ st.ready_queue ++ tail)

  same-Grows : (st out : State V M) → out.ready_queue ≡ st.ready_queue → Grows st out
  same-Grows st out e = ([], e ∙ sym (append-nil st.ready_queue))

  wake-Grows : (s : TaskStatus) (idx : ℕ) (st : State V M) → Grows st (wake s idx st)
  unfolding enqueue_ready
  wake-Grows blocked_receive idx st = (idx ∷ [], refl)
  wake-Grows empty idx st = same-Grows st st refl
  wake-Grows ready idx st = same-Grows st st refl
  wake-Grows running idx st = same-Grows st st refl
  wake-Grows sleeping idx st = same-Grows st st refl
  wake-Grows dead idx st = same-Grows st st refl

  deliver_to-Grows :
      (to : Option ℕ) (clone : Option M) (st : State V M) → Grows st (deliver_to to clone st).0
  deliver_to-Grows none clone st = same-Grows st st refl
  deliver_to-Grows (some idx) none st = same-Grows st st refl
  deliver_to-Grows (some idx) (some message) st = elim (Bool-cases (is_alive st idx)) [
    | inl alive ↦ rw alive (
        wake-Grows (st.slots idx).status idx
          (put idx (record (st.slots idx) { mailbox = (st.slots idx).mailbox ++ message ∷ [] }) st))
    | inr gone ↦ rw gone (same-Grows st st refl)
  ]

  spawn_at-Grows :
      (found : Option ℕ) (fresh : Option V) (entered : Bool) (st : State V M)
      → Grows st (start_claimed (claim_at found fresh st) entered).0
  unfolding claim_at enqueue_ready
  spawn_at-Grows none fresh entered st = same-Grows st st refl
  spawn_at-Grows (some idx) none entered st = ([], sym (append-nil st.ready_queue))
  spawn_at-Grows (some idx) (some vs) true st = (idx ∷ [], refl)
  spawn_at-Grows (some idx) (some vs) false st = ([], sym (append-nil st.ready_queue))

  taken-queue :
      (mailbox : List M) (st : State V M) → (taken mailbox st).0.ready_queue ≡ st.ready_queue
  taken-queue [] st = refl
  taken-queue (message ∷ further) st = refl

  Asks-Grows : (st out : State V M) → Asks st out → Grows st out
  unfolding send spawn_task claim_slot receive
  Asks-Grows st out (sends target clone) =
      deliver_to-Grows (resolve_same_generation st target) clone st
  Asks-Grows st out (spawns false sendable fresh entered good) = same-Grows st st refl
  Asks-Grows st out (spawns true false fresh entered good) = same-Grows st st refl
  Asks-Grows st out (spawns true true fresh entered good) =
      spawn_at-Grows (first_free 63 1 st.slots) fresh entered st
  Asks-Grows st out (takes message took) =
      same-Grows st (receive st).0 (taken-queue (st.slots st.current).mailbox st)

  -- The end of a turn gives it to the first of the queue.
  turn_of-queue :
      (queue : List ℕ) (st out : State V M)
      → turn_of queue st ≡ some out
      → queue ≡ out.current ∷ out.ready_queue
  turn_of-queue [] st out h = absurd (cc)
  turn_of-queue (idx ∷ queue) st out h =
      let same : set_status idx running (record st { ready_queue = queue; current = idx }) ≡ out =
        cc in
      ap (λ (k : State V M). k.current ∷ k.ready_queue) same

  Ends-queue : (st out : State V M) → Ends st out → st.ready_queue ≡ out.current ∷ out.ready_queue
  unfolding next_turn finish receive
  Ends-queue st out (waits no_message next) =
      sym (taken-queue (st.slots st.current).mailbox st)
      ∙ turn_of-queue (receive st).0.ready_queue (receive st).0 out next
  Ends-queue st out (dies not_main next) =
      turn_of-queue st.ready_queue (set_status st.current dead st) out next

  Runs-queue :
      (from : State V M) {n : ℕ} {to : State V M}
      → Runs from n to
      → (k idx : ℕ) → get_elem? from.ready_queue (n + k) ≡ some idx
      → get_elem? to.ready_queue k ≡ some idx
  Runs-queue from begin k idx h = let e : 0 + k ≡ k = omega arith in rw e at h
  Runs-queue from (asks {st = st} {out} r a) k idx h =
      let before = Runs-queue from r k idx h in
      let (tail, e) = Asks-Grows st out a in
      rw (e, get_elem?-append st.ready_queue tail k (get_elem?-lt st.ready_queue k idx before))
        before
  Runs-queue from (ends {n = n} {st} {out} r e) k idx h =
      let shift : suc n + k ≡ n + suc k = omega arith in
      let before = Runs-queue from r (suc k) idx (rw shift at h) in
      rw (Ends-queue st out e) at before

  -- In a run in which every spawned task enters its frame, the task that stands at place n of the queue has its
  -- turn when n further turns have ended and the next one ends, whatever the tasks ask meanwhile.
  pub Runs-fifo :
      (from st out : State V M) (n idx : ℕ)
      → get_elem? from.ready_queue n ≡ some idx
      → Runs from n st
      → Ends st out
      → out.current ≡ idx
  Runs-fifo from st out n idx h r e =
      let same : n + 0 ≡ n = omega arith in
      let first = Runs-queue from r 0 idx (rw same h) in
      let head = subst (λ (l : List ℕ). get_elem? l 0 ≡ some idx) (Ends-queue st out e) first in cc

  turn_of-none : (queue : List ℕ) (st : State V M) → turn_of queue st ≡ none → queue ≡ []
  turn_of-none [] st h = refl
  turn_of-none (idx ∷ queue) st h = absurd (cc)

  pub nothing_ready :
      (st : State V M) → IsBetween st → next_turn st ≡ none → (i : ℕ) → (st.slots i).status ≢ ready
  unfolding next_turn
  nothing_ready st h none_next i e =
      subst (λ (l : List ℕ). Queued i l) (turn_of-none st.ready_queue st none_next)
        (h.queues.ready_queued i e)

  -- Where, in a run from the start in which every spawned task enters its frame, a task waits for a message and
  -- nothing is ready, which the scheduler reports as a deadlock, every task that is alive waits for a message and
  -- has none.
  pub scheduler_deadlock :
      (vs : V) (st out : State V M) (n i : ℕ)
      → IsReset st
      → Runs (start vs st) n out
      → (receive out).1 ≡ none
      → next_turn (receive out).0 ≡ none
      → is_alive (receive out).0 i ≡ true
      → (((receive out).0.slots i).status ≡ blocked_receive)
        × (((receive out).0.slots i).mailbox ≡ [])
  unfolding is_alive
  scheduler_deadlock vs st out n i reset r waiting none_next alive =
      let between = receive-IsBetween out waiting (scheduler-IsScheduled vs st out n reset r) in
      let blocked =
        only_waits ((receive out).0.slots i).status alive
          (nothing_ready (receive out).0 between none_next i) (between.none_runs i)
          (between.queues.awake i) in
      (blocked, between.queues.waits_empty i blocked)
