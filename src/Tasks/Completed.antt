-- ===== src/Tasks/Completed.antt =====
-- What it means that a spawned task was the last that could run: `break :sched .completed` of the loop.
use gengo.Prelude.{
  ==_iff, ℕ, ◌≡◌, ◌≢◌, inl, inr, refl, sym, Bool, true, false, not, Option, none, some, arith,
  Bool-cases, List, [], ◌++◌, ◌∷◌,
}
use gengo.Tasks.{
  TaskStatus, empty, ready, running, blocked_receive, sleeping, dead, TaskSlot, State, put,
  set_status, is_free, is_alive, claimed, first_free, claim_at, claim_slot, claim_main_slot,
  enqueue_ready, wake, deliver_to, send, start_claimed, spawn_task, taken, receive, turn_of,
  next_turn, finish, start, resolve_same_generation,
}
use gengo.Tasks.Invariant.Turn.{dead-IsBetween}
use gengo.Tasks.Spawn.{first_free-is_free}
use gengo.Tasks.Order.{
  Asks, sends, spawns, takes, Ends, waits, dies, Runs, begin, asks, ends, IsReset,
  scheduler-IsScheduled,
}
use gengo.Tasks.Fair.{only_waits, nothing_ready}

module _ {V M : Type 0} where
  -- The main task is alive.
  abbrev MainLives : State V M → Type 0
  MainLives st = is_free (st.slots 1).status ≡ false

  enqueue_ready-MainLives :
      (idx : ℕ) (st : State V M) → MainLives st → MainLives (enqueue_ready idx st)
  unfolding enqueue_ready
  enqueue_ready-MainLives idx st h = ground arith

  wake-MainLives :
      (s : TaskStatus) (idx : ℕ) (st : State V M) → MainLives st → MainLives (wake s idx st)
  unfolding enqueue_ready
  wake-MainLives blocked_receive idx st h = enqueue_ready-MainLives idx st h
  wake-MainLives empty idx st h = h
  wake-MainLives ready idx st h = h
  wake-MainLives running idx st h = h
  wake-MainLives sleeping idx st h = h
  wake-MainLives dead idx st h = h

  deliver_to-MainLives :
      (to : Option ℕ) (clone : Option M) (st : State V M)
      → MainLives st
      → MainLives (deliver_to to clone st).0
  deliver_to-MainLives none clone st h = h
  deliver_to-MainLives (some idx) none st h = h
  deliver_to-MainLives (some idx) (some message) st h = elim (Bool-cases (is_alive st idx)) [
    | inl alive ↦
        let slot = record (st.slots idx) { mailbox = (st.slots idx).mailbox ++ message ∷ [] } in
        rw alive (
          wake-MainLives (st.slots idx).status idx (put idx slot st) (ground (arith, ==_iff 1 idx)))
    | inr gone ↦ rw gone h
  ]

  -- A free slot is not that of main.
  put_free-MainLives :
      (idx : ℕ) (slot : TaskSlot V M) (st : State V M)
      → is_free (st.slots idx).status ≡ true
      → MainLives st
      → MainLives (put idx slot st)
  put_free-MainLives idx slot st free h = ground (arith, ==_iff 1 idx)

  spawn_at-MainLives :
      (found : Option ℕ) (fresh : Option V) (entered : Bool) (st : State V M)
      → first_free 63 1 st.slots ≡ found
      → MainLives st
      → MainLives (start_claimed (claim_at found fresh st) entered).0
  unfolding claim_at
  spawn_at-MainLives none fresh entered st e h = h
  spawn_at-MainLives (some idx) none entered st e h =
      put_free-MainLives idx (claimed (st.slots idx) none) st
        (first_free-is_free 63 1 st.slots idx e).0 h
  spawn_at-MainLives (some idx) (some vs) true st e h =
      enqueue_ready-MainLives idx (put idx (claimed (st.slots idx) (some vs)) st) (
        put_free-MainLives idx (claimed (st.slots idx) (some vs)) st
          (first_free-is_free 63 1 st.slots idx e).0 h)
  spawn_at-MainLives (some idx) (some vs) false st e h =
      put_free-MainLives idx (claimed (st.slots idx) (some vs)) st
        (first_free-is_free 63 1 st.slots idx e).0 h

  taken-MainLives :
      (mailbox : List M) (st : State V M) → MainLives st → MainLives (taken mailbox st).0
  taken-MainLives [] st h = ground (arith, ==_iff 1 st.current)
  taken-MainLives (message ∷ further) st h = ground (arith, ==_iff 1 st.current)

  Asks-MainLives : (st out : State V M) → Asks st out → MainLives st → MainLives out
  unfolding send spawn_task claim_slot receive
  Asks-MainLives st out (sends target clone) h =
      deliver_to-MainLives (resolve_same_generation st target) clone st h
  Asks-MainLives st out (spawns false sendable fresh entered good) h = h
  Asks-MainLives st out (spawns true false fresh entered good) h = h
  Asks-MainLives st out (spawns true true fresh entered good) h =
      spawn_at-MainLives (first_free 63 1 st.slots) fresh entered st refl h
  Asks-MainLives st out (takes message took) h = taken-MainLives (st.slots st.current).mailbox st h

  turn_of-MainLives :
      (queue : List ℕ) (st out : State V M)
      → turn_of queue st ≡ some out
      → MainLives st
      → MainLives out
  turn_of-MainLives [] st out e h = absurd (cc)
  turn_of-MainLives (idx ∷ queue) st out e h =
      let is_out : set_status idx running (record st { ready_queue = queue; current = idx }) ≡ out =
        cc in
      rw (← is_out) (ground (arith, ==_iff 1 idx))

  dead-MainLives :
      (st : State V M) → st.current ≢ 1 → MainLives st → MainLives (set_status st.current dead st)
  dead-MainLives st ne h = ground (arith, ==_iff 1 st.current)

  Ends-MainLives : (st out : State V M) → Ends st out → MainLives st → MainLives out
  unfolding next_turn finish receive
  Ends-MainLives st out (waits none_left next) h =
      turn_of-MainLives (receive st).0.ready_queue (receive st).0 out next
        (taken-MainLives (st.slots st.current).mailbox st h)
  Ends-MainLives st out (dies not_main next) h =
      turn_of-MainLives st.ready_queue (set_status st.current dead st) out next
        (dead-MainLives st not_main h)

  Runs-MainLives :
      (from : State V M) {n : ℕ} {out : State V M}
      → MainLives from
      → Runs from n out
      → MainLives out
  Runs-MainLives from h begin = h
  Runs-MainLives from h (asks {st = st} {out} r a) =
      Asks-MainLives st out a (Runs-MainLives from h r)
  Runs-MainLives from h (ends {st = st} {out} r e) =
      Ends-MainLives st out e (Runs-MainLives from h r)

  start-MainLives : (vs : V) (st : State V M) → MainLives (start vs st)
  unfolding start claim_main_slot
  start-MainLives vs st = refl

  -- Where, in a run from the start in which every spawned task enters its frame, a task that is not main returns
  -- or panics and nothing is ready, which the scheduler reports as completed, main waits for a message and has
  -- none.
  pub finish_leaves_main :
      (vs : V) (st out : State V M) (n : ℕ)
      → IsReset st
      → Runs (start vs st) n out
      → out.current ≢ 1
      → finish out ≡ none
      → ((out.slots 1).status ≡ blocked_receive) × ((out.slots 1).mailbox ≡ [])
  unfolding finish
  finish_leaves_main vs st out n reset r not_main none_next =
      let scheduled = scheduler-IsScheduled vs st out n reset r in
      let between = dead-IsBetween out scheduled in
      let lives = Runs-MainLives (start vs st) (start-MainLives vs st) r in
      let alive : not (is_free (out.slots 1).status) ≡ true = rw lives refl in
      let not_ready : (out.slots 1).status ≢ ready = λ e.
        nothing_ready (set_status out.current dead out) between none_next 1
          (ground (arith, ==_iff 1 out.current)) in
      let not_running : (out.slots 1).status ≢ running =
        λ e. not_main (sym (scheduled.one_runs 1 e)) in
      let blocked =
        only_waits (out.slots 1).status alive not_ready not_running (scheduled.queues.awake 1) in
      (blocked, scheduled.queues.waits_empty 1 blocked)
