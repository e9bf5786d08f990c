-- ===== src/Tasks/Order.antt =====
-- Runs of the scheduler: what holds in every turn, whose turn comes, and what a deadlock means.
use mathlib.Core.Path.{subst}
use gengo.Prelude.{==_iff, ℕ, suc, ◌≡◌, ◌≢◌, refl, sym, Bool, Option, none, some, arith, List, []}
use gengo.Tasks.{
  empty, dead, ActorRef, State, entry_failed, set_status, send, spawn_task, receive, next_turn,
  finish, start, claim_main_slot,
}
use gengo.Tasks.Invariant.{Queued, NoRepeats, IsScheduled}
use gengo.Tasks.Invariant.Turn.{next_turn-IsScheduled}
use gengo.Tasks.Invariant.Turn.{dead-IsBetween}
use gengo.Tasks.Invariant.Turn.{receive-IsBetween}
use gengo.Tasks.Invariant.Calls.{receive-IsScheduled}
use gengo.Tasks.Invariant.Calls.{send-IsScheduled}
use gengo.Tasks.Spawn.{spawn_task-IsScheduled}

module _ {V M : Type 0} where
  -- What the running task may ask for in its turn; a spawn that leaks its slot is left out.
  pub data Asks (st : State V M) : State V M → Type 0 where
    sends : (target : ActorRef) (clone : Option M) → Asks st (send target clone st).0
    spawns :
        (is_function sendable : Bool) (fresh : Option V) (entered : Bool)
        → (spawn_task is_function sendable fresh entered st).1 ≢ some entry_failed
        → Asks st (spawn_task is_function sendable fresh entered st).0
    takes : (message : M) → (receive st).1 ≡ some message → Asks st (receive st).0

  -- How a turn ends: the task waits for a message, or it returns or panics and is not main.
  pub data Ends (st : State V M) : State V M → Type 0 where
    waits :
        {out : State V M}
        → (receive st).1 ≡ none
        → next_turn (receive st).0 ≡ some out
        → Ends st out
    dies : {out : State V M} → st.current ≢ 1 → finish st ≡ some out → Ends st out

  -- A run, with the number of turns that ended.
  pub data Runs (from : State V M) : ℕ → State V M → Type 0 where
    begin : Runs from 0 from
    asks : {n : ℕ} {st out : State V M} → Runs from n st → Asks st out → Runs from n out
    ends : {n : ℕ} {st out : State V M} → Runs from n st → Ends st out → Runs from (suc n) out

  Asks-IsScheduled : (st out : State V M) → Asks st out → IsScheduled st → IsScheduled out
  Asks-IsScheduled st out (sends target clone) h = send-IsScheduled target clone st h
  Asks-IsScheduled st out (spawns is_function sendable fresh entered good) h =
      spawn_task-IsScheduled is_function sendable fresh entered st good h
  Asks-IsScheduled st out (takes message took) h = receive-IsScheduled st message took h

  Ends-IsScheduled : (st out : State V M) → Ends st out → IsScheduled st → IsScheduled out
  unfolding finish
  Ends-IsScheduled st out (waits none_left next) h =
      next_turn-IsScheduled (receive st).0 out (receive-IsBetween st none_left h) next
  Ends-IsScheduled st out (dies not_main next) h =
      next_turn-IsScheduled (set_status st.current dead st) out (dead-IsBetween st h) next

  pub Runs-IsScheduled :
      (from : State V M) {n : ℕ} {out : State V M}
      → IsScheduled from
      → Runs from n out
      → IsScheduled out
  Runs-IsScheduled from h begin = h
  Runs-IsScheduled from h (asks {st = st} {out} r a) =
      Asks-IsScheduled st out a (Runs-IsScheduled from h r)
  Runs-IsScheduled from h (ends {st = st} {out} r e) =
      Ends-IsScheduled st out e (Runs-IsScheduled from h r)

  -- A table that was reset: its slots are empty.
  abbrev pub IsReset : State V M → Type 0
  IsReset st = ((i : ℕ) → (st.slots i).status ≡ empty) × (st.ready_queue ≡ [])

  pub start-IsScheduled : (vs : V) (st : State V M) → IsReset st → IsScheduled (start vs st)
  unfolding start claim_main_slot
  start-IsScheduled vs st h = record {
    queues = record {
      queue_ready = λ i m. absurd (subst (λ (l : List ℕ). Queued i l) h.1 m);
      ready_queued = λ i e. absurd (ground (arith, h.0 i));
      once = subst NoRepeats (sym h.1) tt;
      waits_empty = λ i e. absurd (ground (arith, h.0 i));
      null_slot = ground (arith, h.0 0);
      awake = λ i e. ground (arith, h.0 i);
    };
    turn = refl;
    one_runs = λ i e. ground (arith, h.0 i, ==_iff i 1);
  }

  -- In every turn of a run from the start in which every spawned task enters its frame: the current task runs and
  -- no other, exactly the ready tasks stand in the queue, each once, no task waits that has a message, none
  -- sleeps, and slot 0 is empty.
  pub scheduler-IsScheduled :
      (vs : V) (st out : State V M) (n : ℕ)
      → IsReset st
      → Runs (start vs st) n out
      → IsScheduled out
  scheduler-IsScheduled vs st out n h r =
      Runs-IsScheduled (start vs st) (start-IsScheduled vs st h) r
