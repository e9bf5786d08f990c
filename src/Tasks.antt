-- ===== src/Tasks.antt =====
-- The tasks of the machine: src/lang/task_state.zig, `send` of src/lang/vm_task.zig, `spawnTask` and `task_receive`
-- of src/lang/vm.zig, and the loop of `driveTaskScheduler` of src/runtime/runtime.zig. What a task executes is
-- outside: a turn is the list of what the task asks of the scheduler. A message is what was cloned; memory for the
-- queues is there.
pub mod Completed
pub mod Fair
pub mod Invariant
pub mod Order
pub mod References
pub mod Spawn
mod Tests
use gengo.Prelude.{
  ℕ, zero, suc, ◌+◌, ◌%◌, ◌^◌, List, [], ◌∷◌, ◌++◌, Bool, true, false, not, ◌&&◌, ◌||◌, Option,
  none, some, ◌==◌, ltb, leb, if◌then◌else◌,
}

abbrev pub max_tasks : ℕ
max_tasks = 64

pub data TaskStatus : Type 0 where
  empty ready running blocked_receive sleeping dead : TaskStatus

pub record ActorRef : Type 0 where
  pub index : ℕ
  pub generation : ℕ

-- `V` is the execution state of a task, `M` a message.
module _ (V M : Type 0) where
  pub record TaskSlot : Type 0 where
    pub generation : ℕ
    pub status : TaskStatus
    pub vs : Option V
    pub owns_vs : Bool
    pub mailbox : List M

  -- The table; its indices run below max_tasks.
  pub record State : Type 0 where
    pub slots : ℕ → TaskSlot
    pub ready_queue : List ℕ
    pub current : ℕ

pub data Fault : Type 0 where
  too_many_tasks out_of_memory not_a_function not_sendable entry_failed : Fault

-- generation +%= 1, past zero
unfoldable pub next_generation : ℕ → ℕ
next_generation g = let next = (g + 1) % 2 ^ 32 in if next == 0 then 1 else next

abbrev pub is_free : TaskStatus → Bool
is_free empty = true
is_free dead = true
is_free _ = false

pub data Claim : Type 0 where
  got : ℕ → Claim
  failed : Fault → Claim

module _ {V M : Type 0} where
  -- self.slots[idx] = slot
  abbrev pub put : ℕ → TaskSlot V M → State V M → State V M
  put idx slot st = record st { slots = λ i. if i == idx then slot else st.slots i }

  abbrev pub set_status : ℕ → TaskStatus → State V M → State V M
  set_status idx s st = put idx (record (st.slots idx) { status = s }) st

  unfoldable pub clear : TaskSlot V M → TaskSlot V M
  clear slot = record {
    generation = slot.generation;
    status = empty;
    vs = none;
    owns_vs = false;
    mailbox = [];
  }

  unfoldable pub id_for : State V M → ℕ → ActorRef
  id_for st idx = record { index = idx; generation = (st.slots idx).generation }

  -- if (slot.status == .dead) slot.clear()
  abbrev pub recycled : TaskStatus → TaskSlot V M → TaskSlot V M
  unfolding clear
  recycled dead slot = clear slot
  recycled _ slot = slot

  -- The slot with its next generation; it is ready once it has an execution state.
  unfoldable pub claimed : TaskSlot V M → Option V → TaskSlot V M
  claimed slot none = record (recycled slot.status slot) {
    generation = next_generation slot.generation;
  }
  claimed slot (some vs) = record (recycled slot.status slot) {
    generation = next_generation slot.generation;
    status = ready;
    vs = some vs;
    owns_vs = true;
  }

  -- The first free slot from `idx` on, of those that are left.
  unfoldable pub first_free : ℕ → ℕ → (ℕ → TaskSlot V M) → Option ℕ
  first_free zero idx slots = none
  first_free (suc left) idx slots =
      let further = first_free left (idx + 1) slots in
      if is_free (slots idx).status then some idx else further

  -- `fresh` is what creating and initialising an execution state gives.
  unfoldable pub claim_at : Option ℕ → Option V → State V M → State V M × Claim
  claim_at none fresh st = (st, failed too_many_tasks)
  claim_at (some idx) none st = (put idx (claimed (st.slots idx) none) st, failed out_of_memory)
  claim_at (some idx) (some vs) st = (put idx (claimed (st.slots idx) (some vs)) st, got idx)

  unfoldable pub claim_slot : Option V → State V M → State V M × Claim
  claim_slot fresh st = claim_at (first_free 63 1 st.slots) fresh st

  unfoldable pub claim_main_slot : V → State V M → State V M
  claim_main_slot vs st =
      let slot = st.slots 1 in
      record (put 1
        (record slot {
          generation = next_generation slot.generation;
          status = ready;
          vs = some vs;
          owns_vs = false;
        })
        st) { current = 1 }

  unfoldable pub resolve_same_generation : State V M → ActorRef → Option ℕ
  resolve_same_generation st id =
      if id.index == 0 || leb max_tasks id.index
      then none
      else (if (st.slots id.index).generation == id.generation then some id.index else none)

  unfoldable pub is_alive : State V M → ℕ → Bool
  is_alive st idx = not (is_free (st.slots idx).status)

  unfoldable pub enqueue_ready : ℕ → State V M → State V M
  enqueue_ready idx st = record (set_status idx ready st) {
    ready_queue = st.ready_queue ++ idx ∷ [];
  }

  abbrev pub wake : TaskStatus → ℕ → State V M → State V M
  unfolding enqueue_ready
  wake blocked_receive idx st = enqueue_ready idx st
  wake _ idx st = st

  abbrev pub deliver : ℕ → M → State V M → State V M
  deliver idx message st =
      let slot = st.slots idx in
      wake slot.status idx (put idx (record slot { mailbox = slot.mailbox ++ message ∷ [] }) st)

  abbrev pub deliver_to : Option ℕ → Option M → State V M → State V M × Option Fault
  deliver_to none clone st = (st, none)
  deliver_to (some idx) none st = (st, if is_alive st idx then some not_sendable else none)
  deliver_to (some idx) (some message) st =
      (if is_alive st idx then deliver idx message st else st, none)

  -- A stale or dead target drops the message; a payload that cannot be sent is an error.
  unfoldable pub send : ActorRef → Option M → State V M → State V M × Option Fault
  send target clone st = deliver_to (resolve_same_generation st target) clone st

  -- `entered` says whether the frame of the behaviour could be entered.
  abbrev pub start_claimed : State V M × Claim → Bool → State V M × Option Fault
  start_claimed (st, failed e) entered = (st, some e)
  start_claimed (st, got idx) true = (enqueue_ready idx st, none)
  start_claimed (st, got idx) false = (st, some entry_failed)

  -- `is_function` and `sendable` say what the behaviour and the arguments are.
  unfoldable pub spawn_task : Bool → Bool → Option V → Bool → State V M → State V M × Option Fault
  spawn_task false sendable fresh entered st = (st, some not_a_function)
  spawn_task true false fresh entered st = (st, some not_sendable)
  spawn_task true true fresh entered st = start_claimed (claim_slot fresh st) entered

  abbrev pub taken : List M → State V M → State V M × Option M
  taken [] st = (set_status st.current blocked_receive st, none)
  taken (message ∷ further) st =
      (put st.current (record (st.slots st.current) { mailbox = further }) st, some message)

  -- The message that is taken, or none and the task waits.
  unfoldable pub receive : State V M → State V M × Option M
  receive st = taken (st.slots st.current).mailbox st

  abbrev pub turn_of : List ℕ → State V M → Option (State V M)
  turn_of [] st = none
  turn_of (idx ∷ queue) st =
      some (set_status idx running (record st { ready_queue = queue; current = idx }))

  -- The next task has its turn; `none` where nothing is ready.
  unfoldable pub next_turn : State V M → Option (State V M)
  next_turn st = turn_of st.ready_queue st

  unfoldable pub finish : State V M → Option (State V M)
  unfolding next_turn
  finish st = next_turn (set_status st.current dead st)

  -- Main has the first turn of a table that was reset.
  unfoldable pub start : V → State V M → State V M
  start vs st = set_status 1 running (claim_main_slot vs st)
