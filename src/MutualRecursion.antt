-- ===== src/MutualRecursion.antt =====
-- `MutualRecursionHelper` (src/common/mutual-recursion.h), used by any number of threads at once. A
-- task, the function that `handle` is called with, is a number, in the order in which they are handed
-- over. An `io_context` is also a number: its `run` returns once it has no work guard and no task.
pub mod Counts
pub mod Contexts
pub mod Order
pub mod Ledger
use wasivst.Prelude.{
  ℕ, zero, suc, ◌≡◌, ◌<◌, Bool, true, false, ◌&&◌, not, Option, none, some, List, [], ◌∷◌, ◌++◌,
  ◌==◌, if◌then◌else◌,
}
use wasivst.Prelude.Update.{update}

-- Where the thread that calls `fork` stands with a context.
pub data Run : Type 0 where
  starting : Run  -- the context is on the stack, and its work guard is not made
  blocked : Run  -- between two tasks, in `run` or before it
  executing : (task : ℕ) → Run
  run_returned : Run

pub record Context : Type 0 where
  pub caller : ℕ  -- the thread that called `fork`
  pub work_guard : Bool
  pub tasks : List ℕ  -- dispatched and not begun, oldest first
  pub run : Run

-- A number that names no context yet.
abbrev pub unmade : Context
unmade = record { caller = 0; work_guard = false; tasks = []; run = run_returned }

pub record Helper : Type 0 where
  pub contexts : ℕ → Context
  pub made : ℕ
  pub stack : List ℕ  -- `mutual_recursion_contexts_`, whose back is the last
  pub frames : ℕ → List ℕ  -- the contexts whose `fork` a thread is in, innermost first
  pub waits : ℕ → Bool  -- whether a thread waits for a task that it has dispatched
  pub handed : ℕ  -- the tasks handed over so far
  pub handler : ℕ → ℕ  -- the thread that handed a task over
  pub place : ℕ → ℕ  -- the thread that last called `fork` then, or the handler if there is none
  pub begun : ℕ → Option ℕ  -- the thread that has begun to execute a task

-- `std::find` and `erase`.
unfoldable pub erase : ℕ → List ℕ → List ℕ
erase c [] = []
erase c (x ∷ xs) = if c == x then xs else x ∷ erase c xs

unfoldable pub back : List ℕ → Option ℕ
back [] = none
back (x ∷ []) = some x
back (x ∷ y ∷ ys) = back (y ∷ ys)

unfoldable pub count : ℕ → List ℕ → ℕ
count c [] = 0
count c (x ∷ xs) = if c == x then suc (count c xs) else count c xs

abbrev pub is_executing : Run → Bool
is_executing (executing _) = true
is_executing _ = false

-- Whether a thread runs code of its own or a task's, so that it may call `fork` and `handle`.
unfoldable pub in_code : (ℕ → Context) → List ℕ → Bool
in_code contexts [] = true
in_code contexts (c ∷ cs) = is_executing (contexts c).run

abbrev pub IsFree : Helper → ℕ → Type 0
IsFree s t = (s.waits t ≡ false) × (in_code s.contexts (s.frames t) ≡ true)

-- Whether the function of a `fork` has not returned: it has not begun, or there is the work guard.
unfoldable pub unreturned : Run → (work_guard : Bool) → Bool
unreturned starting g = true
unreturned blocked g = g
unreturned (executing _) g = g
unreturned run_returned g = g

-- The last of the first contexts of which that holds.
unfoldable pub latest : (ℕ → Context) → (made : ℕ) → Option ℕ
unfolding unreturned
latest contexts zero = none
latest contexts (suc n) =
    if unreturned (contexts n).run (contexts n).work_guard then some n else latest contexts n

-- The thread that last called `fork` of those whose function has not returned, or the given one.
unfoldable pub place_for : Helper → (thread : ℕ) → ℕ
unfolding latest
place_for s t = elim (latest s.contexts s.made) [ none ↦ t | some c ↦ (s.contexts c).caller ]

-- The helper after a thread has handed a task over.
abbrev pub hand_over : Helper → (thread : ℕ) → Helper
hand_over s t = record s {
  handed = suc s.handed;
  handler = update s.handler s.handed t;
  place = update s.place s.handed (place_for s t);
}

abbrev pub set_context : Helper → ℕ → Context → Helper
set_context s c x = record s { contexts = update s.contexts c x }

pub data Step (s : Helper) : Helper → Type 0 where
  -- `fork`
  push_context :
      (t : ℕ)
      → IsFree s t
      → Step s
          (record (set_context s s.made
            (record { caller = t; work_guard = false; tasks = []; run = starting })) {
              made = suc s.made;
              stack = s.stack ++ s.made ∷ [];
              frames = update s.frames t (s.made ∷ s.frames t);
            })
  make_guard :
      (c : ℕ)
      → (s.contexts c).run ≡ starting
      → Step s (set_context s c (record (s.contexts c) { work_guard = true; run = blocked }))
  fn_returns :
      (c : ℕ)
      → (s.contexts c).work_guard ≡ true
      → Step s (record (set_context s c (record (s.contexts c) { work_guard = false })) {
        stack = erase c s.stack;
      })
  begin_task :
      (c : ℕ) {cs : List ℕ} (k : ℕ) (ks : List ℕ)
      → s.frames (s.contexts c).caller ≡ c ∷ cs
      → (s.contexts c).run ≡ blocked
      → (s.contexts c).tasks ≡ k ∷ ks
      → Step s (record (set_context s c (record (s.contexts c) { tasks = ks; run = executing k })) {
        begun = update s.begun k (some (s.contexts c).caller);
      })
  end_task :
      (c : ℕ) {cs : List ℕ} (k : ℕ)
      → s.frames (s.contexts c).caller ≡ c ∷ cs
      → s.waits (s.contexts c).caller ≡ false
      → (s.contexts c).run ≡ executing k
      → Step s (record (set_context s c (record (s.contexts c) { run = blocked })) {
        waits = update s.waits (s.handler k) false;
      })
  return_from_run :
      (c : ℕ) {cs : List ℕ}
      → s.frames (s.contexts c).caller ≡ c ∷ cs
      → (s.contexts c).run ≡ blocked
      → (s.contexts c).tasks ≡ []
      → (s.contexts c).work_guard ≡ false
      → Step s (record (set_context s c (record (s.contexts c) { run = run_returned })) {
        frames = update s.frames (s.contexts c).caller cs;
      })
  -- `handle`
  handle_directly :
      (t : ℕ)
      → IsFree s t
      → s.stack ≡ []
      → Step s (record (hand_over s t) { begun = update s.begun s.handed (some t) })
  handle_inside :  -- the thread runs the context, so `dispatch` calls the task
      (t c : ℕ)
      → IsFree s t
      → back s.stack ≡ some c
      → 0 < count c (s.frames t)
      → Step s (record (hand_over s t) { begun = update s.begun s.handed (some t) })
  handle_dispatched :
      (t c : ℕ)
      → IsFree s t
      → back s.stack ≡ some c
      → count c (s.frames t) ≡ 0
      → Step s (record (hand_over s t) {
        contexts =
            update s.contexts c
              (record (s.contexts c) { tasks = (s.contexts c).tasks ++ s.handed ∷ [] });
        waits = update s.waits t true;
      })

-- No thread has used the helper.
abbrev pub unused : Helper
unused = record {
  contexts = λ _. unmade;
  made = 0;
  stack = [];
  frames = λ _. [];
  waits = λ _. false;
  handed = 0;
  handler = λ _. 0;
  place = λ _. 0;
  begun = λ _. none;
}

pub data Reach : Helper → Type 0 where
  start : Reach unused
  later : {s t : Helper} → Reach s → Step s t → Reach t
