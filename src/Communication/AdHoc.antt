-- ===== src/Communication/AdHoc.antt =====
-- `AdHocSocketHandler::send` (src/common/communication/common.h), called by any number of threads at
-- once: a shared access or a use of a socket at a time. What a callback does on a socket is any number
-- of uses. The other side may start and stop listening for further sockets at any time.
-- Left out are callbacks that throw another exception than `std::system_error` on a secondary socket, and
-- threads that send again after an exception.
pub mod Order
pub mod Progress
use wasivst.Prelude.Update.{update}
use wasivst.Prelude.{
  ℕ, ◌≡◌, Bool, true, false, Option, none, some, List, [], ◌∷◌, ◌==◌, if◌then◌else◌,
}

-- What happens on the primary socket.
pub data Use : Type 0 where
  begins uses ends : (thread : ℕ) → Use

pub record Shared : Type 0 where
  pub write_mutex : Option ℕ  -- the thread that has locked it
  pub sent_first_event : Bool
  pub listening : Bool  -- whether a secondary socket can be connected to the endpoint
  pub primary : List Use  -- newest first

-- Where a thread stands in `send`.
pub data Phase : Type 0 where
  before_send : Phase
  in_callback : Phase  -- on the primary socket, with the mutex locked
  callback_done : Phase  -- before `sent_first_event_ = true`
  first_sent : Phase  -- before the mutex is unlocked
  connecting : Phase  -- the secondary socket
  on_secondary : Phase  -- in the callback
  caught : Phase  -- a `std::system_error`, before the test of `sent_first_event_`
  waiting : Phase  -- for the mutex
  returned : Phase
  primary_threw : Phase  -- an exception of the callback on the primary socket left `send`
  rethrown : Phase  -- the exception that was caught left `send`

-- `try_to_lock` may fail while no thread has the mutex, too.
pub data Move (i : ℕ) (m : Shared) : Phase → Shared → Phase → Type 0 where
  try_lock :
      m.write_mutex ≡ none
      → Move i m before_send
          (record m { write_mutex = some i; primary = begins i ∷ m.primary })
          in_callback
  try_fails : Move i m before_send m connecting
  use_socket : Move i m in_callback (record m { primary = uses i ∷ m.primary }) in_callback
  finish : Move i m in_callback m callback_done
  throw_primary :
      Move i m in_callback
        (record m { write_mutex = none; primary = ends i ∷ m.primary })
        primary_threw
  set_sent : Move i m callback_done (record m { sent_first_event = true }) first_sent
  unlock :
      Move i m first_sent (record m { write_mutex = none; primary = ends i ∷ m.primary }) returned
  connect : m.listening ≡ true → Move i m connecting m on_secondary
  connect_fails : Move i m connecting m caught
  secondary_done : Move i m on_secondary m returned
  secondary_fails : Move i m on_secondary m caught
  fall_back : m.sent_first_event ≡ false → Move i m caught m waiting
  rethrow : m.sent_first_event ≡ true → Move i m caught m rethrown
  lock :
      m.write_mutex ≡ none
      → Move i m waiting
          (record m { write_mutex = some i; primary = begins i ∷ m.primary })
          in_callback
  send_again : Move i m returned m before_send

pub record System : Type 0 where
  pub shared : Shared
  pub pc : ℕ → Phase

pub data Step (s : System) : System → Type 0 where
  thread :
      (i : ℕ) {m : Shared} {p : Phase}
      → Move i s.shared (s.pc i) m p
      → Step s (record { shared = m; pc = update s.pc i p })
  other_side : (b : Bool) → Step s (record s { shared = record s.shared { listening = b } })

-- `connect` has returned, and no thread has called `send`.
abbrev pub connected : System
connected = record {
  shared = record { write_mutex = none; sent_first_event = false; listening = false; primary = [] };
  pc = λ _. before_send;
}

pub data Reach : System → Type 0 where
  start : Reach connected
  later : {s t : System} → Reach s → Step s t → Reach t
