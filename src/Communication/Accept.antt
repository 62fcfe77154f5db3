-- ===== src/Communication/Accept.antt =====
-- `AdHocSocketHandler::receive_multi` (src/common/communication/common.h): the loop over the primary socket,
-- the thread that accepts further sockets, and a thread for each of them, a step of one of them at a
-- time. Requests are the numbers that they are given. What the accepting thread does under the mutex,
-- which it then unlocks, is one step; the tasks that the threads post to it may run in any order. The
-- primary socket is closed at some time, as an exception of its callback tells.
pub mod Requests
use wasivst.Prelude.Update.{update}
use wasivst.Prelude.{ℕ, suc, ◌≡◌, ◌≢◌, Bool, true, false}

-- Where the thread of a request stands: `posted` is behind its callback, when it has posted the task that
-- erases it, and `joined` when it was destroyed, which waits for its end.
pub data RequestPhase : Type 0 where
  unborn handling posted joined : RequestPhase

-- Where the accepting thread stands: `accepted` has a new request, and `erasing` runs a posted task, both
-- before the mutex; `ended` when `run` has returned.
pub data AcceptorPhase : Type 0 where
  waiting : AcceptorPhase
  accepted erasing : ℕ → AcceptorPhase
  ended : AcceptorPhase

-- Where `receive_multi` stands: in the loop, behind it, with the mutex locked, with the context stopped,
-- and where its variables are destroyed: first the lock, then the accepting thread, then the map.
pub data MainPhase : Type 0 where
  serving left_loop locked stopped joining_acceptor joining_requests returned : MainPhase

pub record Server : Type 0 where
  pub currently_listening : Bool
  pub accepting : Bool  -- whether `async_accept` is under way
  pub mutex_free : Bool
  pub context_stopped : Bool
  pub next_request_id : ℕ
  pub active_secondary_requests : ℕ → Bool  -- the keys of the map
  pub requests : ℕ → RequestPhase
  pub acceptor : AcceptorPhase
  pub main_thread : MainPhase

pub data Step (s : Server) : Server → Type 0 where
  -- a new socket: `next_request_id.fetch_add(1)`
  accept_socket :
      s.acceptor ≡ waiting
      → s.context_stopped ≡ false
      → s.accepting ≡ true
      → Step s (record s {
        acceptor = accepted s.next_request_id;
        next_request_id = suc s.next_request_id;
      })
  -- an error: nothing is accepted from then on
  accept_fails :
      s.acceptor ≡ waiting
      → s.context_stopped ≡ false
      → s.accepting ≡ true
      → Step s (record s { accepting = false })
  start_thread :
      (i : ℕ)
      → s.acceptor ≡ accepted i
      → s.mutex_free ≡ true
      → Step s (record s {
        active_secondary_requests = update s.active_secondary_requests i true;
        requests = update s.requests i handling;
        acceptor = waiting;
      })
  -- the end of `secondary_callback`, and `asio::post`
  post_task :
      (i : ℕ)
      → s.requests i ≡ handling
      → Step s (record s { requests = update s.requests i posted })
  take_task :
      (i : ℕ)
      → s.acceptor ≡ waiting
      → s.context_stopped ≡ false
      → s.requests i ≡ posted
      → Step s (record s { acceptor = erasing i })
  erase_request :
      (i : ℕ)
      → s.acceptor ≡ erasing i
      → s.mutex_free ≡ true
      → Step s (record s {
        active_secondary_requests = update s.active_secondary_requests i false;
        requests = update s.requests i joined;
        acceptor = waiting;
      })
  run_returns :
      s.acceptor ≡ waiting → s.context_stopped ≡ true → Step s (record s { acceptor = ended })
  -- `run` is out of work: nothing is accepted, and no task is posted
  run_out_of_work :
      s.acceptor ≡ waiting
      → s.accepting ≡ false
      → ((i : ℕ) → s.requests i ≢ posted)
      → Step s (record s { acceptor = ended })
  -- `primary_callback` returns, or its exception is caught
  serve_primary : s.main_thread ≡ serving → Step s s
  leave_loop : s.main_thread ≡ serving → Step s (record s { main_thread = left_loop })
  lock_mutex :
      s.main_thread ≡ left_loop
      → s.mutex_free ≡ true
      → Step s (record s { mutex_free = false; main_thread = locked })
  stop_context :
      s.main_thread ≡ locked
      → Step s (record s {
        context_stopped = true;
        accepting = false;
        currently_listening = false;
        main_thread = stopped;
      })
  unlock_mutex :
      s.main_thread ≡ stopped
      → Step s (record s { mutex_free = true; main_thread = joining_acceptor })
  join_acceptor :
      s.main_thread ≡ joining_acceptor
      → s.acceptor ≡ ended
      → Step s (record s { main_thread = joining_requests })
  -- the map is destroyed
  join_request :
      (i : ℕ)
      → s.main_thread ≡ joining_requests
      → s.active_secondary_requests i ≡ true
      → s.requests i ≡ posted
      → Step s (record s {
        active_secondary_requests = update s.active_secondary_requests i false;
        requests = update s.requests i joined;
      })
  return_to_caller :
      s.main_thread ≡ joining_requests
      → ((i : ℕ) → s.active_secondary_requests i ≡ false)
      → Step s (record s { main_thread = returned })

-- Where the accepting thread has been started.
abbrev pub listening : Server
listening = record {
  currently_listening = true;
  accepting = true;
  mutex_free = true;
  context_stopped = false;
  next_request_id = 0;
  active_secondary_requests = λ _. false;
  requests = λ _. unborn;
  acceptor = waiting;
  main_thread = serving;
}

pub data Reach : Server → Type 0 where
  start : Reach listening
  later : {s t : Server} → Reach s → Step s t → Reach t
