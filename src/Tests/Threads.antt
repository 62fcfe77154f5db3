-- ===== src/Tests/Threads.antt =====
-- Threads that use an ad hoc socket (src/common/communication/common.h) or the helper for mutual
-- recursion (src/common/mutual-recursion.h), in concrete orders.
use wasivst.Communication.Accept
use wasivst.Communication.Accept.{
  Server, unborn, handling, posted, joined, ended, returned, left_loop, listening, accept_socket,
  start_thread, leave_loop, lock_mutex, post_task, stop_context, unlock_mutex, run_returns,
  join_acceptor, join_request, return_to_caller,
}
use wasivst.Communication.Accept.Requests.{returned-joined}
use wasivst.Prelude.Update.{update, after_update, other-update}
use wasivst.Prelude.{false, true, ℕ, ◌≡◌, ◌≢◌, ◌<◌, refl, true, some, [], ◌⊎◌, arith}
use wasivst.Communication.AdHoc.{
  System, Reach, start, later, thread, try_lock, try_fails, connect_fails, fall_back, use_socket,
  in_callback,
}
use wasivst.Communication.AdHoc.Order.{inside, IsOrderly, primary-IsOrderly}
use wasivst.Communication.AdHoc.Progress.{Steps, waiting-Served}
use wasivst.MutualRecursion
use wasivst.MutualRecursion.{
  Helper, count, back, in_code, push_context, make_guard, fn_returns, begin_task, handle_dispatched,
  run_returned,
}
use wasivst.MutualRecursion.Contexts.{is_open}
use wasivst.MutualRecursion.Ledger.{handled_kept, stack_open}

-- The thread 0 uses the primary socket, the thread 1 could not connect and waits for it.
abbrev contended : (s : System) × Reach s
contended = (
  _,
  later
      (later
        (later (later (later start (thread 0 (try_lock refl))) (thread 0 use_socket))
          (thread 1 try_fails))
        (thread 1 connect_fails))
      (thread 1 (fall_back refl)),
)

primary-IsOrderly_example :
    IsOrderly contended.0.shared.primary (some 0)
    × ((i j : ℕ) → inside (contended.0.pc i) ≡ true → inside (contended.0.pc j) ≡ true → i ≡ j)
primary-IsOrderly_example = primary-IsOrderly contended.1

waiting-Served_example :
    (t : System) × Steps contended.0 t × (t.shared.write_mutex ≡ some 1) × (t.pc 1 ≡ in_callback)
waiting-Served_example = waiting-Served contended.1 1 refl

-- The thread 0 has called `fork`, and the thread 1 `handle`.
unfoldable forked : (s : Helper) × MutualRecursion.Reach s
unfolding count back in_code
forked = (
  _,
  MutualRecursion.later
      (MutualRecursion.later
        (MutualRecursion.later MutualRecursion.start (push_context 0 (refl, refl)))
        (make_guard 0 refl))
      (handle_dispatched 1 0 (refl, refl) refl refl),
)

handled_kept_example :
    (forked.0.begun 0 ≡ some 0)
    ⊎ ((c : ℕ) × (0 < count 0 (forked.0.contexts c).tasks)
        × ((forked.0.contexts c).caller ≡ 0)
        × ((forked.0.contexts c).run ≢ run_returned))
unfolding forked MutualRecursion.place_for
handled_kept_example = handled_kept forked.1 0 (omega arith)

stack_open_example :
    (count 0 forked.0.stack ≡ 1)
    × (is_open (forked.0.contexts 0).run (forked.0.contexts 0).work_guard ≡ true)
unfolding count forked
stack_open_example = stack_open forked.1 0 (omega arith)

-- The function that was called by `fork` returns before the task is begun: it is executed all the same,
-- by the thread that called `fork`.
unfoldable executed : (s : Helper) × MutualRecursion.Reach s
unfolding forked count
executed = (
  _,
  MutualRecursion.later (MutualRecursion.later forked.1 (fn_returns 0 refl))
      (begin_task 0 0 [] refl refl refl),
)

executed_on_0 : executed.0.begun 0 ≡ some 0
unfolding executed
executed_on_0 = refl

-- One request that is accepted, and that ends after the loop.
abbrev after_one : Server
after_one = record {
  currently_listening = false;
  accepting = false;
  mutex_free = true;
  context_stopped = true;
  next_request_id = 1;
  active_secondary_requests = update (update (λ _. false) 0 true) 0 false;
  requests = update (update (update (λ _. unborn) 0 handling) 0 posted) 0 joined;
  acceptor = ended;
  main_thread = returned;
}

all_gone : (i : ℕ) → after_one.active_secondary_requests i ≡ false
all_gone =
    after_update (λ _ b. b ≡ false) (update (λ _. false) 0 true) 0 false refl
      (λ j d. other-update (λ _. false) 0 true j d)

one_request : Accept.Reach after_one
one_request = closing
  where
    open_reach : Accept.Reach (record listening {
      next_request_id = 1;
      active_secondary_requests = update (λ _. false) 0 true;
      requests = update (λ _. unborn) 0 handling;
      main_thread = left_loop;
    })
    open_reach =
        Accept.later
          (Accept.later (Accept.later Accept.start (accept_socket refl refl refl))
            (start_thread 0 refl refl))
          (leave_loop refl)

    closing : Accept.Reach after_one
    closing =
        Accept.later
          (Accept.later
            (Accept.later
              (Accept.later
                (Accept.later
                  (Accept.later
                    (Accept.later (Accept.later open_reach (lock_mutex refl refl))
                      (post_task 0 refl))
                    (stop_context refl))
                  (unlock_mutex refl))
                (run_returns refl refl))
              (join_acceptor refl refl))
            (join_request 0 refl refl refl))
          (return_to_caller refl all_gone)

returned-joined_example :
    (after_one.acceptor ≡ ended)
    × ((i : ℕ) → after_one.active_secondary_requests i ≡ false)
    × ((i : ℕ) → i < 1 → after_one.requests i ≡ joined)
returned-joined_example = returned-joined one_request refl
