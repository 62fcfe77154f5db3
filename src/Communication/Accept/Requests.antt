-- ===== src/Communication/Accept/Requests.antt =====
-- What holds of the requests of `AdHocSocketHandler::receive_multi` (src/common/communication/common.h).
use mathlib.Core.Path.{subst}
use wasivst.Prelude.Update.{update, other-update, after_update}
use wasivst.Prelude.{
  ℕ, suc, ◌≡◌, ◌≤◌, ◌<◌, ◌≢◌, ◌⊎◌, inl, inr, refl, sym, ap, ◌∙◌, Bool, true, false, arith, ◌==◌,
  Bool-cases, ==_iff, ltb, ltb→lt,
}
use wasivst.Communication.Accept.{
  RequestPhase, unborn, handling, posted, joined, AcceptorPhase, waiting, accepted, erasing, ended,
  MainPhase, serving, left_loop, locked, stopped, joining_acceptor, joining_requests, returned,
  Server, Step, accept_socket, accept_fails, start_thread, post_task, take_task, erase_request,
  run_returns, run_out_of_work, serve_primary, leave_loop, lock_mutex, stop_context, unlock_mutex,
  join_acceptor, join_request, return_to_caller, listening, Reach, start, later,
}

-- A request is in the map from when its thread is started until it is joined.
in_map : RequestPhase → Bool
in_map unborn = false
in_map handling = true
in_map posted = true
in_map joined = false

abbrev IsPending : (ℕ → RequestPhase) → ℕ → AcceptorPhase → Type 0
IsPending requests next waiting = Unit
IsPending requests next (accepted i) = (requests i ≡ unborn) × (i < next)
IsPending requests next (erasing i) = requests i ≡ posted
IsPending requests next ended = Unit

-- A request that was accepted has a thread, or will have one next.
abbrev IsBorn : AcceptorPhase → ℕ → RequestPhase → Type 0
IsBorn a i p = (p ≢ unborn) ⊎ (a ≡ accepted i)

-- At the end the accepting thread has ended, and then the map is empty.
abbrev IsEnding : MainPhase → AcceptorPhase → (ℕ → Bool) → Type 0
IsEnding joining_requests a active = a ≡ ended
IsEnding returned a active = (a ≡ ended) × ((i : ℕ) → active i ≡ false)
IsEnding _ a active = Unit

record Inv (s : Server) : Type 0 where
  mapped : (i : ℕ) → s.active_secondary_requests i ≡ in_map (s.requests i)
  unused : (i : ℕ) → s.next_request_id ≤ i → s.requests i ≡ unborn
  born : (i : ℕ) → i < s.next_request_id → IsBorn s.acceptor i (s.requests i)
  pending : IsPending s.requests s.next_request_id s.acceptor
  ending : IsEnding s.main_thread s.acceptor s.active_secondary_requests

start-Inv : Inv listening
unfolding in_map
start-Inv = record {
  mapped = λ i. refl;
  unused = λ i h. refl;
  born = λ i h. absurd (omega (arith, h));
  pending = tt;
  ending = tt;
}

-- Of a waiting thread no request is to come.
waiting_not : (a : AcceptorPhase) (i : ℕ) → a ≡ waiting → a ≡ accepted i → ⊥
waiting_not a i e f = ground arith

differs : (j i : ℕ) → (j == i) ≡ false → j ≡ i → ⊥
differs j i d e = ground arith

below : (i n : ℕ) → i < suc n → (i == n) ≡ false → i < n
below i n h d = ground arith

ended_not : (a : AcceptorPhase) → a ≡ ended → a ≡ waiting → ⊥
ended_not a e f = ground arith

-- A step of the accepting thread that is waiting: the main thread is not ending.
IsEnding-waiting :
    (m : MainPhase) (a b : AcceptorPhase) (active active' : ℕ → Bool)
    → a ≢ ended
    → IsEnding m a active
    → IsEnding m b active'
IsEnding-waiting serving a b active active' d h = tt
IsEnding-waiting left_loop a b active active' d h = tt
IsEnding-waiting locked a b active active' d h = tt
IsEnding-waiting stopped a b active active' d h = tt
IsEnding-waiting joining_acceptor a b active active' d h = tt
IsEnding-waiting joining_requests a b active active' d h = absurd (d h)
IsEnding-waiting returned a b active active' d (h, _) = absurd (d h)

unborn_not : unborn ≡ handling → ⊥
unborn_not e = ground arith

posted_not : posted ≡ handling → ⊥
posted_not e = ground arith

number_of : AcceptorPhase → ℕ
number_of (accepted i) = i
number_of _ = 0

module _ (s : Server) (inv : Inv s) where
  next : ℕ
  next = s.next_request_id

  accept_socket-Inv :
      s.acceptor ≡ waiting
      → Inv (record s {
        acceptor = accepted s.next_request_id;
        next_request_id = suc s.next_request_id;
      })
  accept_socket-Inv e = record {
    mapped = inv.mapped;
    unused = λ i h. inv.unused i (omega (arith, h));
    born = λ i h. elim (Bool-cases (i == s.next_request_id)) [
      | inl same ↦ inr (ap accepted (sym ((==_iff i s.next_request_id).0 same)))
      | inr other ↦ before i (inv.born i (below i s.next_request_id h other))
    ];
    pending = (inv.unused s.next_request_id (omega arith), omega arith);
    ending =
        IsEnding-waiting s.main_thread s.acceptor (accepted s.next_request_id)
          s.active_secondary_requests s.active_secondary_requests (λ f. ended_not s.acceptor f e)
          inv.ending;
  }
    where
      before :
          (i : ℕ)
          → IsBorn s.acceptor i (s.requests i)
          → IsBorn (accepted s.next_request_id) i (s.requests i)
      before i (inl d) = inl d
      before i (inr f) = absurd (waiting_not s.acceptor i e f)

  -- The phase of one request is set.
  set_request-Inv :
      (i : ℕ) (p : RequestPhase) (a : AcceptorPhase) (active : ℕ → Bool)
      → i < s.next_request_id
      → p ≢ unborn
      → ((j : ℕ) → active j ≡ in_map (update s.requests i p j))
      → ((j : ℕ) → s.acceptor ≡ accepted j → (a ≡ accepted j) ⊎ (j ≡ i))
      → IsPending (update s.requests i p) s.next_request_id a
      → IsEnding s.main_thread a active
      → Inv (record s {
        active_secondary_requests = active;
        requests = update s.requests i p;
        acceptor = a;
      })
  set_request-Inv i p a active small new mapped same pending ending = record {
    mapped = mapped;
    unused =
        after_update (λ j q. s.next_request_id ≤ j → q ≡ unborn) s.requests i p
          (λ h. absurd (omega (arith, h, small))) (λ j d. inv.unused j);
    born =
        after_update (λ j q. j < s.next_request_id → IsBorn a j q) s.requests i p (λ h. inl new)
          (λ j d h. kept j d (inv.born j h));
    pending = pending;
    ending = ending;
  }
    where
      moved : (j : ℕ) → (j == i) ≡ false → (a ≡ accepted j) ⊎ (j ≡ i) → IsBorn a j (s.requests j)
      moved j d (inl e) = inr e
      moved j d (inr e) = absurd (differs j i d e)

      kept :
          (j : ℕ)
          → (j == i) ≡ false
          → IsBorn s.acceptor j (s.requests j)
          → IsBorn a j (s.requests j)
      kept j d (inl f) = inl f
      kept j d (inr e) = moved j d (same j e)

  -- The map after a request is put into it, or taken out, as its new phase says.
  mapped-update :
      (i : ℕ) (b : Bool) (p : RequestPhase)
      → b ≡ in_map p
      → (j : ℕ) → update s.active_secondary_requests i b j ≡ in_map (update s.requests i p j)
  mapped-update i b p e j = elim (Bool-cases (j == i)) [
    | inl same ↦ rw (same) e
    | inr other ↦ rw (other) (inv.mapped j)
  ]

  -- A request that has a thread was accepted.
  small_if : (i : ℕ) (p : RequestPhase) → s.requests i ≡ p → p ≢ unborn → i < s.next_request_id
  small_if i p e new = elim (Bool-cases (ltb i s.next_request_id)) [
    | inl small ↦ ltb→lt i s.next_request_id small
    | inr large ↦ absurd (new (sym e ∙ inv.unused i (ground arith)))
  ]

  no_longer :
      (a : AcceptorPhase) (i : ℕ)
      → ((j : ℕ) → s.acceptor ≡ accepted j → ⊥)
      → IsBorn s.acceptor i (s.requests i)
      → IsBorn a i (s.requests i)
  no_longer a i none (inl d) = inl d
  no_longer a i none (inr e) = absurd (none i e)

  start_thread-Inv :
      (i : ℕ)
      → s.acceptor ≡ accepted i
      → Inv (record s {
        active_secondary_requests = update s.active_secondary_requests i true;
        requests = update s.requests i handling;
        acceptor = waiting;
      })
  unfolding in_map number_of
  start_thread-Inv i e =
      let (_, small) = subst (IsPending s.requests s.next_request_id) e inv.pending in
      set_request-Inv i handling waiting (update s.active_secondary_requests i true) small
        (λ f. ground arith) (mapped-update i true handling refl)
        (λ j f. inr (ap number_of (sym f ∙ e))) tt
        (IsEnding-waiting s.main_thread s.acceptor waiting s.active_secondary_requests _
          (λ f. ground arith) inv.ending)

  post_task-Inv :
      (i : ℕ) → s.requests i ≡ handling → Inv (record s { requests = update s.requests i posted })
  unfolding in_map
  post_task-Inv i h =
      set_request-Inv i posted s.acceptor s.active_secondary_requests
        (small_if i handling h (λ f. ground arith)) (λ f. ground arith)
        (after_update (λ j q. s.active_secondary_requests j ≡ in_map q) s.requests i posted
          (inv.mapped i ∙ ap in_map h) (λ j d. inv.mapped j))
        (λ j f. inl f) (pending_after s.acceptor inv.pending) inv.ending
    where
      pending_after :
          (a : AcceptorPhase)
          → IsPending s.requests s.next_request_id a
          → IsPending (update s.requests i posted) s.next_request_id a
      pending_after waiting p = tt
      pending_after (accepted k) (p, small) = (
        elim (Bool-cases (k == i)) [
          | inl same ↦ absurd (unborn_not (sym p ∙ (ap s.requests ((==_iff k i).0 same) ∙ h)))
          | inr other ↦ other-update s.requests i posted k other ∙ p
        ],
        small,
      )
      pending_after (erasing k) p = elim (Bool-cases (k == i)) [
        | inl same ↦ absurd (posted_not (sym p ∙ (ap s.requests ((==_iff k i).0 same) ∙ h)))
        | inr other ↦ other-update s.requests i posted k other ∙ p
      ]
      pending_after ended p = tt

  erase_request-Inv :
      (i : ℕ)
      → s.acceptor ≡ erasing i
      → Inv (record s {
        active_secondary_requests = update s.active_secondary_requests i false;
        requests = update s.requests i joined;
        acceptor = waiting;
      })
  unfolding in_map
  erase_request-Inv i e =
      let p = subst (IsPending s.requests s.next_request_id) e inv.pending in
      set_request-Inv i joined waiting (update s.active_secondary_requests i false)
        (small_if i posted p (λ f. ground arith)) (λ f. ground arith)
        (mapped-update i false joined refl) (λ j f. ground arith) tt
        (IsEnding-waiting s.main_thread s.acceptor waiting s.active_secondary_requests _
          (λ f. ground arith) inv.ending)

  join_request-Inv :
      (i : ℕ)
      → s.main_thread ≡ joining_requests
      → s.requests i ≡ posted
      → Inv (record s {
        active_secondary_requests = update s.active_secondary_requests i false;
        requests = update s.requests i joined;
      })
  unfolding in_map
  join_request-Inv i e h =
      let over : s.acceptor ≡ ended =
        subst (λ m. IsEnding m s.acceptor s.active_secondary_requests) e inv.ending in
      set_request-Inv i joined s.acceptor (update s.active_secondary_requests i false)
        (small_if i posted h (λ f. ground arith)) (λ f. ground arith)
        (mapped-update i false joined refl) (λ j f. inl f)
        (subst (IsPending (update s.requests i joined) s.next_request_id) (sym over) tt)
        (subst (λ m. IsEnding m s.acceptor (update s.active_secondary_requests i false)) (sym e)
          over)

-- A step of the main thread.
main-Inv :
    (s : Server) (l a f c : Bool) (m : MainPhase)
    → Inv s
    → IsEnding m s.acceptor s.active_secondary_requests
    → Inv (record s {
      currently_listening = l;
      accepting = a;
      mutex_free = f;
      context_stopped = c;
      main_thread = m;
    })
main-Inv s l a f c m inv e = record {
  mapped = inv.mapped;
  unused = inv.unused;
  born = inv.born;
  pending = inv.pending;
  ending = e;
}

ended-Inv : (s : Server) → Inv s → s.acceptor ≡ waiting → Inv (record s { acceptor = ended })
ended-Inv s inv e = record {
  mapped = inv.mapped;
  unused = inv.unused;
  born =
      λ j small. no_longer s inv ended j (λ k f. waiting_not s.acceptor k e f) (inv.born j small);
  pending = tt;
  ending =
      IsEnding-waiting s.main_thread s.acceptor ended s.active_secondary_requests
        s.active_secondary_requests (λ f. ended_not s.acceptor f e) inv.ending;
}

step-Inv : {s t : Server} → Inv s → Step s t → Inv t
step-Inv {s} inv (accept_socket e stop under_way) = accept_socket-Inv s inv e
step-Inv {s} inv (accept_fails e stop under_way) = record {
  mapped = inv.mapped;
  unused = inv.unused;
  born = inv.born;
  pending = inv.pending;
  ending = inv.ending;
}
step-Inv {s} inv (start_thread i e free) = start_thread-Inv s inv i e
step-Inv {s} inv (post_task i h) = post_task-Inv s inv i h
step-Inv {s} inv (take_task i e stop h) = record {
  mapped = inv.mapped;
  unused = inv.unused;
  born = λ j small.
      no_longer s inv (erasing i) j (λ k f. waiting_not s.acceptor k e f) (inv.born j small);
  pending = h;
  ending =
      IsEnding-waiting s.main_thread s.acceptor (erasing i) s.active_secondary_requests
        s.active_secondary_requests (λ f. ended_not s.acceptor f e) inv.ending;
}
step-Inv {s} inv (erase_request i e free) = erase_request-Inv s inv i e
step-Inv {s} inv (run_returns e stop) = ended-Inv s inv e
step-Inv {s} inv (run_out_of_work e none_accepted no_task) = ended-Inv s inv e
step-Inv {s} inv (serve_primary e) = inv
step-Inv {s} inv (leave_loop e) = main-Inv s _ _ _ _ left_loop inv tt
step-Inv {s} inv (lock_mutex e free) = main-Inv s _ _ _ _ locked inv tt
step-Inv {s} inv (stop_context e) = main-Inv s _ _ _ _ stopped inv tt
step-Inv {s} inv (unlock_mutex e) = main-Inv s _ _ _ _ joining_acceptor inv tt
step-Inv {s} inv (join_acceptor e f) = main-Inv s _ _ _ _ joining_requests inv f
step-Inv {s} inv (join_request i e h p) = join_request-Inv s inv i e p
step-Inv {s} inv (return_to_caller e empty) =
    main-Inv s _ _ _ _ returned inv
      (subst (λ m. IsEnding m s.acceptor s.active_secondary_requests) e inv.ending, empty)

Reach-Inv : {s : Server} → Reach s → Inv s
Reach-Inv start = start-Inv
Reach-Inv (later r st) = step-Inv (Reach-Inv r) st

-- Outside of the map, a request has not begun or is joined.
joined_if : (p : RequestPhase) → p ≢ unborn → in_map p ≡ false → p ≡ joined
unfolding in_map
joined_if unborn new e = absurd (new refl)
joined_if handling new e = ground arith
joined_if posted new e = ground arith
joined_if joined new e = refl

has_thread : (a : AcceptorPhase) (i : ℕ) (p : RequestPhase) → a ≡ ended → IsBorn a i p → p ≢ unborn
has_thread a i p e (inl d) = d
has_thread a i p e (inr f) = ground arith

-- In every state that the threads of `receive_multi` can reach, the thread of a request that the accepting
-- thread is about to destroy has returned from its callback, so that it does not wait for a callback.
erasing-posted : {s : Server} (i : ℕ) → Reach s → s.acceptor ≡ erasing i → s.requests i ≡ posted
erasing-posted {s} i r e = subst (IsPending s.requests s.next_request_id) e (Reach-Inv r).pending

-- In every state that the threads of `receive_multi` can reach and in which it has returned, the thread that
-- accepts sockets has ended, the map is empty, and every request that was accepted has been handled to
-- the end of its callback and its thread was waited for.
pub returned-joined :
    {s : Server}
    → Reach s
    → s.main_thread ≡ returned
    → (s.acceptor ≡ ended)
      × ((i : ℕ) → s.active_secondary_requests i ≡ false)
      × ((i : ℕ) → i < s.next_request_id → s.requests i ≡ joined)
returned-joined {s} r e =
    let inv = Reach-Inv r in
    let (over, empty) =
      subst (λ m. IsEnding m s.acceptor s.active_secondary_requests) e inv.ending in
    (
      over,
      empty,
      λ i small.
          joined_if (s.requests i) (has_thread s.acceptor i (s.requests i) over (inv.born i small))
            (sym (inv.mapped i) ∙ empty i),
    )
