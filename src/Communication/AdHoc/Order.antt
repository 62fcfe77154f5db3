-- ===== src/Communication/AdHoc/Order.antt =====
-- The order of the uses of the primary socket by `AdHocSocketHandler::send`
-- (src/common/communication/common.h).
use mathlib.Core.Path.{subst}
use mathlib.Core.Option.{some-injective}
use wasivst.Prelude.Update.{update, after_update}
use wasivst.Prelude.{
  ℕ, ◌≡◌, refl, sym, ap, ◌∙◌, Bool, true, false, Option, none, some, List, [], ◌∷◌, ◌==◌, arith,
}
use wasivst.Communication.AdHoc.{
  Use, begins, uses, ends, Shared, Phase, in_callback, callback_done, first_sent, rethrown, Move,
  try_lock, try_fails, use_socket, finish, throw_primary, set_sent, unlock, connect, connect_fails,
  secondary_done, secondary_fails, fall_back, rethrow, lock, send_again, System, thread, other_side,
  Reach, start, later,
}

-- The uses of the socket, newest first, come in blocks, each of one thread; the thread of the last one,
-- if it has not ended.
pub data IsOrderly : List Use → Option ℕ → Type 0 where
  unused : IsOrderly [] none
  began : {i : ℕ} {us : List Use} → IsOrderly us none → IsOrderly (begins i ∷ us) (some i)
  used : {i : ℕ} {us : List Use} → IsOrderly us (some i) → IsOrderly (uses i ∷ us) (some i)
  ended : {i : ℕ} {us : List Use} → IsOrderly us (some i) → IsOrderly (ends i ∷ us) none

-- Whether a thread has the mutex locked.
abbrev pub inside : Phase → Bool
inside in_callback = true
inside callback_done = true
inside first_sent = true
inside _ = false

-- Whether a thread can only be there once `sent_first_event_` is set.
abbrev pub knows_sent : Phase → Bool
knows_sent rethrown = true
knows_sent first_sent = true
knows_sent _ = false

pub record Inv (m : Shared) (pc : ℕ → Phase) : Type 0 where
  pub orderly : IsOrderly m.primary m.write_mutex
  pub owner : (i : ℕ) → inside (pc i) ≡ true → m.write_mutex ≡ some i
  pub locked : (i : ℕ) → m.write_mutex ≡ some i → inside (pc i) ≡ true
  pub sent : (i : ℕ) → knows_sent (pc i) ≡ true → m.sent_first_event ≡ true

-- What a move of the thread `i` keeps for itself and for the others.
pub record Kept (i : ℕ) (m : Shared) (p : Phase) (m' : Shared) (p' : Phase) : Type 0 where
  pub orderly' : IsOrderly m'.primary m'.write_mutex
  pub mine : inside p' ≡ true → m'.write_mutex ≡ some i
  pub locked' : m'.write_mutex ≡ some i → inside p' ≡ true
  pub others : (j : ℕ) → (j == i) ≡ false → m.write_mutex ≡ some j → m'.write_mutex ≡ some j
  pub others' : (j : ℕ) → (j == i) ≡ false → m'.write_mutex ≡ some j → m.write_mutex ≡ some j
  pub sent' : knows_sent p' ≡ true → m'.sent_first_event ≡ true
  pub stays : m.sent_first_event ≡ true → m'.sent_first_event ≡ true

-- A move that leaves the mutex as it is.
abbrev Neutral : ℕ → Shared → Phase → Shared → Phase → Type 0
Neutral i m p m' p' =
    IsOrderly m'.primary m'.write_mutex
    → (inside p ≡ inside p')
    → (m.write_mutex ≡ m'.write_mutex)
    → (knows_sent p' ≡ true → m'.sent_first_event ≡ true)
    → (m.sent_first_event ≡ true → m'.sent_first_event ≡ true)
    → Kept i m p m' p'

module _ {i : ℕ} {m : Shared} {p : Phase} (h : inside p ≡ true → m.write_mutex ≡ some i)
    (k : m.write_mutex ≡ some i → inside p ≡ true) where
  neutral : {m' : Shared} → {p' : Phase} → Neutral i m p m' p'
  neutral o e f r s = record {
    orderly' = o;
    mine = λ x. sym f ∙ h (e ∙ x);
    locked' = λ x. sym e ∙ k (f ∙ x);
    others = λ j _ x. sym f ∙ x;
    others' = λ j _ x. f ∙ x;
    sent' = r;
    stays = s;
  }

  -- A move that locks the mutex.
  taken :
      {p' : Phase}
      → IsOrderly m.primary m.write_mutex
      → m.write_mutex ≡ none
      → inside p' ≡ true
      → knows_sent p' ≡ false
      → Kept i m p (record m { write_mutex = some i; primary = begins i ∷ m.primary }) p'
  taken o e l n = record {
    orderly' = began (subst (IsOrderly m.primary) e o);
    mine = λ _. refl;
    locked' = λ _. l;
    others = λ j d x. absurd (cc (e, x));
    others' = λ j d x. grind arith;
    sent' = λ r. absurd (cc (r, n));
    stays = λ s. s;
  }

  -- A move that unlocks it.
  released :
      {p' : Phase}
      → IsOrderly m.primary m.write_mutex
      → inside p ≡ true
      → inside p' ≡ false
      → knows_sent p' ≡ false
      → Kept i m p (record m { write_mutex = none; primary = ends i ∷ m.primary }) p'
  released o l f n = record {
    orderly' = ended (subst (IsOrderly m.primary) (h l) o);
    mine = λ x. absurd (cc (x, f));
    locked' = λ x. absurd (cc x);
    others = λ j d x. grind arith;
    others' = λ j d x. absurd (cc x);
    sent' = λ r. absurd (cc (r, n));
    stays = λ s. s;
  }

Move-Kept :
    (i : ℕ) {m m' : Shared} {p p' : Phase}
    → Move i m p m' p'
    → IsOrderly m.primary m.write_mutex
    → (inside p ≡ true → m.write_mutex ≡ some i)
    → (m.write_mutex ≡ some i → inside p ≡ true)
    → Kept i m p m' p'
Move-Kept i (try_lock e) o h k = taken h k o e refl refl
Move-Kept i try_fails o h k = neutral h k o refl refl (λ r. absurd (cc r)) (λ s. s)
Move-Kept i {m = m} use_socket o h k =
    neutral h k
      (subst (IsOrderly (uses i ∷ m.primary)) (sym (h refl))
        (used (subst (IsOrderly m.primary) (h refl) o)))
      refl refl (λ r. absurd (cc r)) (λ s. s)
Move-Kept i finish o h k = neutral h k o refl refl (λ r. absurd (cc r)) (λ s. s)
Move-Kept i throw_primary o h k = released h k o refl refl refl
Move-Kept i set_sent o h k = neutral h k o refl refl (λ r. refl) (λ s. refl)
Move-Kept i unlock o h k = released h k o refl refl refl
Move-Kept i (connect e) o h k = neutral h k o refl refl (λ r. absurd (cc r)) (λ s. s)
Move-Kept i connect_fails o h k = neutral h k o refl refl (λ r. absurd (cc r)) (λ s. s)
Move-Kept i secondary_done o h k = neutral h k o refl refl (λ r. absurd (cc r)) (λ s. s)
Move-Kept i secondary_fails o h k = neutral h k o refl refl (λ r. absurd (cc r)) (λ s. s)
Move-Kept i (fall_back e) o h k = neutral h k o refl refl (λ r. absurd (cc r)) (λ s. s)
Move-Kept i (rethrow e) o h k = neutral h k o refl refl (λ r. e) (λ s. s)
Move-Kept i (lock e) o h k = taken h k o e refl refl
Move-Kept i send_again o h k = neutral h k o refl refl (λ r. absurd (cc r)) (λ s. s)

Inv-update :
    {s : System}
    → {i : ℕ} → {m : Shared} → {p : Phase} → Inv s.shared s.pc
    → Kept i s.shared (s.pc i) m p
    → Inv m (update s.pc i p)
Inv-update {s} {i} {m} {p} v kept = record {
  orderly = kept.orderly';
  owner =
      after_update (λ j q. inside q ≡ true → m.write_mutex ≡ some j) s.pc i p kept.mine
        (λ j d x. kept.others j d (v.owner j x));
  locked =
      after_update (λ j q. m.write_mutex ≡ some j → inside q ≡ true) s.pc i p kept.locked'
        (λ j d x. v.locked j (kept.others' j d x));
  sent =
      after_update (λ j q. knows_sent q ≡ true → m.sent_first_event ≡ true) s.pc i p kept.sent'
        (λ j d x. kept.stays (v.sent j x));
}

pub Reach-Inv : {s : System} → Reach s → Inv s.shared s.pc
Reach-Inv start = record {
  orderly = unused;
  owner = λ i x. absurd (cc x);
  locked = λ i x. absurd (cc x);
  sent = λ i x. absurd (cc x);
}
Reach-Inv (later r (thread i mv)) =
    let v = Reach-Inv r in Inv-update v (Move-Kept i mv v.orderly (v.owner i) (v.locked i))
Reach-Inv (later r (other_side b)) =
    let v = Reach-Inv r in
    record { orderly = v.orderly; owner = v.owner; locked = v.locked; sent = v.sent }

-- Whatever the threads that send do, and in whatever order, the uses of the primary socket come in
-- blocks, each of one thread from the time at which it locks the mutex to that at which it unlocks it,
-- and no two threads are between these at the same time.
pub primary-IsOrderly :
    {s : System}
    → Reach s
    → IsOrderly s.shared.primary s.shared.write_mutex
      × ((i j : ℕ) → inside (s.pc i) ≡ true → inside (s.pc j) ≡ true → i ≡ j)
primary-IsOrderly r =
    let v = Reach-Inv r in
    (v.orderly, λ i j x y. some-injective i j (sym (v.owner i x) ∙ v.owner j y))

-- An exception on a secondary socket leaves `send` only once some thread has used the primary socket
-- without one.
pub rethrown_sent :
    {s : System} → Reach s → (i : ℕ) → s.pc i ≡ rethrown → s.shared.sent_first_event ≡ true
rethrown_sent r i e = (Reach-Inv r).sent i (ap knows_sent e)
