-- ===== src/Communication/AdHoc/Progress.antt =====
-- A thread that waits in `AdHocSocketHandler::send` (src/common/communication/common.h) can be served.
use mathlib.Core.Path.{subst}
use wasivst.Prelude.Update.{update, same-update, other-update}
use wasivst.Prelude.{
  ℕ, ◌≡◌, refl, sym, ap, ◌∙◌, Bool, true, false, Option, none, some, ◌==◌, ==_iff,
}
use wasivst.Communication.AdHoc.{
  Shared, Phase, in_callback, callback_done, first_sent, waiting, returned, before_send, connecting,
  on_secondary, caught, primary_threw, rethrown, Move, finish, set_sent, unlock, lock, System, Step,
  thread, Reach,
}
use wasivst.Communication.AdHoc.Order.{inside, knows_sent, Reach-Inv}

pub data Steps (s : System) : System → Type 0 where
  here : Steps s s
  after : {t u : System} → Steps s t → Step t u → Steps s u

abbrev moved : System → ℕ → Shared → Phase → System
moved s i m p = record { shared = m; pc = update s.pc i p }

move :
    (s : System) (i : ℕ) {p : Phase} {m : Shared} {p' : Phase}
    → s.pc i ≡ p
    → Move i s.shared p m p'
    → Step s (moved s i m p')
move s i {m} {p'} e mv = thread i (subst (λ q. Move i s.shared q m p') (sym e) mv)

-- A state that follows in which the thread has unlocked the mutex, and no other thread has moved.
Freed : System → ℕ → Type 0
Freed s j =
    (t : System) × Steps s t
    × (t.shared.write_mutex ≡ none)
    × (t.shared.sent_first_event ≡ true)
    × ((k : ℕ) → (k == j) ≡ false → t.pc k ≡ s.pc k)

-- One step more before.
module _ (s : System) (j : ℕ) {p p' : Phase} {m : Shared} (e : s.pc j ≡ p)
    (mv : Move j s.shared p m p') where
  prepend : {t : System} → Steps (moved s j m p') t → Steps s t
  prepend here = after here (move s j e mv)
  prepend (after sts st) = after (prepend sts) st

  Freed-move : Freed (moved s j m p') j → Freed s j
  unfolding Freed
  Freed-move (t, sts, free, sent, same) =
      (t, prepend sts, free, sent, λ k d. same k d ∙ other-update s.pc j p' k d)

free_first_sent :
    (s : System) (j : ℕ) → s.pc j ≡ first_sent → s.shared.sent_first_event ≡ true → Freed s j
unfolding Freed
free_first_sent s j e sent =
    (_, after here (move s j e unlock), refl, sent, λ k d. other-update s.pc j returned k d)

free_callback_done : (s : System) (j : ℕ) → s.pc j ≡ callback_done → Freed s j
free_callback_done s j e =
    Freed-move s j e set_sent (free_first_sent _ j (same-update s.pc j first_sent) refl)

free_in_callback : (s : System) (j : ℕ) → s.pc j ≡ in_callback → Freed s j
free_in_callback s j e =
    Freed-move s j e finish (free_callback_done _ j (same-update s.pc j callback_done))

free_inside :
    (s : System) (j : ℕ) (p : Phase)
    → s.pc j ≡ p
    → inside p ≡ true
    → (knows_sent p ≡ true → s.shared.sent_first_event ≡ true)
    → Freed s j
free_inside s j in_callback e h k = free_in_callback s j e
free_inside s j callback_done e h k = free_callback_done s j e
free_inside s j first_sent e h k = free_first_sent s j e (k refl)
free_inside s j before_send e h k = absurd (cc h)
free_inside s j connecting e h k = absurd (cc h)
free_inside s j on_secondary e h k = absurd (cc h)
free_inside s j caught e h k = absurd (cc h)
free_inside s j waiting e h k = absurd (cc h)
free_inside s j returned e h k = absurd (cc h)
free_inside s j primary_threw e h k = absurd (cc h)
free_inside s j rethrown e h k = absurd (cc h)

-- The state in which the thread that waited is in its callback on the primary socket.
Served : System → ℕ → Type 0
Served s i = (t : System) × Steps s t × (t.shared.write_mutex ≡ some i) × (t.pc i ≡ in_callback)

serve_from :
    (s t : System) (i : ℕ) → Steps s t → t.shared.write_mutex ≡ none → t.pc i ≡ waiting → Served s i
unfolding Served
serve_from s t i sts free e =
    (_, after sts (move t i e (lock free)), refl, same-update t.pc i in_callback)

serve_owned :
    (s : System) (i : ℕ)
    → s.pc i ≡ waiting
    → (o : Option ℕ) → s.shared.write_mutex ≡ o
    → ((j : ℕ) → s.shared.write_mutex ≡ some j → Freed s j × (inside (s.pc j) ≡ true))
    → Served s i
unfolding Freed
serve_owned s i e none free owner = serve_from s s i here free e
serve_owned s i e (some j) held owner =
    let ((t, sts, free, _, same), h) = owner j held in
    serve_from s t i sts free (same i (apart (i == j) refl h) ∙ e)
  where
    apart : (b : Bool) → (i == j) ≡ b → inside (s.pc j) ≡ true → (i == j) ≡ false
    apart false d h = d
    apart true d h = absurd (cc (h, ap inside (ap s.pc (sym ((==_iff i j).0 d)) ∙ e)))

-- From every state that threads which send can reach, and in which a thread waits for the mutex, steps
-- lead to one in which that thread is in its callback on the primary socket and has the mutex locked.
pub waiting-Served :
    {s : System}
    → Reach s
    → (i : ℕ) → s.pc i ≡ waiting
    → (t : System) × Steps s t × (t.shared.write_mutex ≡ some i) × (t.pc i ≡ in_callback)
unfolding Served
waiting-Served {s} r i e =
    let v = Reach-Inv r in
    serve_owned s i e s.shared.write_mutex refl
      (λ j held. (free_inside s j (s.pc j) refl (v.locked j held) (v.sent j), v.locked j held))
