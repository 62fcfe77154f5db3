-- ===== src/MutualRecursion/Order.antt =====
-- The stack of src/common/mutual-recursion.h: the contexts whose function has not returned, in the order in
-- which they were made.
use mathlib.Core.Bool.{true≢false}
use wasivst.Prelude.{
  ◌≢◌, ℕ, zero, suc, ◌≡◌, ◌≤◌, ◌<◌, refl, sym, ap, ◌∙◌, Bool, true, false, some, List, [], ◌∷◌,
  ◌++◌, ◌==◌, Bool-cases, inl, inr, ==_iff, ==_refl, arith, append-nil,
}
use wasivst.Prelude.Update.{update, same-update, other-update, after_update}
use wasivst.MutualRecursion.{
  Run, starting, blocked, executing, run_returned, Context, Helper, erase, back, count, unreturned,
  latest, place_for, Step, push_context, make_guard, fn_returns, begin_task, end_task,
  return_from_run, handle_directly, handle_inside, handle_dispatched, Reach, start, later,
}
use wasivst.MutualRecursion.Counts.{count-append, back_last, erase-append_right, erase-append_left}

abbrev is_unreturned : Context → Bool
is_unreturned x = unreturned x.run x.work_guard

unfoldable pub one_if : Bool → ℕ → List ℕ
one_if true n = n ∷ []
one_if false n = []

unfoldable pub open_below : (ℕ → Context) → ℕ → List ℕ
open_below contexts zero = []
open_below contexts (suc n) = open_below contexts n ++ one_if (is_unreturned (contexts n)) n

back-open_below : (f : ℕ → Context) (n : ℕ) → back (open_below f n) ≡ latest f n
unfolding back open_below latest one_if
back-open_below f zero = refl
back-open_below f (suc n) = elim (Bool-cases (is_unreturned (f n))) [
  | inl e ↦ rw e (back_last (open_below f n) n)
  | inr d ↦ rw d (ap back (append-nil (open_below f n)) ∙ back-open_below f n)
]

open_below_same :
    (f g : ℕ → Context) (n : ℕ)
    → ((i : ℕ) → i < n → is_unreturned (f i) ≡ is_unreturned (g i))
    → open_below f n ≡ open_below g n
unfolding open_below
open_below_same f g zero h = refl
open_below_same f g (suc n) h =
    ap (λ b. open_below f n ++ one_if b n) (h n (omega arith))
    ∙ ap (λ xs. xs ++ one_if (is_unreturned (g n)) n)
        (open_below_same f g n (λ i b. h i (omega (arith, b))))

count-one_if : (c n : ℕ) (b : Bool) → (c == n) ≡ false → count c (one_if b n) ≡ 0
unfolding count one_if
count-one_if c n true d = rw d refl
count-one_if c n false d = refl

above : (c n : ℕ) → suc n ≤ c → (c == n) ≡ false
above c n h = ground arith

count-open_below : (f : ℕ → Context) (c n : ℕ) → n ≤ c → count c (open_below f n) ≡ 0
unfolding open_below count
count-open_below f c zero h = refl
count-open_below f c (suc n) h = omega (
  arith,
  count-append c (open_below f n) (one_if (is_unreturned (f n)) n),
  count-open_below f c n (omega (arith, h)),
  count-one_if c n (is_unreturned (f n)) (above c n h),
)

erase-one_if : (c : ℕ) (b : Bool) → erase c (one_if b c) ≡ []
unfolding erase one_if
erase-one_if c true = rw (==_refl c) refl
erase-one_if c false = refl

below_other : (i c n : ℕ) → i < n → (c == n) ≡ true → (i == c) ≡ false
below_other i c n h e = ground arith

flipped : (c n : ℕ) → (c == n) ≡ false → (n == c) ≡ false
flipped c n d = ground arith

-- A context whose function returns is erased.
open_below-erase :
    (f : ℕ → Context) (c : ℕ) (x : Context) (n : ℕ)
    → is_unreturned x ≡ false
    → open_below (update f c x) n ≡ erase c (open_below f n)
unfolding open_below one_if erase
open_below-erase f c x zero h = refl
open_below-erase f c x (suc n) h = elim (Bool-cases (c == n)) [
  | inl e ↦
      let same : c ≡ n = (==_iff c n).0 e in
      let closed : is_unreturned (update f c x n) ≡ false =
        ap (λ i. is_unreturned (update f c x i)) (sym same)
        ∙ (ap is_unreturned (same-update f c x) ∙ h) in
      ap (λ b. open_below (update f c x) n ++ one_if b n) closed
      ∙ (append-nil (open_below (update f c x) n)
          ∙ (open_below_same (update f c x) f n
                (λ i b. ap is_unreturned (other-update f c x i (below_other i c n b e)))
              ∙ (sym (append-nil (open_below f n))
                  ∙ (ap (λ ys. open_below f n ++ ys) (sym (erase-one_if c (is_unreturned (f n))))
                      ∙ (ap (λ i. open_below f n ++ erase c (one_if (is_unreturned (f n)) i)) same
                          ∙ sym (
                              erase-append_right c (open_below f n) (one_if (is_unreturned (f n)) n)
                                (count-open_below f c n (omega (arith, same)))))))))
  | inr d ↦
      ap (λ y. open_below (update f c x) n ++ one_if (is_unreturned y) n)
        (other-update f c x n (flipped c n d))
      ∙ (ap (λ xs. xs ++ one_if (is_unreturned (f n)) n) (open_below-erase f c x n h)
          ∙ sym (
              erase-append_left c (open_below f n) (one_if (is_unreturned (f n)) n)
                (count-one_if c n (is_unreturned (f n)) d)))
]

-- Of the contexts, how many are made and the stack.
pub record Ordered (contexts : ℕ → Context) (made : ℕ) (stack : List ℕ) : Type 0 where
  pub in_order : stack ≡ open_below contexts made
  pub early : (c : ℕ) → (contexts c).run ≡ starting → (contexts c).work_guard ≡ false

abbrev pub OrderedOf : Helper → Type 0
OrderedOf s = Ordered s.contexts s.made s.stack

high : (i n : ℕ) → i < n → (i == n) ≡ false
high i n h = ground arith

module _ {contexts : ℕ → Context} {made : ℕ} {stack : List ℕ}
    (o : Ordered contexts made stack) where
  -- A context is changed, but whether its function has returned.
  Ordered-set :
      (c : ℕ) (x : Context)
      → is_unreturned x ≡ is_unreturned (contexts c)
      → (x.run ≡ starting → x.work_guard ≡ false)
      → Ordered (update contexts c x) made stack
  Ordered-set c x same early = record {
    in_order =
        o.in_order
        ∙ open_below_same contexts (update contexts c x) made (λ i _.
          after_update (λ j y. is_unreturned (contexts j) ≡ is_unreturned y) contexts c x (sym same)
            (λ j _. refl) i);
    early =
        after_update (λ _ y. y.run ≡ starting → y.work_guard ≡ false) contexts c x early
          (λ j _. o.early j);
  }

  Ordered-push :
      (t : ℕ)
      → let x : Context = record { caller = t; work_guard = false; tasks = []; run = starting } in
        Ordered (update contexts made x) (suc made) (stack ++ made ∷ [])
  unfolding open_below one_if unreturned
  Ordered-push t =
      let x : Context = record { caller = t; work_guard = false; tasks = []; run = starting } in
      record {
        in_order =
            ap (λ xs. xs ++ made ∷ [])
              (o.in_order
                ∙ open_below_same contexts (update contexts made x) made (λ i b.
                  ap is_unreturned (sym (other-update contexts made x i (high i made b)))))
            ∙ ap (λ y. open_below (update contexts made x) made ++ one_if (is_unreturned y) made)
                (sym (same-update contexts made x));
        early =
            after_update (λ _ y. y.run ≡ starting → y.work_guard ≡ false) contexts made x
              (λ _. refl) (λ j _. o.early j);
      }

  -- A function returns.
  Ordered-return :
      (c : ℕ)
      → (contexts c).work_guard ≡ true
      → Ordered
          (update contexts c (record (contexts c) { work_guard = false }))
          made
          (erase c stack)
  unfolding unreturned
  Ordered-return c g =
      let x : Context = record (contexts c) { work_guard = false } in
      record {
        in_order =
            ap (erase c) o.in_order
            ∙ sym (
                open_below-erase contexts c x made
                  (go (contexts c).run (λ e. true≢false (sym g ∙ o.early c e))));
        early =
            after_update (λ _ y. y.run ≡ starting → y.work_guard ≡ false) contexts c x (λ _. refl)
              (λ j _. o.early j);
      }
    where
      go : (r : Run) → r ≢ starting → unreturned r false ≡ false
      go starting n = absurd (n refl)
      go blocked n = refl
      go (executing _) n = refl
      go run_returned n = refl

  -- The back of the stack, if there is one, is the last context whose function has not returned.
  back-latest : back stack ≡ latest contexts made
  back-latest = ap back o.in_order ∙ back-open_below contexts made

unreturned_if : (r : Run) (x : Context) → x.run ≡ r → unreturned r x.work_guard ≡ is_unreturned x
unreturned_if r x e = ap (λ q. unreturned q x.work_guard) (sym e)

Step-Ordered : {s s' : Helper} → Step s s' → OrderedOf s → OrderedOf s'
unfolding unreturned
Step-Ordered {s} (push_context t free) o = Ordered-push o t
Step-Ordered {s} (make_guard c e) o =
    Ordered-set o c _ (unreturned_if starting (s.contexts c) e) (λ f. ground arith)
Step-Ordered {s} (fn_returns c g) o = Ordered-return o c g
Step-Ordered {s} (begin_task c k ks f e q) o =
    Ordered-set o c _ (unreturned_if blocked (s.contexts c) e) (λ f. ground arith)
Step-Ordered {s} (end_task c k f w e) o =
    Ordered-set o c _ (unreturned_if (executing k) (s.contexts c) e) (λ f. ground arith)
Step-Ordered {s} (return_from_run c f e q g) o =
    Ordered-set o c _ (unreturned_if blocked (s.contexts c) e) (λ f. ground arith)
Step-Ordered (handle_directly t free e) o = o
Step-Ordered (handle_inside t c free b h) o = o
Step-Ordered {s} (handle_dispatched t c free b h) o = Ordered-set o c _ refl (o.early c)

pub Reach-Ordered : {s : Helper} → Reach s → OrderedOf s
unfolding open_below
Reach-Ordered start = record { in_order = refl; early = λ c e. refl }
Reach-Ordered (later r st) = Step-Ordered st (Reach-Ordered r)

pub place_for-back :
    (s : Helper) (t c : ℕ)
    → OrderedOf s
    → back s.stack ≡ some c
    → place_for s t ≡ (s.contexts c).caller
unfolding place_for
place_for-back s t c o e = rw (sym (back-latest o) ∙ e, place_for) refl

pub place_for_alone : (s : Helper) (t : ℕ) → OrderedOf s → s.stack ≡ [] → place_for s t ≡ t
unfolding place_for back
place_for_alone s t o e = rw (sym (back-latest o) ∙ ap back e, place_for) refl
