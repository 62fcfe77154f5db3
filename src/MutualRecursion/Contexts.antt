-- ===== src/MutualRecursion/Contexts.antt =====
-- The contexts of src/common/mutual-recursion.h: those on the stack take tasks, and a thread is in the
-- `fork` of those that it called.
use mathlib.Core.Path.{subst}
use wasivst.Prelude.{
  ℕ, suc, ◌≡◌, ◌≢◌, ◌≤◌, ◌<◌, refl, sym, ap, ◌∙◌, Bool, true, false, List, [], ◌∷◌, ◌++◌, ◌==◌,
  Bool-cases, inl, inr, ==_iff, arith, ltb, ltb→lt,
}
use wasivst.Prelude.Update.{update, after_update}
use wasivst.MutualRecursion.{
  Run, starting, blocked, executing, run_returned, Context, unmade, Helper, count, Step,
  push_context, make_guard, fn_returns, begin_task, end_task, return_from_run, handle_directly,
  handle_inside, handle_dispatched, Reach, start, later,
}
use wasivst.MutualRecursion.Counts.{
  count-append, count_self, count_other, count-erase_same, count-back, count_tail, count-erase_le,
}

-- Whether `run` will not return before it has executed what is dispatched.
abbrev pub is_open : Run → Bool → Bool
is_open starting g = true
is_open blocked g = g
is_open (executing _) g = g
is_open run_returned g = false

-- Of the contexts, how many are made, the stack and the frames of the threads.
pub record Inv (contexts : ℕ → Context) (made : ℕ) (stack : List ℕ) (frames : ℕ → List ℕ)
    : Type 0 where
  pub fresh : (c : ℕ) → made ≤ c → contexts c ≡ unmade
  pub once : (c : ℕ) → count c stack ≤ 1
  pub alive : (c : ℕ) → 0 < count c stack → is_open (contexts c).run (contexts c).work_guard ≡ true
  pub empty : (c : ℕ) → (contexts c).run ≡ run_returned → (contexts c).tasks ≡ []
  pub owned : (t c : ℕ) → 0 < count c (frames t) → ((contexts c).caller ≡ t) × (c < made)

module _ {contexts : ℕ → Context} {made : ℕ} {stack : List ℕ} {frames : ℕ → List ℕ}
    (v : Inv contexts made stack frames) where
  open_made : (c : ℕ) → contexts c ≢ unmade → c < made
  open_made c h = elim (Bool-cases (ltb c made)) [
    | inl e ↦ ltb→lt c made e
    | inr d ↦ absurd (h (v.fresh c (ground arith)))
  ]

  -- One context is changed, and nothing is added to the stack and the frames.
  Inv-set :
      {stack' : List ℕ}
      → {frames' : ℕ → List ℕ} → (c : ℕ) (x : Context) → contexts c ≢ unmade
      → x.caller ≡ (contexts c).caller
      → (x.run ≡ run_returned → x.tasks ≡ [])
      → ((j : ℕ) → count j stack' ≤ count j stack)
      → (0 < count c stack' → is_open x.run x.work_guard ≡ true)
      → ((t j : ℕ) → count j (frames' t) ≤ count j (frames t))
      → Inv (update contexts c x) made stack' frames'
  Inv-set {stack'} {frames'} c x known same ends less opened inner = record {
    fresh =
        after_update (λ j y. made ≤ j → y ≡ unmade) contexts c x (λ h. absurd (known (v.fresh c h)))
          (λ j _ h. v.fresh j h);
    once = λ j. omega (arith, v.once j, less j);
    alive =
        after_update (λ j y. 0 < count j stack' → is_open y.run y.work_guard ≡ true) contexts c x
          opened (λ j _ h. v.alive j (omega (arith, h, less j)));
    empty =
        after_update (λ j y. y.run ≡ run_returned → y.tasks ≡ []) contexts c x ends
          (λ j _ h. v.empty j h);
    owned = λ t.
        after_update (λ j y. 0 < count j (frames' t) → (y.caller ≡ t) × (j < made)) contexts c x
          (λ h. let (o, b) = v.owned t c (omega (arith, h, inner t c)) in (same ∙ o, b))
          (λ j _ h. v.owned t j (omega (arith, h, inner t j)));
  }

  off_stack : (c : ℕ) → is_open (contexts c).run (contexts c).work_guard ≡ false → count c stack ≡ 0
  off_stack c shut = elim (Bool-cases (ltb 0 (count c stack))) [
    | inl e ↦ absurd (cc (v.alive c (ltb→lt 0 _ e), shut))
    | inr d ↦ ground arith
  ]

  made_off_stack : count made stack ≡ 0
  made_off_stack =
      off_stack made (ap (λ x. is_open x.run x.work_guard) (v.fresh made (omega arith)))

  module _ (t : ℕ) where
    abbrev pushed : Context
    pushed = record { caller = t; work_guard = false; tasks = []; run = starting }

    abbrev frames' : ℕ → List ℕ
    frames' = update frames t (made ∷ frames t)

    other_frames :
        (j : ℕ) → (j == made) ≡ false → (t' : ℕ) → count j (frames' t') ≡ count j (frames t')
    other_frames j d =
        after_update (λ u l. count j l ≡ count j (frames u)) frames t (made ∷ frames t)
          (count_other j made (frames t) d) (λ u _. refl)

    made_owned : (t' : ℕ) → 0 < count made (frames' t') → t ≡ t'
    made_owned =
        after_update (λ u l. 0 < count made l → t ≡ u) frames t (made ∷ frames t) (λ _. refl)
          (λ u _ h. absurd (omega (arith, (v.owned u made h).1)))

    other_stack : (j : ℕ) → (j == made) ≡ false → count j (stack ++ made ∷ []) ≡ count j stack
    unfolding count
    other_stack j d = omega (arith, count-append j stack (made ∷ []), count_other j made [] d)

    once_pushed : (j : ℕ) → count j (stack ++ made ∷ []) ≤ 1
    unfolding count
    once_pushed j = elim (Bool-cases (j == made)) [
      | inl e ↦
          subst (λ k. count k (stack ++ made ∷ []) ≤ 1) (sym ((==_iff j made).0 e))
            (omega (arith, count-append made stack (made ∷ []), count_self made [], made_off_stack))
      | inr d ↦ omega (arith, other_stack j d, v.once j)
    ]

    Inv-push : Inv (update contexts made pushed) (suc made) (stack ++ made ∷ []) frames'
    Inv-push = record {
      fresh =
          after_update (λ j y. suc made ≤ j → y ≡ unmade) contexts made pushed
            (λ h. absurd (omega (arith, h))) (λ j _ h. v.fresh j (omega (arith, h)));
      once = once_pushed;
      alive =
          after_update (λ j y. 0 < count j (stack ++ made ∷ []) → is_open y.run y.work_guard ≡ true)
            contexts made pushed (λ _. refl)
            (λ j d h. v.alive j (omega (arith, h, other_stack j d)));
      empty =
          after_update (λ j y. y.run ≡ run_returned → y.tasks ≡ []) contexts made pushed (λ _. refl)
            (λ j _ h. v.empty j h);
      owned = λ t'.
          after_update (λ j y. 0 < count j (frames' t') → (y.caller ≡ t') × (j < suc made)) contexts
            made pushed (λ h. (made_owned t' h, omega arith))
            (λ j d h.
              let (o, b) = v.owned t' j (omega (arith, h, other_frames j d t')) in
              (o, omega (arith, b)));
    }

abbrev pub InvOf : Helper → Type 0
InvOf s = Inv s.contexts s.made s.stack s.frames

-- A context whose `run` has not returned has been made.
running : (x : Context) (r : Run) → x.run ≡ r → r ≢ run_returned → x ≢ unmade
running x r e n u = n (sym e ∙ ap (λ y. y.run) u)

pub Step-Inv : {s s' : Helper} → Step s s' → InvOf s → InvOf s'
Step-Inv (push_context t free) v = Inv-push v t
Step-Inv {s} (make_guard c e) v =
    Inv-set v c _ (running (s.contexts c) starting e (λ h. absurd (cc h))) refl (λ h. absurd (cc h))
      (λ j. omega arith) (λ _. refl) (λ t j. omega arith)
Step-Inv {s} (fn_returns c g) v =
    Inv-set v c _ (λ u. absurd (cc (g, ap (λ y. y.work_guard) u))) refl (v.empty c)
      (count-erase_le c s.stack)
      (λ h. absurd (omega (arith, h, count-erase_same c s.stack, v.once c))) (λ t j. omega arith)
Step-Inv {s} (begin_task c k ks f e q) v =
    Inv-set v c _ (running (s.contexts c) blocked e (λ h. absurd (cc h))) refl (λ h. absurd (cc h))
      (λ j. omega arith) (λ h. sym (ap (λ r. is_open r (s.contexts c).work_guard) e) ∙ v.alive c h)
      (λ t j. omega arith)
Step-Inv {s} (end_task c k f w e) v =
    Inv-set v c _ (running (s.contexts c) (executing k) e (λ h. absurd (cc h))) refl
      (λ h. absurd (cc h)) (λ j. omega arith)
      (λ h. sym (ap (λ r. is_open r (s.contexts c).work_guard) e) ∙ v.alive c h)
      (λ t j. omega arith)
Step-Inv {s} (return_from_run c {cs = cs} f e q g) v =
    Inv-set v c _ (running (s.contexts c) blocked e (λ h. absurd (cc h))) refl (λ _. q)
      (λ j. omega arith)
      (λ h.
        absurd
          (omega (arith, h, off_stack v c (ap (λ r. is_open r (s.contexts c).work_guard) e ∙ g))))
      (λ t j.
        after_update (λ u l. count j l ≤ count j (s.frames u)) s.frames (s.contexts c).caller cs
          (omega (arith, count_tail j c cs, ap (count j) f)) (λ u _. omega arith) t)
Step-Inv (handle_directly t free e) v = v
Step-Inv (handle_inside t c free b h) v = v
Step-Inv {s} (handle_dispatched t c free b h) v =
    let o = v.alive c (count-back s.stack c b) in
    Inv-set v c _ (λ u. absurd (cc (o, ap (λ x. is_open x.run x.work_guard) u))) refl
      (λ e. absurd (cc (o, ap (λ r. is_open r (s.contexts c).work_guard) e))) (λ j. omega arith)
      (λ _. o) (λ t j. omega arith)

pub Reach-Inv : {s : Helper} → Reach s → InvOf s
unfolding count
Reach-Inv start = record {
  fresh = λ _ _. refl;
  once = λ _. omega arith;
  alive = λ _ h. absurd (omega (arith, h));
  empty = λ _ _. refl;
  owned = λ _ _ h. absurd (omega (arith, h));
}
Reach-Inv (later r st) = Step-Inv st (Reach-Inv r)
