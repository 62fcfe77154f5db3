-- ===== src/MutualRecursion/Ledger.antt =====
-- Where the tasks that are handed to `MutualRecursionHelper::handle` (src/common/mutual-recursion.h)
-- are executed.
use mathlib.Core.Path.{subst}
use wasivst.Prelude.{
  ℕ, suc, ◌≡◌, ◌≢◌, ◌<◌, refl, sym, ap, ◌∙◌, true, false, Option, some, List, [], ◌∷◌, ◌++◌, ◌==◌,
  ◌⊎◌, Bool-cases, inl, inr, ==_iff, arith,
}
use wasivst.Prelude.Update.{update, same-update, other-update, after_update}
use wasivst.MutualRecursion.{
  Run, executing, run_returned, Context, Helper, count, Step, push_context, make_guard, fn_returns,
  place_for, begin_task, end_task, return_from_run, handle_directly, handle_inside,
  handle_dispatched, Reach, start, later,
}
use wasivst.MutualRecursion.Counts.{count-append, count_self, count_other, count_tail}
use wasivst.MutualRecursion.Order.{OrderedOf, Reach-Ordered, place_for-back, place_for_alone}
use wasivst.MutualRecursion.Contexts.{is_open, InvOf, Reach-Inv}

-- The tasks that are dispatched belong to the thread that called `fork` for their context.
abbrev Queued : (ℕ → Context) → (handed : ℕ) (place : ℕ → ℕ) → Type 0
Queued contexts handed place =
    (c k : ℕ) → 0 < count k (contexts c).tasks → ((contexts c).caller ≡ place k) × (k < handed)

abbrev Located : (ℕ → Context) → (begun : ℕ → Option ℕ) (place : ℕ → ℕ) → ℕ → Type 0
Located contexts begun place k =
    (begun k ≡ some (place k)) ⊎ ((c : ℕ) × (0 < count k (contexts c).tasks))

record Ledger (contexts : ℕ → Context) (handed : ℕ) (place : ℕ → ℕ) (begun : ℕ → Option ℕ)
    : Type 0 where
  queued : Queued contexts handed place
  located : (k : ℕ) → k < handed → Located contexts begun place k

apart : (k n : ℕ) → k < n → (k == n) ≡ false
apart k n h = ground arith

module _ {contexts : ℕ → Context} {handed : ℕ} {place : ℕ → ℕ} {begun : ℕ → Option ℕ}
    (v : Ledger contexts handed place begun) where
  -- One context is changed, but not its tasks, and its caller only if it has none.
  Ledger-set :
      (c : ℕ) (x : Context)
      → ((k : ℕ) → 0 < count k x.tasks → x.caller ≡ (contexts c).caller)
      → x.tasks ≡ (contexts c).tasks
      → Ledger (update contexts c x) handed place begun
  Ledger-set c x same kept = record {
    queued = λ i k.
        after_update (λ _ y. 0 < count k y.tasks → (y.caller ≡ place k) × (k < handed)) contexts c x
          (λ h.
            let (o, b) = v.queued c k (omega (arith, h, ap (count k) kept)) in (same k h ∙ o, b))
          (λ j _ h. v.queued j k h) i;
    located = λ k b. kept_at k (v.located k b);
  }
    where
      kept_at :
          (k : ℕ) → Located contexts begun place k → Located (update contexts c x) begun place k
      kept_at k (inl e) = inl e
      kept_at k (inr (i, h)) = inr (
        i,
        after_update (λ i' y. 0 < count k (contexts i').tasks → 0 < count k y.tasks) contexts c x
            (λ h'. omega (arith, h', ap (count k) kept)) (λ _ _ h'. h') i h,
      )

  -- A thread executes a task that it hands over.
  Ledger-direct :
      (t p : ℕ)
      → t ≡ p
      → Ledger contexts (suc handed) (update place handed p) (update begun handed (some t))
  Ledger-direct t p e = record {
    queued = λ i k h.
        let (o, b) = v.queued i k h in
        (o ∙ sym (other-update place handed p k (apart k handed b)), omega (arith, b));
    located = λ k b. elim (Bool-cases (k == handed)) [
      | inl s ↦ inl (rw s (ap some e))
      | inr d ↦ earlier k d (v.located k (ground arith))
    ];
  }
    where
      earlier :
          (k : ℕ)
          → (k == handed) ≡ false
          → Located contexts begun place k
          → Located contexts (update begun handed (some t)) (update place handed p) k
      earlier k d (inl x) = inl (rw d x)
      earlier k d (inr q) = inr q

  module _ (c : ℕ) where
    abbrev queued_one : Context
    queued_one = record (contexts c) { tasks = (contexts c).tasks ++ handed ∷ [] }

    last_queued : (k : ℕ) → (k == handed) ≡ true → 0 < count k queued_one.tasks
    last_queued k e =
        subst (λ j. 0 < count j queued_one.tasks) (sym ((==_iff k handed).0 e))
          (omega
            (arith, count-append handed (contexts c).tasks (handed ∷ []), count_self handed []))

    not_last :
        (k : ℕ) → (k == handed) ≡ false → count k queued_one.tasks ≡ count k (contexts c).tasks
    unfolding count
    not_last k d =
        omega (arith, count-append k (contexts c).tasks (handed ∷ []), count_other k handed [] d)

    abbrev place' : ℕ → ℕ
    place' = update place handed (contexts c).caller

    belongs :
        (k : ℕ) → 0 < count k queued_one.tasks → ((contexts c).caller ≡ place' k) × (k < suc handed)
    belongs k h = elim (Bool-cases (k == handed)) [
      | inl e ↦ (rw e refl, ground arith)
      | inr d ↦
          let (o, b) = v.queued c k (omega (arith, h, not_last k d)) in
          (o ∙ sym (other-update place handed (contexts c).caller k d), omega (arith, b))
    ]

    grown :
        (k i : ℕ)
        → 0 < count k (contexts i).tasks
        → 0 < count k (update contexts c queued_one i).tasks
    grown k =
        after_update (λ i y. 0 < count k (contexts i).tasks → 0 < count k y.tasks) contexts c
          queued_one (λ h. omega (arith, h, count-append k (contexts c).tasks (handed ∷ [])))
          (λ _ _ h. h)

    Ledger-dispatch : Ledger (update contexts c queued_one) (suc handed) place' begun
    Ledger-dispatch = record {
      queued = λ i k.
          after_update (λ _ y. 0 < count k y.tasks → (y.caller ≡ place' k) × (k < suc handed))
            contexts c queued_one (belongs k)
            (λ j _ h.
              let (o, b) = v.queued j k h in
              (o ∙ sym (other-update place handed _ k (apart k handed b)), omega (arith, b)))
            i;
      located = λ k b. elim (Bool-cases (k == handed)) [
        | inl e ↦ inr (
          c,
          subst (λ y. 0 < count k y.tasks) (sym (same-update contexts c queued_one))
              (last_queued k e),
        )
        | inr d ↦ earlier k d (v.located k (ground arith))
      ];
    }
      where
        earlier :
            (k : ℕ)
            → (k == handed) ≡ false
            → Located contexts begun place k
            → Located (update contexts c queued_one) begun place' k
        earlier k d (inl x) = inl (x ∙ ap some (sym (other-update place handed _ k d)))
        earlier k d (inr (i, h)) = inr (i, grown k i h)

  module _ (c k : ℕ) (ks : List ℕ) (r : Run) (q : (contexts c).tasks ≡ k ∷ ks) where
    abbrev drained : ℕ → Context
    drained = update contexts c (record (contexts c) { tasks = ks; run = r })

    mine : (contexts c).caller ≡ place k
    mine = (v.queued c k (omega (arith, count_self k ks, ap (count k) q))).0

    other :
        (j : ℕ)
        → (j == k) ≡ false
        → Located contexts begun place j
        → Located drained (update begun k (some (contexts c).caller)) place j
    other j d (inl e) = inl (rw d e)
    other j d (inr (i, h)) = inr (
      i,
      after_update (λ i' y. 0 < count j (contexts i').tasks → 0 < count j y.tasks) contexts c _
          (λ h'. omega (arith, h', count_other j k ks d, ap (count j) q)) (λ _ _ h'. h') i h,
    )

    Ledger-begin : Ledger drained handed place (update begun k (some (contexts c).caller))
    Ledger-begin = record {
      queued = λ i j.
          after_update (λ _ y. 0 < count j y.tasks → (y.caller ≡ place j) × (j < handed)) contexts c
            _ (λ h. v.queued c j (omega (arith, h, count_tail j k ks, ap (count j) q)))
            (λ i' _ h. v.queued i' j h) i;
      located = λ j b. elim (Bool-cases (j == k)) [
        | inl e ↦ inl (rw e (ap some (mine ∙ ap place (sym ((==_iff j k).0 e)))))
        | inr d ↦ other j d (v.located j b)
      ];
    }

abbrev LedgerOf : Helper → Type 0
LedgerOf s = Ledger s.contexts s.handed s.place s.begun

Step-Ledger : {s s' : Helper} → Step s s' → InvOf s → OrderedOf s → LedgerOf s → LedgerOf s'
unfolding count
Step-Ledger {s} (push_context t free) v o l =
    Ledger-set l s.made _ (λ k h. absurd (omega (arith, h)))
      (sym (ap (λ x. x.tasks) (v.fresh s.made (omega arith))))
Step-Ledger (make_guard c e) v o l = Ledger-set l c _ (λ _ _. refl) refl
Step-Ledger (fn_returns c g) v o l = Ledger-set l c _ (λ _ _. refl) refl
Step-Ledger (begin_task c k ks f e q) v o l = Ledger-begin l c k ks (executing k) q
Step-Ledger (end_task c k f w e) v o l = Ledger-set l c _ (λ _ _. refl) refl
Step-Ledger (return_from_run c f e q g) v o l = Ledger-set l c _ (λ _ _. refl) refl
Step-Ledger {s} (handle_directly t free e) v o l =
    Ledger-direct l t (place_for s t) (sym (place_for_alone s t o e))
Step-Ledger {s} (handle_inside t c free b h) v o l =
    Ledger-direct l t (place_for s t) (sym (place_for-back s t c o b ∙ (v.owned t c h).0))
Step-Ledger {s} (handle_dispatched t c free b h) v o l =
    subst
      (λ p.
        Ledger (update s.contexts c (queued_one l c)) (suc s.handed) (update s.place s.handed p)
          s.begun)
      (sym (place_for-back s t c o b)) (Ledger-dispatch l c)

Reach-Ledger : {s : Helper} → Reach s → LedgerOf s
unfolding count
Reach-Ledger start = record {
  queued = λ _ _ h. absurd (omega (arith, h));
  located = λ _ h. absurd (omega (arith, h));
}
Reach-Ledger (later r st) = Step-Ledger st (Reach-Inv r) (Reach-Ordered r) (Reach-Ledger r)

-- In every state that threads which call `fork` and `handle` can reach, each task that was handed over
-- is begun, by the thread that was the last to call `fork` of those whose function had not returned
-- then, or by the thread that handed it over if there was none; or it is queued for the context of a
-- `fork` that the former thread has called, and the `run` of that context has not returned.
pub handled_kept :
    {s : Helper}
    → Reach s
    → (k : ℕ) → k < s.handed
    → (s.begun k ≡ some (s.place k))
      ⊎ ((c : ℕ) × (0 < count k (s.contexts c).tasks)
          × ((s.contexts c).caller ≡ s.place k)
          × ((s.contexts c).run ≢ run_returned))
unfolding count
handled_kept {s} r k b = elim (l.located k b) [
  | inl e ↦ inl e
  | inr (c, h) ↦ inr (
    c,
    h,
    (l.queued c k h).0,
    λ e. absurd (omega (arith, h, ap (count k) ((Reach-Inv r).empty c e))),
  )
]
  where
    l : LedgerOf s
    l = Reach-Ledger r

-- In every state that threads which call `fork` and `handle` can reach, the contexts on the stack are
-- all different, and each still takes tasks: its `run` has not returned, and will not before it has
-- executed what is dispatched to it.
pub stack_open :
    {s : Helper}
    → Reach s
    → (c : ℕ) → 0 < count c s.stack
    → (count c s.stack ≡ 1) × (is_open (s.contexts c).run (s.contexts c).work_guard ≡ true)
stack_open r c h = let v = Reach-Inv r in (omega (arith, h, v.once c), v.alive c h)
