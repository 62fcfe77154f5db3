-- ===== src/Process/Laws.antt =====
-- What the environment and the handles of src/common/process.cpp do.
use mathlib.Core.Path.{subst}
use mathlib.Core.Bool.{true≢false}
use wasivst.Prelude.{
  Bool, ◌&&◌, suc, sym, ◌≢◌, get_elem?, ◌==◌, ==_iff, ℕ, ◌+◌, ◌≡◌, refl, ap, ◌∙◌, true, false,
  Option, none, some, List, [], ◌∷◌, ◌++◌, arith, length, drop, ==_refl, Bool-cases, inl, inr,
  drop-append_add, get_elem?-append_length,
}
use wasivst.Process.{
  starts_with, is_equals, is_named, contains, get, insert, erase, Handle, destroy, move,
  move_assign,
}

pub starts_with-append : (key rest : List ℕ) → starts_with (key ++ rest) key ≡ true
unfolding starts_with
starts_with-append [] rest = refl
starts_with-append (k ∷ key) rest = rw (==_refl k) (starts_with-append key rest)

is_named-append : (key value : List ℕ) → is_named key (key ++ 61 ∷ value) ≡ true
unfolding is_named is_equals
is_named-append key value =
    rw (starts_with-append key (61 ∷ value), get_elem?-append_length key 61 value) refl

-- The first of two values.
abbrev pub or_else : Option (List ℕ) → List ℕ → List ℕ
or_else none d = d
or_else (some v) d = v

-- After an insertion a key has the value that it had before, or else the inserted one: `insert` adds a
-- variable but does not replace one.
pub get-insert :
    (key value : List ℕ) (env : List (List ℕ))
    → get key (insert key value env) ≡ some (or_else (get key env) value)
unfolding get insert
get-insert key value [] =
    let found : drop (length key + 1) (key ++ 61 ∷ value) ≡ value =
      drop-append_add key (61 ∷ value) 1 in
    rw (is_named-append key value, found) refl
get-insert key value (v ∷ env) = elim (Bool-cases (is_named key v)) [
  | inl same ↦ rw same refl
  | inr other ↦ rw other (get-insert key value env)
]

get_absent : (key : List ℕ) (env : List (List ℕ)) → contains key env ≡ false → get key env ≡ none
unfolding contains get
get_absent key [] h = refl
get_absent key (v ∷ env) h = elim (Bool-cases (is_named key v)) [
  | inl same ↦ absurd (true≢false (rw same at h))
  | inr other ↦ rw other (get_absent key env (rw other at h))
]

contains-erase : (key : List ℕ) (env : List (List ℕ)) → contains key (erase key env).1 ≡ false
unfolding contains erase
contains-erase key [] = refl
contains-erase key (v ∷ env) = elim (Bool-cases (is_named key v)) [
  | inl same ↦ rw same (contains-erase key env)
  | inr other ↦ rw (other, other) (contains-erase key env)
]

length-erase :
    (key : List ℕ) (env : List (List ℕ)) → (erase key env).0 + length (erase key env).1 ≡ length env
unfolding erase
length-erase key [] = omega arith
length-erase key (v ∷ env) = elim (Bool-cases (is_named key v)) [
  | inl same ↦ rw same (omega (arith, length-erase key env))
  | inr other ↦ rw other (omega (arith, length-erase key env))
]

-- A variable that passes the test is the key, `=` and a value.
starts_with-split :
    (variable key : List ℕ)
    → starts_with variable key ≡ true
    → (rest : List ℕ) × (variable ≡ key ++ rest)
unfolding starts_with
starts_with-split variable [] h = (variable, refl)
starts_with-split [] (k ∷ key) h = absurd (true≢false (sym h))
starts_with-split (c ∷ variable) (k ∷ key) h = elim (Bool-cases (c == k)) [
  | inl same ↦
      let (rest, e) = starts_with-split variable key (rw same at h) in
      (rest, ap (λ x. x ∷ variable) ((==_iff c k).0 same) ∙ ap (λ xs. k ∷ xs) e)
  | inr other ↦ absurd (true≢false (sym (rw other at h)))
]

is_equals-split :
    (rest : List ℕ) → is_equals (get_elem? rest 0) ≡ true → (value : List ℕ) × (rest ≡ 61 ∷ value)
unfolding is_equals
is_equals-split [] h = absurd (true≢false (sym h))
is_equals-split (c ∷ value) h = (value, ap (λ x. x ∷ value) ((==_iff c 61).0 h))

get_elem?-append : (xs ys : List ℕ) → get_elem? (xs ++ ys) (length xs) ≡ get_elem? ys 0
get_elem?-append [] ys = refl
get_elem?-append (x ∷ xs) ys = get_elem?-append xs ys

and_left : (a b : Bool) → (a && b) ≡ true → (a ≡ true) × (b ≡ true)
and_left true b h = (refl, h)
and_left false b h = absurd (true≢false (sym h))

is_named-split :
    (key variable : List ℕ)
    → is_named key variable ≡ true
    → (value : List ℕ) × (variable ≡ key ++ 61 ∷ value)
unfolding is_named
is_named-split key variable h =
    let (starts, follows) =
      and_left (starts_with variable key) (is_equals (get_elem? variable (length key))) h in
    let (rest, e) = starts_with-split variable key starts in
    let at : get_elem? variable (length key) ≡ get_elem? rest 0 =
      ap (λ v. get_elem? v (length key)) e ∙ get_elem?-append key rest in
    let (value, e') = is_equals-split rest (sym (ap is_equals at) ∙ follows) in
    (value, e ∙ ap (λ r. key ++ r) e')

-- Which variables are left, and how many are not: those that are the key, `=` and some value are gone, and
-- all others stay in their order.
pub data Erased (key : List ℕ) : List (List ℕ) → ℕ → List (List ℕ) → Type 0 where
  all_seen : Erased key [] 0 []
  gone :
      (value : List ℕ) {env kept : List (List ℕ)} {n : ℕ}
      → Erased key env n kept
      → Erased key ((key ++ 61 ∷ value) ∷ env) (suc n) kept
  stays :
      (variable : List ℕ) {env kept : List (List ℕ)} {n : ℕ}
      → ((value : List ℕ) → variable ≢ key ++ 61 ∷ value)
      → Erased key env n kept
      → Erased key (variable ∷ env) n (variable ∷ kept)

erase-Erased :
    (key : List ℕ) (env : List (List ℕ)) → Erased key env (erase key env).0 (erase key env).1
unfolding erase
erase-Erased key [] = all_seen
erase-Erased key (v ∷ env) = elim (Bool-cases (is_named key v)) [
  | inl same ↦
      let (value, e) = is_named-split key v same in
      rw same (
        subst (λ w. Erased key (w ∷ env) (suc (erase key env).0) (erase key env).1) (sym e)
          (gone value (erase-Erased key env)))
  | inr other ↦ rw other (
      stays v
        (λ value e. true≢false (sym (ap (is_named key) e ∙ is_named-append key value) ∙ other))
        (erase-Erased key env))
]

-- `erase` takes out just the variables that are the key, `=` and some value, of which it returns the
-- number, and leaves the others in their order. After it no variable has the key; inserting the key then
-- gives it the inserted value.
pub erase_lem :
    (key value : List ℕ) (env : List (List ℕ))
    → let (n, kept) = erase key env in
      Erased key env n kept
      × (contains key kept ≡ false)
      × (n + length kept ≡ length env)
      × (get key (insert key value kept) ≡ some value)
erase_lem key value env =
    let absent = contains-erase key env in
    (
      erase-Erased key env,
      absent,
      length-erase key env,
      get-insert key value (erase key env).1
          ∙ ap (λ o. some (or_else o value)) (get_absent key (erase key env).1 absent),
    )

-- Moved into a new handle, a process is terminated by the new handle just if the old one would have
-- terminated it, and not by the old one.
pub destroy-move :
    (o : Handle) → let (new, old) = move o in (destroy new ≡ destroy o) × (destroy old ≡ none)
unfolding move destroy
destroy-move o = (refl, refl)

-- Moved into a handle by assignment, a process is terminated by neither of the two handles, and the
-- process that the handle had before is not terminated either.
pub destroy-move_assign :
    (target o : Handle)
    → let (new, old) = move_assign target o in (destroy new ≡ none) × (destroy old ≡ none)
unfolding move_assign destroy
destroy-move_assign target o = (refl, refl)
