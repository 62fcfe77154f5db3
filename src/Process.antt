-- ===== src/Process.antt =====
-- src/common/process.{h,cpp}: the environment for a child process, the splitting of a search path and the
-- search in it, and the handle that owns a child process. Text is a list of character codes.
pub mod Laws
pub mod Spawn
pub mod Path
use wasivst.Prelude.{
  ℕ, zero, suc, ◌+◌, Bool, true, false, not, ◌&&◌, Option, none, some, List, [], ◌∷◌, ◌++◌, length,
  drop, get_elem?, ◌==◌, if◌then◌else◌,
}

-- `std::string::starts_with`
unfoldable pub starts_with : (variable key : List ℕ) → Bool
starts_with variable [] = true
starts_with [] (k ∷ key) = false
starts_with (c ∷ variable) (k ∷ key) = (c == k) && starts_with variable key

is_equals : Option ℕ → Bool
is_equals none = false
is_equals (some c) = c == 61

-- The test of the loops: the variable starts with the key and goes on with `=`.
unfoldable pub is_named : (key variable : List ℕ) → Bool
unfolding starts_with is_equals
is_named key variable = starts_with variable key && is_equals (get_elem? variable (length key))

-- `ProcessEnvironment` is its `variables_`.
unfoldable pub contains : List ℕ → List (List ℕ) → Bool
unfolding is_named
contains key [] = false
contains key (v ∷ variables) = if is_named key v then true else contains key variables

unfoldable pub get : List ℕ → List (List ℕ) → Option (List ℕ)
unfolding is_named
get key [] = none
get key (v ∷ variables) =
    if is_named key v then some (drop (length key + 1) v) else get key variables

unfoldable pub insert : (key value : List ℕ) → List (List ℕ) → List (List ℕ)
insert key value variables = variables ++ (key ++ 61 ∷ value) ∷ []

-- What is left, and how many variables are erased.
unfoldable pub erase : List ℕ → List (List ℕ) → ℕ × List (List ℕ)
unfolding is_named
erase key [] = (0, [])
erase key (v ∷ variables) =
    let (n, kept) = erase key variables in if is_named key v then (suc n, kept) else (n, v ∷ kept)

-- `path_env.find(':', segment_begin)`: the characters before the colon, and those behind it if there
-- is one.
unfoldable pub find_colon : List ℕ → List ℕ × Option (List ℕ)
find_colon [] = ([], none)
find_colon (c ∷ cs) =
    let (segment, rest) = find_colon cs in if c == 58 then ([], some cs) else (c ∷ segment, rest)

-- The loop of `split_path` on what is left of the path; a round moves behind a colon or ends it.
unfoldable pub segments : (fuel : ℕ) → List ℕ → List (List ℕ)
unfolding find_colon
segments zero path_env = []
segments (suc fuel) [] = []
segments (suc fuel) (c ∷ cs) = elim (find_colon (c ∷ cs)).1 [
  | none ↦ (c ∷ cs) ∷ []
  | some rest ↦ (find_colon (c ∷ cs)).0 ∷ segments fuel rest
]

unfoldable pub split_path : List ℕ → List (List ℕ)
unfolding segments
split_path path_env = segments (length path_env) path_env

-- `search_in_path`, with `access(…, X_OK)` and the joining of paths as parameters.
unfoldable pub search_in_path :
    (executable : List ℕ → Bool) (join : List ℕ → List ℕ → List ℕ)
    → List (List ℕ)
    → List ℕ
    → Option (List ℕ)
search_in_path executable join [] target = none
search_in_path executable join (dir ∷ path) target =
    if executable (join dir target)
    then some (join dir target)
    else search_in_path executable join path target

-- `Process::Handle`
pub record Handle : Type 0 where
  pub detached : Bool
  pub pid : ℕ

unfoldable pub handle : ℕ → Handle
handle pid = record { detached = false; pid = pid }

-- The process that the destructor terminates.
unfoldable pub destroy : Handle → Option ℕ
destroy h = if h.detached then none else some h.pid

unfoldable pub detach : Handle → Handle
detach h = record h { detached = true }

-- The move constructor: the new handle, and the old one.
unfoldable pub move : Handle → Handle × Handle
move o = (record { detached = o.detached; pid = o.pid }, record o { detached = true })

-- The move assignment, statement by statement: the source is marked first.
unfoldable pub move_assign : (target o : Handle) → Handle × Handle
move_assign target o =
    let marked : Handle = record o { detached = true } in
    (record { detached = marked.detached; pid = marked.pid }, marked)
