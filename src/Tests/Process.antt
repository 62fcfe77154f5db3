-- ===== src/Tests/Process.antt =====
-- The environment and the search path at concrete inputs.
use wasivst.Prelude.{ℕ, ◌+◌, ◌≡◌, refl, false, some, List, [], ◌∷◌, length}
use wasivst.Prelude.Text.{codes}
use wasivst.Process.{contains, get, insert, erase, split_path}
use wasivst.Process.Laws.{Erased, erase_lem}

abbrev home : List (List ℕ)
home = codes "HOME=/a" ∷ codes "HOMES=/b" ∷ []

-- The old value is found.
get-insert_run : get (codes "HOME") (insert (codes "HOME") (codes "/c") home) ≡ some (codes "/a")
unfolding get insert
get-insert_run = refl

erase_lem_example :
    let (n, kept) = erase (codes "HOME") home in
    Erased (codes "HOME") home n kept
    × (contains (codes "HOME") kept ≡ false)
    × (n + length kept ≡ 2)
    × (get (codes "HOME") (insert (codes "HOME") (codes "/c") kept) ≡ some (codes "/c"))
erase_lem_example = erase_lem (codes "HOME") (codes "/c") home

abbrev dirs : List (List ℕ)
dirs = codes "/a" ∷ [] ∷ codes "/b" ∷ []

split_path_run : split_path (codes "/a::/b:") ≡ dirs
unfolding split_path
split_path_run = refl
