-- ===== src/Tests/Spawn.antt =====
-- A command whose output is read (src/common/process.cpp) at a concrete input.
use mathlib.Core.Option.{some-injective}
use wasivst.Prelude.Update.{update, other-update}
use wasivst.Prelude.Text.{codes}
use wasivst.Prelude.{
  arith, ℕ, ◌≡◌, refl, sym, ap, ◌∙◌, Bool, true, false, Option, none, some, [], ◌==◌, if◌then◌else◌,
}
use wasivst.Process.Spawn.{
  Kernel, exited, line, spawn_get_stdout_line, build_argv, string_result, c_text, without_line_feed,
  line_of,
}
use wasivst.Process.Spawn.Descriptors.{IsKernel, spawn_get_stdout_line-is_open}

-- A kernel that knows which descriptors are open, and gives 7 and 8 for a pipe while they are free.
pipe_if : (ℕ → Bool) → Bool → Bool → Option (ℕ × ℕ × (ℕ → Bool))
pipe_if k false false = some (7, 8, update (update k 7 true) 8 true)
pipe_if k _ _ = none

abbrev small_kernel : Kernel (ℕ → Bool)
small_kernel = record {
  pipe = λ k. pipe_if k (k 7) (k 8);
  close_fd = λ fd k. update k fd false;
  posix_spawnp = λ _ _ _ _ k. (0, 55, k);
  fgets = λ _ _ k. (codes "out\n", k);
  waitpid = λ _ k. (some (exited 0), k);
  waitpid_nohang = λ _ k. (some none, k);
}

Opened : (k k' : ℕ → Bool) (r w : ℕ) → Type 0
Opened k k' r w =
    (k 7 ≡ false)
    × (k 8 ≡ false)
    × (r ≡ 7)
    × (w ≡ 8)
    × ((fd : ℕ) → k' fd ≡ update (update k 7 true) 8 true fd)

pipe_if-Opened :
    (k k' : ℕ → Bool) (r w : ℕ) (a b : Bool)
    → k 7 ≡ a
    → k 8 ≡ b
    → pipe_if k a b ≡ some (r, w, k')
    → Opened k k' r w
unfolding pipe_if Opened
pipe_if-Opened k k' r w false false e f h =
    let same = some-injective (7, 8, update (update k 7 true) 8 true) (r, w, k') h in
    (
      e,
      f,
      sym (ap (λ (x : ℕ × ℕ × (ℕ → Bool)). x.0) same),
      sym (ap (λ (x : ℕ × ℕ × (ℕ → Bool)). x.1) same),
      λ fd. sym (ap (λ (x : ℕ × ℕ × (ℕ → Bool)). x.2 fd) same),
    )
pipe_if-Opened k k' r w true b e f h = ground arith
pipe_if-Opened k k' r w false true e f h = ground arith

opened : (k k' : ℕ → Bool) (r w : ℕ) → small_kernel.pipe k ≡ some (r, w, k') → Opened k k' r w
opened k k' r w h = pipe_if-Opened k k' r w (k 7) (k 8) refl refl h

small_kernel-IsKernel : IsKernel small_kernel (λ k. k)
unfolding Opened
small_kernel-IsKernel = record {
  new_read = λ k k' r w h. ap k (opened k k' r w h).2 ∙ (opened k k' r w h).0;
  new_write = λ k k' r w h. ap k (opened k k' r w h).3 ∙ (opened k k' r w h).1;
  piped = λ k k' r w fd h not_r not_w.
      (opened k k' r w h).4 fd
      ∙ (other-update (update k 7 true) 8 true fd
            (ap (λ x. fd == x) (sym (opened k k' r w h).3) ∙ not_w)
          ∙ other-update k 7 true fd (ap (λ x. fd == x) (sym (opened k k' r w h).2) ∙ not_r));
  closed = λ k fd x. refl;
  spawn_keeps = λ k command actions argv envp fd. refl;
  fgets_keeps = λ k f size fd. refl;
  waitpid_keeps = λ k pid fd. refl;
}

abbrev standard : ℕ → Bool
standard fd = if fd == 1 then true else false

spawn_get_stdout_line-is_open_example :
    (spawn_get_stdout_line small_kernel (codes "id") [] [] standard).1 7 ≡ false
spawn_get_stdout_line-is_open_example =
    spawn_get_stdout_line-is_open small_kernel (λ k. k) small_kernel-IsKernel (codes "id") [] []
      standard 7

line_read : (spawn_get_stdout_line small_kernel (codes "id") [] [] standard).0 ≡ line (codes "out")
unfolding spawn_get_stdout_line pipe_if string_result c_text without_line_feed line_of build_argv
line_read = refl
