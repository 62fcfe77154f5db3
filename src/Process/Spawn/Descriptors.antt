-- ===== src/Process/Spawn/Descriptors.antt =====
-- The file descriptors of src/common/process.cpp while a process is started.
use wasivst.Prelude.Update.{update, other-update}
use wasivst.Prelude.Text.{codes}
use wasivst.Prelude.{
  ℕ, zero, suc, ◌≡◌, refl, sym, ap, ◌∙◌, Bool, false, Option, none, some, List, [], ◌∷◌, ◌==◌,
  if◌then◌else◌, Bool-cases, ==_iff, inl, inr,
}
use wasivst.Process.Spawn.{
  Kernel, FileAction, spawn_get_stdout_line, with_pipe, spawned, read_and_wait, build_argv, dup2,
  open_append, close_action,
}

-- What is relied on: a pipe has two new descriptors, `close` closes its own, and the other calls leave the
-- descriptors of the process as they are.
pub record IsKernel {K : Type 0} (kernel : Kernel K) (is_open : K → ℕ → Bool) : Type 0 where
  pub new_read : (k k' : K) (r w : ℕ) → kernel.pipe k ≡ some (r, w, k') → is_open k r ≡ false
  pub new_write : (k k' : K) (r w : ℕ) → kernel.pipe k ≡ some (r, w, k') → is_open k w ≡ false
  pub piped :
      (k k' : K) (r w fd : ℕ)
      → kernel.pipe k ≡ some (r, w, k')
      → (fd == r) ≡ false
      → (fd == w) ≡ false
      → is_open k' fd ≡ is_open k fd
  pub closed : (k : K) (fd x : ℕ) → is_open (kernel.close_fd fd k) x ≡ update (is_open k) fd false x
  pub spawn_keeps :
      (k : K) (command : List ℕ) (actions : List FileAction) (argv envp : List (List ℕ)) (fd : ℕ)
      → is_open (kernel.posix_spawnp command actions argv envp k).2 fd ≡ is_open k fd
  pub fgets_keeps : (k : K) (f size fd : ℕ) → is_open (kernel.fgets f size k).1 fd ≡ is_open k fd
  pub waitpid_keeps : (k : K) (pid fd : ℕ) → is_open (kernel.waitpid pid k).1 fd ≡ is_open k fd

module _ {K : Type 0} (kernel : Kernel K) (is_open : K → ℕ → Bool)
    (lawful : IsKernel kernel is_open) (command : List ℕ) (args envp : List (List ℕ)) where
  read_and_wait_lem :
      (r pid : ℕ) (k : K) (fd : ℕ)
      → is_open (read_and_wait kernel command args envp r pid k).1 fd
        ≡ update (is_open k) r false fd
  unfolding read_and_wait
  read_and_wait_lem r pid k fd =
      let k1 = (kernel.fgets r 1024 k).1 in
      lawful.waitpid_keeps (kernel.close_fd r k1) pid fd
      ∙ (lawful.closed k1 r fd
          ∙ ap (λ b. if fd == r then false else b) (lawful.fgets_keeps k r 1024 fd))

  spawned_lem :
      (r error pid : ℕ) (k : K) (fd : ℕ)
      → is_open (spawned kernel command args envp r error pid k).1 fd
        ≡ update (is_open k) r false fd
  unfolding spawned
  spawned_lem r zero pid k fd = read_and_wait_lem r pid k fd
  spawned_lem r (suc e) pid k fd = lawful.closed k r fd

  -- Where the calls do what is documented of them, whatever `posix_spawnp` and the process do: in every
  -- case, when the output of a command has been read, or it could not be started, or the result is
  -- an error, the process has the file descriptors open that it had before, and no others.
  pub spawn_get_stdout_line-is_open :
      (k : K) (fd : ℕ)
      → is_open (spawn_get_stdout_line kernel command args envp k).1 fd ≡ is_open k fd
  unfolding spawn_get_stdout_line
  spawn_get_stdout_line-is_open k fd = go (kernel.pipe k) refl
    where
      go :
          (o : Option (ℕ × ℕ × K))
          → kernel.pipe k ≡ o
          → is_open (with_pipe kernel command args envp k o).1 fd ≡ is_open k fd
      go none e = refl
      go (some (r, w, k1)) e =
          let actions =
            dup2 w 1 ∷ open_append 2 (codes "/dev/null") ∷ close_action r ∷ close_action w ∷ [] in
          let start = kernel.posix_spawnp command actions (build_argv command args) envp k1 in
          let k2 = start.2 in
          spawned_lem r start.0 start.1 (kernel.close_fd w k2) fd ∙ elim (Bool-cases (fd == r)) [
            | inl read ↦
                let closed_read : is_open k fd ≡ false =
                  ap (is_open k) ((==_iff fd r).0 read) ∙ lawful.new_read k k1 r w e in
                rw (read) (sym closed_read)
            | inr not_read ↦
                other-update (is_open (kernel.close_fd w k2)) r false fd not_read
                ∙ (lawful.closed k2 w fd ∙ elim (Bool-cases (fd == w)) [
                  | inl written ↦
                      let closed_write : is_open k fd ≡ false =
                        ap (is_open k) ((==_iff fd w).0 written) ∙ lawful.new_write k k1 r w e in
                      rw (written) (sym closed_write)
                  | inr not_written ↦
                      other-update (is_open k2) w false fd not_written
                      ∙ (lawful.spawn_keeps k1 command actions (build_argv command args) envp fd
                          ∙ lawful.piped k k1 r w fd e not_read not_written)
                ])
          ]
