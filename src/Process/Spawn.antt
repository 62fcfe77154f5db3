-- ===== src/Process/Spawn.antt =====
-- Starting processes (src/common/process.cpp: `spawn_get_stdout_line`, `spawn_get_status`,
-- `spawn_child_redirected` and `build_argv`). The system calls are a parameter, on a state of the kernel.
pub mod Descriptors
use wasivst.Prelude.Text.{codes}
use wasivst.Prelude.{ℕ, zero, suc, ◌+◌, Option, none, some, List, [], ◌∷◌, ◌==◌, if◌then◌else◌}

-- What `waitpid` tells of a process that has ended.
pub data Status : Type 0 where
  exited : ℕ → Status
  signaled : Status

pub data FileAction : Type 0 where
  dup2 : (from onto : ℕ) → FileAction
  open_append : (fd : ℕ) → List ℕ → FileAction
  close_action close_from : (fd : ℕ) → FileAction

-- `none` is a call that fails, and `posix_spawnp` gives its error number, 0 for none, and the process.
-- Without `WNOHANG` `waitpid` waits; with it, there may be no status yet.
pub record Kernel (K : Type 0) : Type 0 where
  pub pipe : K → Option (ℕ × ℕ × K)
  pub close_fd : ℕ → K → K
  pub posix_spawnp :
      (command : List ℕ) → List FileAction → (argv envp : List (List ℕ)) → K → ℕ × ℕ × K
  pub fgets : (fd size : ℕ) → K → List ℕ × K
  pub waitpid : (pid : ℕ) → K → Option Status × K
  pub waitpid_nohang : (pid : ℕ) → K → Option (Option Status) × K

-- `failed` is an assertion that fails, or the last character of an empty text.
pub data StringResult : Type 0 where
  line : List ℕ → StringResult
  line_not_found : StringResult
  line_error : ℕ → StringResult
  failed : StringResult

pub data StatusResult : Type 0 where
  status : ℕ → StatusResult
  status_not_found : StatusResult
  status_error : ℕ → StatusResult
  status_failed : StatusResult

pub data HandleResult : Type 0 where
  child : ℕ → HandleResult
  child_not_found : HandleResult
  child_error : ℕ → HandleResult
  child_failed : HandleResult

unfoldable pub build_argv : (command : List ℕ) → (args : List (List ℕ)) → List (List ℕ)
build_argv command args = command ∷ args

-- The text up to the first 0.
unfoldable pub c_text : List ℕ → List ℕ
c_text [] = []
c_text (zero ∷ cs) = []
c_text (suc c ∷ cs) = suc c ∷ c_text cs

-- The text without a line feed at its end.
unfoldable pub without_line_feed : List ℕ → Option (List ℕ)
without_line_feed [] = none
without_line_feed (c ∷ []) = if c == 10 then some [] else some (c ∷ [])
without_line_feed (c ∷ d ∷ cs) = elim (without_line_feed (d ∷ cs)) [
  | none ↦ none
  | some text ↦ some (c ∷ text)
]

unfoldable pub line_of : Option (List ℕ) → StringResult
line_of none = failed
line_of (some text) = line text

-- The result once the process was waited for.
unfoldable pub string_result : List ℕ → Option Status → StringResult
unfolding c_text without_line_feed line_of
string_result output none = failed
string_result output (some signaled) = line_not_found
string_result output (some (exited code)) =
    if code == 127 then line_not_found else line_of (without_line_feed (c_text output))

unfoldable pub status_result : Option Status → StatusResult
status_result none = status_failed
status_result (some signaled) = status_not_found
status_result (some (exited code)) = if code == 127 then status_not_found else status code

-- Without a status the number that `status` was set to says an exit with 0.
unfoldable pub handle_result : (pid : ℕ) → Option (Option Status) → HandleResult
handle_result pid none = child_failed
handle_result pid (some none) = child pid
handle_result pid (some (some signaled)) = child pid
handle_result pid (some (some (exited code))) = if code == 127 then child_not_found else child pid

module _ {K : Type 0} (kernel : Kernel K) (command : List ℕ) (args envp : List (List ℕ)) where
  -- The child that was started, whose output is read from a pipe.
  read_and_wait : (read_fd pid : ℕ) → K → StringResult × K
  unfolding string_result
  read_and_wait read_fd pid k =
      let (output, k1) = kernel.fgets read_fd 1024 k in
      let (result, k2) = kernel.waitpid pid (kernel.close_fd read_fd k1) in
      (string_result output result, k2)

  -- With the error number of `posix_spawnp`, after the pipe's other end was closed.
  spawned : (read_fd error pid : ℕ) → K → StringResult × K
  unfolding read_and_wait
  spawned read_fd zero pid k = read_and_wait read_fd pid k
  spawned read_fd (suc e) pid k =
      (if suc e == 2 then line_not_found else line_error (suc e), kernel.close_fd read_fd k)

  with_pipe : K → Option (ℕ × ℕ × K) → StringResult × K
  unfolding spawned build_argv
  with_pipe k none = (failed, k)
  with_pipe k (some (read_fd, write_fd, k1)) =
      let (error, pid, k2) =
        kernel.posix_spawnp command
          (dup2 write_fd 1
            ∷ open_append 2 (codes "/dev/null")
            ∷ close_action read_fd
            ∷ close_action write_fd
            ∷ [])
          (build_argv command args) envp k1 in
      spawned read_fd error pid (kernel.close_fd write_fd k2)

  unfoldable pub spawn_get_stdout_line : K → StringResult × K
  unfolding with_pipe
  spawn_get_stdout_line k = with_pipe k (kernel.pipe k)

  waited : (error pid : ℕ) → K → StatusResult × K
  unfolding status_result
  waited zero pid k = let (result, k1) = kernel.waitpid pid k in (status_result result, k1)
  waited (suc e) pid k = (if suc e == 2 then status_not_found else status_error (suc e), k)

  unfoldable pub spawn_get_status : K → StatusResult × K
  unfolding waited build_argv
  spawn_get_status k =
      let (error, pid, k1) = kernel.posix_spawnp command [] (build_argv command args) envp k in
      waited error pid k1

  started : (error pid : ℕ) → K → HandleResult × K
  unfolding handle_result
  started zero pid k =
      let (result, k1) = kernel.waitpid_nohang pid k in (handle_result pid result, k1)
  started (suc e) pid k = (if suc e == 2 then child_not_found else child_error (suc e), k)

  unfoldable pub spawn_child_redirected : (filename : List ℕ) → K → HandleResult × K
  unfolding started build_argv
  spawn_child_redirected filename k =
      let (error, pid, k1) =
        kernel.posix_spawnp command
          (open_append 1 filename ∷ open_append 2 filename ∷ close_from 3 ∷ [])
          (build_argv command args) envp k in
      started error pid k1
