-- ===== src/Libcontainer/Hooks.antt =====
-- libcontainer/hooks.go: a hook is a command that is given the container's state, in JSON.
use runnc.Base.{false, ℕ, String, ℤ, pos, Option, none, some, []}
use runnc.Go.{text}
use runnc.Os.{
  Os, M, ask, must, wrapping, pure, raise, ◌>>=◌, ◌>>◌, getpid, start_command, wait_command,
  wait_timeout, WaitResult, finished, timed_out, kill,
}
use runnc.Configs.{Hook}

abbrev pub sigkill : ℕ
sigkill = 9

-- The output of the command stands in front of its error; its text is left out.
abbrev output : String
output = "stdout, stderr"

-- `json.Marshal` of the `spec.State` that the hook reads: pid, bundle and container id.
module _ ⦃os : Os⦄ (marshal : ℕ → String → String → String) where
  unfoldable pub hook_timeout : ℕ → WaitResult → M (Unit {0})
  hook_timeout pid finished = pure tt
  hook_timeout pid timed_out = do must (ask (kill (pos pid) sigkill)); raise (text "Hook timeout")

  unfoldable pub await_hook : ℕ → Option ℤ → M (Unit {0})
  unfolding hook_timeout
  await_hook pid none = wrapping output (must (ask (wait_command pid)))
  await_hook pid (some seconds) = do
    r ← wrapping output (must (ask (wait_timeout pid seconds)))
    hook_timeout pid r

  -- `runHook`
  unfoldable pub run_hook : Hook → String → String → M (Unit {0})
  unfolding await_hook
  run_hook hook cid bundle_path = do
    self ← ask getpid
    pid ← must (
        ask (
          start_command (record {
            path = hook.path;
            args = hook.args;
            env = hook.env;
            dir = "";
            stdin = none;
            stdout = none;
            stderr = none;
            new_group = false;
            extra_files = [];
            input = marshal self bundle_path cid;
          })))
    await_hook pid hook.timeout
