-- ===== src/Containers/Serve.antt =====
-- The service as a whole.
use node_nexus_api.Prelude.{true, ◌≡◌}
use node_nexus_api.Docker.Runs.{World}
use node_nexus_api.Docker.Commands.{Within}
use node_nexus_api.Containers.{Python}
use node_nexus_api.Containers.Requests.{
  Request, create, list, inspect, start, stats, pause, unpause, top, stop, restart, remove, logs,
  exec, rename, kill, update, read, write, port, wait, serve, call_of,
}
use node_nexus_api.Containers.Commands.{
  commands-inspect, commands-stats, commands-pause, commands-unpause, commands-rename, commands-top,
  commands-start, commands-stop, commands-restart, commands-kill, commands-read, commands-write,
  commands-wait,
}
use node_nexus_api.Containers.Varying.{
  commands-list, commands-remove, commands-port, commands-update, commands-exec,
}
use node_nexus_api.Containers.Creating.{commands-create}
use node_nexus_api.Containers.Since.{AsciiDigits, ascii_since, commands-logs}

module _ {Item : Type 0} (py : Python Item) (digits : AsciiDigits py) (w : World) where
  -- Every command in the trace of an operation is, as a shell reads it, the one call of the Docker CLI that the request stands for, on a node that has Docker: the same words, whatever the request has in it. The time that logs start from is in ASCII, and of the ASCII characters `str.isdigit` holds only of some that need no quotation.
  pub serve_commands : (r : Request) → ascii_since r ≡ true → Within (call_of py r) w (serve py r w)
  unfolding serve
  serve_commands (create r) a = commands-create py w r
  serve_commands (list all) a = commands-list py w all
  serve_commands (inspect id) a = commands-inspect py w id
  serve_commands (start id) a = commands-start py w id
  serve_commands (stats id) a = commands-stats py w id
  serve_commands (pause id) a = commands-pause py w id
  serve_commands (unpause id) a = commands-unpause py w id
  serve_commands (top id) a = commands-top py w id
  serve_commands (stop id timeout) a = commands-stop py w id timeout
  serve_commands (restart id timeout) a = commands-restart py w id timeout
  serve_commands (remove id force) a = commands-remove py w id force
  serve_commands (logs id tail since) a = commands-logs py digits w id tail since a
  serve_commands (exec id command timeout) a = commands-exec py w id command timeout
  serve_commands (rename id new_name) a = commands-rename py w id new_name
  serve_commands (kill id signal) a = commands-kill py w id signal
  serve_commands (update id memory cpus restart_policy) a =
      commands-update py w id memory cpus restart_policy
  serve_commands (read id path) a = commands-read py w id path
  serve_commands (write id path contents) a = commands-write py w id path contents
  serve_commands (port id private_port) a = commands-port py w id private_port
  serve_commands (wait id timeout) a = commands-wait py w id timeout
