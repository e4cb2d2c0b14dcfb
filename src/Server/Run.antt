-- ===== src/Server/Run.antt =====
-- From a message to its handler: the calls of doCommandCall of commandCalls.go, and one round of the
-- readLoop of session.go. Handlers run one after the other here; the server runs them as goroutines.
pub mod Promise
pub mod Refusals
pub mod Blocked
use wsfs_core.Prelude.{
  ltb, length, take, if◌then◌else◌, ◌≤◌, ◌≡◌, refl, arith, ℕ, Bool, true, false, Option, none, some,
}
use wsfs_core.Wire.Bytes.{Bytes}
use wsfs_core.Wire.Text.{text}
use wsfs_core.Wire.Codes.{error_invalid}
use wsfs_core.Wire.Source.{Source, ok, err, broken}
use wsfs_core.Wire.Command.{
  Command, open_file, close_file, read_file, write_file, seek, allocate, set_attr, sync, mkdir,
  sym_link, remove, rm_dir, fs_stat, read_at, write_at, copy_file_range, rename, set_attr_by_fd,
  clone_file_range, get_file_lock, set_file_lock, set_file_lock_wait, link, set_xattr, get_xattr,
  list_xattr, remove_xattr, max_command_length,
}
use wsfs_core.Wire.Command.Decode.{Dispatched, call, bad_format, unknown, dispatch_command}
use wsfs_core.Server.Os.{Os}
use wsfs_core.Server.Session.{Session, reply_error}
use wsfs_core.Server.FileCmds.{
  cmd_close, cmd_seek, cmd_write, cmd_allocate, cmd_sync, cmd_write_at, cmd_copy_file_range,
  cmd_clone_file_range, cmd_get_file_lock, cmd_set_file_lock, cmd_set_file_lock_wait,
}
use wsfs_core.Server.ReadCmds.{cmd_read, cmd_read_at}
use wsfs_core.Server.PathCmds.{
  cmd_open, cmd_mkdir, cmd_remove, cmd_rm_dir, cmd_fs_stat, cmd_sym_link, cmd_link, cmd_rename,
}
use wsfs_core.Server.XAttr.{cmd_set_xattr, cmd_get_xattr, cmd_list_xattr, cmd_remove_xattr}
use wsfs_core.Server.AttrCmds.{cmd_set_attr, cmd_set_attr_by_fd}

-- conn.SetReadLimit in takeConn: the bytes behind the limit are an error instead.
unfoldable pub limited : Source → Source
limited msg =
    if ltb max_command_length (length msg.left)
    then record msg { left = take max_command_length msg.left; tail = broken }
    else msg

pub limited-short : (msg : Source) → length msg.left ≤ max_command_length → limited msg ≡ msg
unfolding limited
limited-short msg h =
    let short : ltb max_command_length (length msg.left) ≡ false = ground arith in rw short refl

-- The handlers that are modelled. The others, `rest`, list directories, read links and attributes
-- and feed write streams.
module _ {World : Type 0} (os : Os World) (rest : ℕ → Command → Session World → Session World) where
  unfoldable pub run_command : ℕ → Command → Session World → Session World
  run_command mark (open_file d) = cmd_open os mark d
  run_command mark (close_file d) = cmd_close os mark d
  run_command mark (read_file d) = cmd_read os mark d
  run_command mark (write_file d) = cmd_write os mark d
  run_command mark (seek d) = cmd_seek os mark d
  run_command mark (allocate d) = cmd_allocate os mark d
  run_command mark (set_attr d) = cmd_set_attr os mark d
  run_command mark (sync d) = cmd_sync os mark d
  run_command mark (mkdir d) = cmd_mkdir os mark d
  run_command mark (sym_link d) = cmd_sym_link os mark d
  run_command mark (remove d) = cmd_remove os mark d
  run_command mark (rm_dir d) = cmd_rm_dir os mark d
  run_command mark (fs_stat d) = cmd_fs_stat os mark d
  run_command mark (read_at d) = cmd_read_at os mark d
  run_command mark (write_at d) = cmd_write_at os mark d
  run_command mark (copy_file_range d) = cmd_copy_file_range os mark d
  run_command mark (rename d) = cmd_rename os mark d
  run_command mark (set_attr_by_fd d) = cmd_set_attr_by_fd os mark d
  run_command mark (clone_file_range d) = cmd_clone_file_range os mark d
  run_command mark (get_file_lock d) = cmd_get_file_lock os mark d
  run_command mark (set_file_lock d) = cmd_set_file_lock os mark d
  run_command mark (set_file_lock_wait d) = cmd_set_file_lock_wait os mark d
  run_command mark (link d) = cmd_link os mark d
  run_command mark (set_xattr d) = cmd_set_xattr os mark d
  run_command mark (get_xattr d) = cmd_get_xattr os mark d
  run_command mark (list_xattr d) = cmd_list_xattr os mark d
  run_command mark (remove_xattr d) = cmd_remove_xattr os mark d
  run_command mark c = rest mark c

  unfoldable pub run_dispatched : ℕ → Dispatched → Session World → Session World
  unfolding run_command
  run_dispatched mark (call c) s = run_command mark c s
  run_dispatched mark bad_format s = reply_error mark error_invalid (text "Bad command format") s
  run_dispatched mark unknown s = reply_error mark error_invalid (text "Unknown command") s

  -- One message; `none` where it ends the read loop.
  unfoldable pub serve : Source → Session World → Option (Session World)
  unfolding run_dispatched limited
  serve msg s = elim (dispatch_command (limited msg)) [
    | ok asked left ↦ some (run_dispatched asked.0 asked.1 s)
    | err e left ↦ none
  ]
