-- ===== src/Server/Run/Blocked.antt =====
-- Extended attributes whose names the server does not let through.
use wsfs_core.Prelude.{◌++◌, ◌∙◌, ℕ, ◌≡◌, refl, false, not, Option, none, some, arith, length, ◌==◌}
use wsfs_core.Wire.Bytes.{Bytes}
use wsfs_core.Wire.Text.{text}
use wsfs_core.Wire.Codes.{error_state_blocked}
use wsfs_core.Wire.Command.{
  Command, open_file, close_file, read_file, read_dir, read_link, write_file, seek, allocate,
  get_attr, set_attr, sync, mkdir, sym_link, remove, rm_dir, fs_stat, read_at, write_at,
  copy_file_range, rename, set_attr_by_fd, read_dir_plus, write_stream_open, write_stream_data,
  clone_file_range, get_file_lock, set_file_lock, set_file_lock_wait, link, set_xattr, get_xattr,
  list_xattr, remove_xattr,
}
use wsfs_core.Util.Url.{is_url_valid}
use wsfs_core.Server.Conn.Laws.{IsHealthy}
use wsfs_core.Server.Os.{Os}
use wsfs_core.Server.Session.{Session, reply_error}
use wsfs_core.Server.Handler.{with_path}
use wsfs_core.Server.Handler.{calling}
use wsfs_core.Server.XAttr.{
  xattr_done, xattr_got, is_xattr_key_allowed, with_key, cmd_set_xattr, cmd_get_xattr,
  cmd_remove_xattr,
}
use wsfs_core.Server.XAttr.Filter.{IsName}
use wsfs_core.Server.Run.{run_command}
use wsfs_core.Server.Run.Refusals.{Refused, names_bad_path, reply_error-Refused}

-- The name of the attribute that a request is for.
abbrev pub xattr_key : Command → Option Bytes
xattr_key (set_xattr d) = some d.key
xattr_key (get_xattr d) = some d.key
xattr_key (remove_xattr d) = some d.key
xattr_key c = none

module _ {World : Type 0} (mark : ℕ) where
  with_key-blocked :
      (key : Bytes) (run : Session World → Session World) (s : Session World)
      → IsName key
      → is_xattr_key_allowed s.xattr_prefixes key ≡ false
      → with_key mark key run s
        ≡ reply_error mark error_state_blocked (text "xattr key is not allowed") s
  unfolding with_key
  with_key-blocked key run s name blocked =
      let some_left : (length key == 0) ≡ false = ground arith in
      rw (with_key, some_left, name.1, blocked) refl

  with_path-good :
      (path : Bytes) (run : Bytes → Session World → Session World) (s : Session World)
      → not (is_url_valid path) ≡ false
      → with_path mark path run s ≡ run (s.storage ++ path) s
  unfolding with_path
  with_path-good path run s e = rw (with_path, e) refl

module _ {World : Type 0} (os : Os World) (rest : ℕ → Command → Session World → Session World)
    (mark : ℕ) where
  blocked_key :
      (c : Command) (key : Bytes) (s : Session World)
      → names_bad_path c ≡ false
      → xattr_key c ≡ some key
      → IsName key
      → is_xattr_key_allowed s.xattr_prefixes key ≡ false
      → run_command os rest mark c s
        ≡ reply_error mark error_state_blocked (text "xattr key is not allowed") s
  unfolding run_command cmd_set_xattr cmd_get_xattr cmd_remove_xattr
  blocked_key (open_file d) key s good asked name blocked = absurd (ground arith)
  blocked_key (close_file d) key s good asked name blocked = absurd (ground arith)
  blocked_key (read_file d) key s good asked name blocked = absurd (ground arith)
  blocked_key (read_dir d) key s good asked name blocked = absurd (ground arith)
  blocked_key (read_link d) key s good asked name blocked = absurd (ground arith)
  blocked_key (write_file d) key s good asked name blocked = absurd (ground arith)
  blocked_key (seek d) key s good asked name blocked = absurd (ground arith)
  blocked_key (allocate d) key s good asked name blocked = absurd (ground arith)
  blocked_key (get_attr d) key s good asked name blocked = absurd (ground arith)
  blocked_key (set_attr d) key s good asked name blocked = absurd (ground arith)
  blocked_key (sync d) key s good asked name blocked = absurd (ground arith)
  blocked_key (mkdir d) key s good asked name blocked = absurd (ground arith)
  blocked_key (sym_link d) key s good asked name blocked = absurd (ground arith)
  blocked_key (remove d) key s good asked name blocked = absurd (ground arith)
  blocked_key (rm_dir d) key s good asked name blocked = absurd (ground arith)
  blocked_key (fs_stat d) key s good asked name blocked = absurd (ground arith)
  blocked_key (read_at d) key s good asked name blocked = absurd (ground arith)
  blocked_key (write_at d) key s good asked name blocked = absurd (ground arith)
  blocked_key (copy_file_range d) key s good asked name blocked = absurd (ground arith)
  blocked_key (rename d) key s good asked name blocked = absurd (ground arith)
  blocked_key (set_attr_by_fd d) key s good asked name blocked = absurd (ground arith)
  blocked_key (read_dir_plus d) key s good asked name blocked = absurd (ground arith)
  blocked_key (write_stream_open d) key s good asked name blocked = absurd (ground arith)
  blocked_key (write_stream_data d) key s good asked name blocked = absurd (ground arith)
  blocked_key (clone_file_range d) key s good asked name blocked = absurd (ground arith)
  blocked_key (get_file_lock d) key s good asked name blocked = absurd (ground arith)
  blocked_key (set_file_lock d) key s good asked name blocked = absurd (ground arith)
  blocked_key (set_file_lock_wait d) key s good asked name blocked = absurd (ground arith)
  blocked_key (link d) key s good asked name blocked = absurd (ground arith)
  blocked_key (set_xattr d) key s good asked name blocked =
      let same : d.key ≡ key = ground arith in
      with_path-good mark d.path _ s good
      ∙ with_key-blocked mark d.key
          (calling (os.set_xattr (s.storage ++ d.path) d.key d.value d.flag) (xattr_done mark)) s
          (rw same name) (rw same blocked)
  blocked_key (get_xattr d) key s good asked name blocked =
      let same : d.key ≡ key = ground arith in
      with_path-good mark d.path _ s good
      ∙ with_key-blocked mark d.key
          (calling (os.get_xattr (s.storage ++ d.path) d.key d.mode) (xattr_got mark)) s
          (rw same name) (rw same blocked)
  blocked_key (list_xattr d) key s good asked name blocked = absurd (ground arith)
  blocked_key (remove_xattr d) key s good asked name blocked =
      let same : d.key ≡ key = ground arith in
      with_path-good mark d.path _ s good
      ∙ with_key-blocked mark d.key
          (calling (os.remove_xattr (s.storage ++ d.path) d.key d.mode) (xattr_done mark)) s
          (rw same name) (rw same blocked)

  -- A request to set, get or remove an extended attribute whose name no prefix lets through is answered by
  -- one error message alone, on a connection that works and for a valid path and a name that is not
  -- empty and has no zero byte: the system is asked for nothing and no descriptor changes.
  pub blocked_key-Refused :
      (c : Command) (key : Bytes) (s : Session World)
      → names_bad_path c ≡ false
      → xattr_key c ≡ some key
      → IsName key
      → is_xattr_key_allowed s.xattr_prefixes key ≡ false
      → IsHealthy s.conn
      → Refused mark error_state_blocked
          (text "xattr key is not allowed")
          s
          (run_command os rest mark c s)
  blocked_key-Refused c key s good asked name blocked h =
      rw (blocked_key c key s good asked name blocked) (
        reply_error-Refused mark error_state_blocked (text "xattr key is not allowed") s
          (omega arith) h)
