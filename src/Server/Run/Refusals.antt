-- ===== src/Server/Run/Refusals.antt =====
-- Requests that are refused before the system is asked for anything.
use wsfs_core.Prelude.{
  ℕ, ◌≡◌, refl, Bool, true, false, not, ◌&&◌, ◌||◌, none, some, [], ◌∷◌, ◌++◌, arith, ltb, length,
  ◌≤◌,
}
use wsfs_core.Wire.Codes.{max_error_desc_length}
use wsfs_core.Server.Conn.Laws.{IsHealthy, conn_writer, respond_sends}
use wsfs_core.Server.Os.{Os}
use wsfs_core.Wire.Rsp.Laws.{write_rsp_error-Emits}
use wsfs_core.Server.Run.{run_command}
use wsfs_core.Server.FileCmds.{
  cmd_close, cmd_seek, cmd_write, cmd_allocate, cmd_sync, cmd_write_at, cmd_copy_file_range,
  cmd_clone_file_range, cmd_get_file_lock, cmd_set_file_lock, cmd_set_file_lock_wait,
  cmd_set_file_lock_common,
}
use wsfs_core.Server.PathCmds.{
  with_paths, cmd_open, cmd_mkdir, cmd_remove, cmd_rm_dir, cmd_fs_stat, cmd_sym_link, cmd_link,
  cmd_rename,
}
use wsfs_core.Server.ReadCmds.{cmd_read, cmd_read_at}
use wsfs_core.Server.XAttr.{cmd_set_xattr, cmd_get_xattr, cmd_list_xattr, cmd_remove_xattr}
use wsfs_core.Server.AttrCmds.{cmd_set_attr, cmd_set_attr_by_fd}
use wsfs_core.Wire.Bytes.{Bytes}
use wsfs_core.Wire.Text.{text}
use wsfs_core.Wire.Codes.{error_invalid, error_invalid_fd, max_copy_file_range_chunk}
use wsfs_core.Wire.Command.{
  Command, open_file, close_file, read_file, read_dir, read_link, write_file, seek, allocate,
  get_attr, set_attr, sync, mkdir, sym_link, remove, rm_dir, fs_stat, read_at, write_at,
  copy_file_range, rename, set_attr_by_fd, read_dir_plus, write_stream_open, write_stream_data,
  clone_file_range, get_file_lock, set_file_lock, set_file_lock_wait, link, set_xattr, get_xattr,
  list_xattr, remove_xattr,
}
use wsfs_core.Wire.Rsp.{rsp_error_bytes}
use wsfs_core.Util.Url.{is_url_valid}
use wsfs_core.Server.Session.{Session, load, reply_error, reply, cut}
use wsfs_core.Server.Handler.{with_fd, with_path}

-- Whether a served request names a path that is not valid.
abbrev pub names_bad_path : Command → Bool
names_bad_path (open_file d) = not (is_url_valid d.path)
names_bad_path (set_attr d) = not (is_url_valid d.path)
names_bad_path (mkdir d) = not (is_url_valid d.path)
names_bad_path (sym_link d) = not (is_url_valid d.target_path) || not (is_url_valid d.file_path)
names_bad_path (remove d) = not (is_url_valid d.path)
names_bad_path (rm_dir d) = not (is_url_valid d.path)
names_bad_path (fs_stat d) = not (is_url_valid d.path)
names_bad_path (rename d) = not (is_url_valid d.old_path) || not (is_url_valid d.new_path)
names_bad_path (link d) = not (is_url_valid d.target_path) || not (is_url_valid d.file_path)
names_bad_path (set_xattr d) = not (is_url_valid d.path)
names_bad_path (get_xattr d) = not (is_url_valid d.path)
names_bad_path (list_xattr d) = not (is_url_valid d.path)
names_bad_path (remove_xattr d) = not (is_url_valid d.path)
names_bad_path c = false

abbrev pub is_unknown : {World : Type 0} → Session World → ℕ → Bool
is_unknown s fd = elim (load fd s.fds) [ none ↦ true | some sfd ↦ false ]

-- Whether a served request names a descriptor that the session does not know. A copy of too many
-- bytes is refused before its descriptors are looked at.
abbrev pub names_bad_fd : {World : Type 0} → Session World → Command → Bool
names_bad_fd s (close_file d) = is_unknown s d.fd
names_bad_fd s (read_file d) = is_unknown s d.fd
names_bad_fd s (write_file d) = is_unknown s d.fd
names_bad_fd s (seek d) = is_unknown s d.fd
names_bad_fd s (allocate d) = is_unknown s d.fd
names_bad_fd s (sync d) = is_unknown s d.fd
names_bad_fd s (read_at d) = is_unknown s d.fd
names_bad_fd s (write_at d) = is_unknown s d.fd
names_bad_fd s (copy_file_range d) =
    not (ltb max_copy_file_range_chunk d.size) && (is_unknown s d.src_fd || is_unknown s d.dst_fd)
names_bad_fd s (set_attr_by_fd d) = is_unknown s d.fd
names_bad_fd s (clone_file_range d) = is_unknown s d.src_fd || is_unknown s d.dst_fd
names_bad_fd s (get_file_lock d) = is_unknown s d.fd
names_bad_fd s (set_file_lock d) = is_unknown s d.fd
names_bad_fd s (set_file_lock_wait d) = is_unknown s d.fd
names_bad_fd s c = false

-- The whole effect of a refusal on a connection that works is its one message.
pub record Refused {World : Type 0} (mark code : ℕ) (desc : Bytes) (before after : Session World)
    : Type 0 where
  pub same_world : after.world ≡ before.world
  pub same_fds : after.fds ≡ before.fds
  pub sent :
      after.conn.sent
      ≡ before.conn.sent ++ ((mark ∷ code ∷ rsp_error_bytes (record { desc = desc })) ∷ [])

cut-short : (limit : ℕ) (desc : Bytes) → length desc ≤ limit → cut limit desc ≡ desc
unfolding cut
cut-short limit desc h = let short : ltb limit (length desc) ≡ false = ground arith in rw short refl

module _ {World : Type 0} (mark : ℕ) where
  with_path-bad :
      (path : Bytes) (run : Bytes → Session World → Session World) (s : Session World)
      → not (is_url_valid path) ≡ true
      → with_path mark path run s ≡ reply_error mark error_invalid (text "bad path") s
  unfolding with_path
  with_path-bad path run s e = rw e refl

  with_fd-bad :
      (fd : ℕ) (run : ℕ → Session World → Session World) (s : Session World)
      → is_unknown s fd ≡ true
      → with_fd mark fd run s ≡ reply_error mark error_invalid_fd (text "bad fd") s
  unfolding with_fd
  with_fd-bad fd run s e = ground arith

  with_fds-bad :
      (fd1 fd2 : ℕ) (run : ℕ → ℕ → Session World → Session World) (s : Session World)
      → (is_unknown s fd1 || is_unknown s fd2) ≡ true
      → with_fd mark fd1 (λ sfd1. with_fd mark fd2 (run sfd1)) s
        ≡ reply_error mark error_invalid_fd (text "bad fd") s
  unfolding with_fd
  with_fds-bad fd1 fd2 run s e = ground arith

  pub reply_error-Refused :
      (code : ℕ) (desc : Bytes) (s : Session World)
      → length desc ≤ max_error_desc_length
      → IsHealthy s.conn
      → Refused mark code desc s (reply_error mark code desc s)
  unfolding reply_error reply
  reply_error-Refused code desc s fits h =
      rw (reply_error, cut-short max_error_desc_length desc fits)
        (record {
          same_world = refl;
          same_fds = refl;
          sent =
              (respond_sends mark code _ _ s.conn
                (write_rsp_error-Emits conn_writer (record { desc = desc }) (omega arith))
                (omega arith) h).1;
        })

module _ {World : Type 0} (os : Os World) (rest : ℕ → Command → Session World → Session World)
    (mark : ℕ) where
  bad_path_refused :
      (c : Command) (s : Session World)
      → names_bad_path c ≡ true
      → run_command os rest mark c s ≡ reply_error mark error_invalid (text "bad path") s
  unfolding run_command cmd_open cmd_set_attr cmd_mkdir cmd_remove cmd_rm_dir cmd_fs_stat
      cmd_sym_link cmd_link cmd_rename with_paths cmd_set_xattr cmd_get_xattr cmd_list_xattr
      cmd_remove_xattr
  bad_path_refused (open_file d) s e = with_path-bad mark d.path _ s e
  bad_path_refused (close_file d) s e = absurd (ground arith)
  bad_path_refused (read_file d) s e = absurd (ground arith)
  bad_path_refused (read_dir d) s e = absurd (ground arith)
  bad_path_refused (read_link d) s e = absurd (ground arith)
  bad_path_refused (write_file d) s e = absurd (ground arith)
  bad_path_refused (seek d) s e = absurd (ground arith)
  bad_path_refused (allocate d) s e = absurd (ground arith)
  bad_path_refused (get_attr d) s e = absurd (ground arith)
  bad_path_refused (set_attr d) s e = with_path-bad mark d.path _ s e
  bad_path_refused (sync d) s e = absurd (ground arith)
  bad_path_refused (mkdir d) s e = with_path-bad mark d.path _ s e
  bad_path_refused (sym_link d) s e = rw e refl
  bad_path_refused (remove d) s e = with_path-bad mark d.path _ s e
  bad_path_refused (rm_dir d) s e = with_path-bad mark d.path _ s e
  bad_path_refused (fs_stat d) s e = with_path-bad mark d.path _ s e
  bad_path_refused (read_at d) s e = absurd (ground arith)
  bad_path_refused (write_at d) s e = absurd (ground arith)
  bad_path_refused (copy_file_range d) s e = absurd (ground arith)
  bad_path_refused (rename d) s e = rw e refl
  bad_path_refused (set_attr_by_fd d) s e = absurd (ground arith)
  bad_path_refused (read_dir_plus d) s e = absurd (ground arith)
  bad_path_refused (write_stream_open d) s e = absurd (ground arith)
  bad_path_refused (write_stream_data d) s e = absurd (ground arith)
  bad_path_refused (clone_file_range d) s e = absurd (ground arith)
  bad_path_refused (get_file_lock d) s e = absurd (ground arith)
  bad_path_refused (set_file_lock d) s e = absurd (ground arith)
  bad_path_refused (set_file_lock_wait d) s e = absurd (ground arith)
  bad_path_refused (link d) s e = rw e refl
  bad_path_refused (set_xattr d) s e = with_path-bad mark d.path _ s e
  bad_path_refused (get_xattr d) s e = with_path-bad mark d.path _ s e
  bad_path_refused (list_xattr d) s e = with_path-bad mark d.path _ s e
  bad_path_refused (remove_xattr d) s e = with_path-bad mark d.path _ s e

  pub bad_fd_refused :
      (c : Command) (s : Session World)
      → names_bad_fd s c ≡ true
      → run_command os rest mark c s ≡ reply_error mark error_invalid_fd (text "bad fd") s
  unfolding run_command cmd_close cmd_read cmd_write cmd_seek cmd_allocate cmd_sync cmd_read_at
      cmd_write_at cmd_copy_file_range cmd_set_attr_by_fd cmd_clone_file_range cmd_get_file_lock
      cmd_set_file_lock cmd_set_file_lock_wait cmd_set_file_lock_common
  bad_fd_refused (open_file d) s e = absurd (ground arith)
  bad_fd_refused (close_file d) s e = with_fd-bad mark d.fd _ s e
  bad_fd_refused (read_file d) s e = with_fd-bad mark d.fd _ s e
  bad_fd_refused (read_dir d) s e = absurd (ground arith)
  bad_fd_refused (read_link d) s e = absurd (ground arith)
  bad_fd_refused (write_file d) s e = with_fd-bad mark d.fd _ s e
  bad_fd_refused (seek d) s e = with_fd-bad mark d.fd _ s e
  bad_fd_refused (allocate d) s e = with_fd-bad mark d.fd _ s e
  bad_fd_refused (get_attr d) s e = absurd (ground arith)
  bad_fd_refused (set_attr d) s e = absurd (ground arith)
  bad_fd_refused (sync d) s e = with_fd-bad mark d.fd _ s e
  bad_fd_refused (mkdir d) s e = absurd (ground arith)
  bad_fd_refused (sym_link d) s e = absurd (ground arith)
  bad_fd_refused (remove d) s e = absurd (ground arith)
  bad_fd_refused (rm_dir d) s e = absurd (ground arith)
  bad_fd_refused (fs_stat d) s e = absurd (ground arith)
  bad_fd_refused (read_at d) s e = with_fd-bad mark d.fd _ s e
  bad_fd_refused (write_at d) s e = with_fd-bad mark d.fd _ s e
  bad_fd_refused (copy_file_range d) s e =
      let fits : ltb max_copy_file_range_chunk d.size ≡ false = ground arith in
      rw fits (with_fds-bad mark d.src_fd d.dst_fd _ s (ground arith))
  bad_fd_refused (rename d) s e = absurd (ground arith)
  bad_fd_refused (set_attr_by_fd d) s e = with_fd-bad mark d.fd _ s e
  bad_fd_refused (read_dir_plus d) s e = absurd (ground arith)
  bad_fd_refused (write_stream_open d) s e = absurd (ground arith)
  bad_fd_refused (write_stream_data d) s e = absurd (ground arith)
  bad_fd_refused (clone_file_range d) s e = with_fds-bad mark d.src_fd d.dst_fd _ s e
  bad_fd_refused (get_file_lock d) s e = with_fd-bad mark d.fd _ s e
  bad_fd_refused (set_file_lock d) s e = with_fd-bad mark d.fd _ s e
  bad_fd_refused (set_file_lock_wait d) s e = with_fd-bad mark d.fd _ s e
  bad_fd_refused (link d) s e = absurd (ground arith)
  bad_fd_refused (set_xattr d) s e = absurd (ground arith)
  bad_fd_refused (get_xattr d) s e = absurd (ground arith)
  bad_fd_refused (list_xattr d) s e = absurd (ground arith)
  bad_fd_refused (remove_xattr d) s e = absurd (ground arith)

  -- A request that the model serves and that names a path that is not valid is answered by "bad path"
  -- alone, on a connection that works: the system is asked for nothing and no descriptor changes.
  pub bad_path-Refused :
      (c : Command) (s : Session World)
      → names_bad_path c ≡ true
      → IsHealthy s.conn
      → Refused mark error_invalid (text "bad path") s (run_command os rest mark c s)
  bad_path-Refused c s e h =
      rw (bad_path_refused c s e)
        (reply_error-Refused mark error_invalid (text "bad path") s (omega arith) h)

  -- A request that the model serves and that names a descriptor that the session does not know is
  -- answered by "bad fd" alone, on a connection that works: the system is asked for nothing and no
  -- descriptor changes.
  pub bad_fd-Refused :
      (c : Command) (s : Session World)
      → names_bad_fd s c ≡ true
      → IsHealthy s.conn
      → Refused mark error_invalid_fd (text "bad fd") s (run_command os rest mark c s)
  bad_fd-Refused c s e h =
      rw (bad_fd_refused c s e)
        (reply_error-Refused mark error_invalid_fd (text "bad fd") s (omega arith) h)
