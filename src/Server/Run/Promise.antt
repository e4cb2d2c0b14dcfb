-- ===== src/Server/Run/Promise.antt =====
-- From a request's message to its answer.
use wsfs_core.Prelude.{ℕ, refl, Bool, ◌≡◌, true, false, arith, some, length, ◌≤◌}
use wsfs_core.Wire.Command.{
  Command, open_file, close_file, read_file, read_dir, read_link, write_file, seek, allocate,
  get_attr, set_attr, sync, mkdir, sym_link, remove, rm_dir, fs_stat, read_at, write_at,
  copy_file_range, rename, set_attr_by_fd, read_dir_plus, write_stream_open, write_stream_data,
  clone_file_range, get_file_lock, set_file_lock, set_file_lock_wait, link, set_xattr, get_xattr,
  list_xattr, remove_xattr, IsCommand, frame,
}
use wsfs_core.Server.Answers.XAttrs.{
  cmd_set_xattr-Answers, cmd_get_xattr-Answers, cmd_list_xattr-Answers, cmd_remove_xattr-Answers,
}
use wsfs_core.Server.Answers.Files.{
  cmd_close-Answers, cmd_seek-Answers, cmd_write-Answers, cmd_allocate-Answers, cmd_sync-Answers,
  cmd_write_at-Answers, cmd_copy_file_range-Answers, cmd_clone_file_range-Answers,
  cmd_get_file_lock-Answers, cmd_set_file_lock_common-Answers,
}
use wsfs_core.Server.Answers.Paths.{
  cmd_open-Answers, cmd_mkdir-Answers, cmd_remove-Answers, cmd_rm_dir-Answers, cmd_fs_stat-Answers,
  cmd_sym_link-Answers, cmd_link-Answers, cmd_rename-Answers, cmd_set_attr-Answers,
  cmd_set_attr_by_fd-Answers,
}
use wsfs_core.Server.Conn.Laws.{IsHealthy}
use wsfs_core.Server.Os.{Os}
use wsfs_core.Server.FileCmds.{cmd_set_file_lock, cmd_set_file_lock_wait}
use wsfs_core.Wire.Source.{message, Grain}
use wsfs_core.Server.Session.{Session}
use wsfs_core.Server.Answers.{Answers}
use wsfs_core.Server.Answers.Reads.{ReadsAtMost, read_all_of-Answers}
use wsfs_core.Server.ReadCmds.{cmd_read, cmd_read_at}
use wsfs_core.Server.Run.{
  run_command, open_file, close_file, cmd_set_file_lock, run_dispatched, serve,
  cmd_set_file_lock_wait, max_command_length, limited-short,
}
use wsfs_core.Prelude.Int.{ℤ, to_int64}
use wsfs_core.Server.Answers.Replies.{with_fd-Answers}
use wsfs_core.Wire.Command.RoundTrip.{dispatch_command-frame}

-- Reads give at most the bytes that they were asked for: read(2) and pread(2).
pub record ReadsShort {World : Type 0} (os : Os World) : Type 0 where
  pub read_short : (fd size : ℕ) → ReadsAtMost size (os.read fd size)
  pub pread_short : (fd size : ℕ) (off : ℤ) → ReadsAtMost size (os.pread fd size off)

-- The commands that the model serves itself.
abbrev pub is_served : Command → Bool
is_served (read_dir d) = false
is_served (read_link d) = false
is_served (get_attr d) = false
is_served (read_dir_plus d) = false
is_served (write_stream_open d) = false
is_served (write_stream_data d) = false
is_served c = true

module _ {World : Type 0} (os : Os World) (short : ReadsShort os) (mark : ℕ) (s : Session World)
    (h : IsHealthy s.conn) where
  cmd_read-Answers : (d : _) → Answers mark s.conn (cmd_read os mark d s).conn
  unfolding cmd_read
  cmd_read-Answers d = with_fd-Answers mark d.fd _ s h λ sfd.
      read_all_of-Answers mark (λ off size. os.read sfd size) 0 d.size s
        (λ off size. short.read_short sfd size) h

  cmd_read_at-Answers : (d : _) → Answers mark s.conn (cmd_read_at os mark d s).conn
  unfolding cmd_read_at
  cmd_read_at-Answers d = with_fd-Answers mark d.fd _ s h λ sfd.
      read_all_of-Answers mark (λ off size. os.pread sfd size (to_int64 off)) d.offset d.size s
        (λ off size. short.pread_short sfd size (to_int64 off)) h

  pub run_command-Answers :
      (rest : ℕ → Command → Session World → Session World) (c : Command)
      → is_served c ≡ true
      → Answers mark s.conn (run_command os rest mark c s).conn
  unfolding run_command cmd_set_file_lock cmd_set_file_lock_wait
  run_command-Answers rest (open_file d) e = cmd_open-Answers os mark s h d
  run_command-Answers rest (close_file d) e = cmd_close-Answers os mark s h d
  run_command-Answers rest (read_file d) e = cmd_read-Answers d
  run_command-Answers rest (read_dir d) e = absurd (ground arith)
  run_command-Answers rest (read_link d) e = absurd (ground arith)
  run_command-Answers rest (write_file d) e = cmd_write-Answers os mark s h d
  run_command-Answers rest (seek d) e = cmd_seek-Answers os mark s h d
  run_command-Answers rest (allocate d) e = cmd_allocate-Answers os mark s h d
  run_command-Answers rest (get_attr d) e = absurd (ground arith)
  run_command-Answers rest (set_attr d) e = cmd_set_attr-Answers os mark s h d
  run_command-Answers rest (sync d) e = cmd_sync-Answers os mark s h d
  run_command-Answers rest (mkdir d) e = cmd_mkdir-Answers os mark s h d
  run_command-Answers rest (sym_link d) e = cmd_sym_link-Answers os mark s h d
  run_command-Answers rest (remove d) e = cmd_remove-Answers os mark s h d
  run_command-Answers rest (rm_dir d) e = cmd_rm_dir-Answers os mark s h d
  run_command-Answers rest (fs_stat d) e = cmd_fs_stat-Answers os mark s h d
  run_command-Answers rest (read_at d) e = cmd_read_at-Answers d
  run_command-Answers rest (write_at d) e = cmd_write_at-Answers os mark s h d
  run_command-Answers rest (copy_file_range d) e = cmd_copy_file_range-Answers os mark s h d
  run_command-Answers rest (rename d) e = cmd_rename-Answers os mark s h d
  run_command-Answers rest (set_attr_by_fd d) e = cmd_set_attr_by_fd-Answers os mark s h d
  run_command-Answers rest (read_dir_plus d) e = absurd (ground arith)
  run_command-Answers rest (write_stream_open d) e = absurd (ground arith)
  run_command-Answers rest (write_stream_data d) e = absurd (ground arith)
  run_command-Answers rest (clone_file_range d) e = cmd_clone_file_range-Answers os mark s h d
  run_command-Answers rest (get_file_lock d) e = cmd_get_file_lock-Answers os mark s h d
  run_command-Answers rest (set_file_lock d) e =
      cmd_set_file_lock_common-Answers os mark s h d.fd d.file_lock false
  run_command-Answers rest (set_file_lock_wait d) e =
      cmd_set_file_lock_common-Answers os mark s h d.fd d.file_lock true
  run_command-Answers rest (link d) e = cmd_link-Answers os mark s h d
  run_command-Answers rest (set_xattr d) e = cmd_set_xattr-Answers os mark s h d
  run_command-Answers rest (get_xattr d) e = cmd_get_xattr-Answers os mark s h d
  run_command-Answers rest (list_xattr d) e = cmd_list_xattr-Answers os mark s h d
  run_command-Answers rest (remove_xattr d) e = cmd_remove_xattr-Answers os mark s h d

module _ {World : Type 0} (os : Os World) (short : ReadsShort os)
    (rest : ℕ → Command → Session World → Session World) where
  -- On a connection that works, every valid request that the model serves and whose message is within
  -- the read limit is answered under the mark of the request, however its bytes arrive: by partial messages and then exactly one
  -- that is not partial, all within the message size, and the connection goes on working. Reads
  -- are assumed to give no more than they were asked for.
  pub serve-Answers :
      (mark : ℕ) (c : Command) (grain : Grain) (s : Session World)
      → IsCommand c
      → length (frame mark c) ≤ max_command_length
      → is_served c ≡ true
      → IsHealthy s.conn
      → (s' : Session World) × (serve os rest (message (frame mark c) grain) s ≡ some s')
        × Answers mark s.conn s'.conn
  unfolding serve run_dispatched
  serve-Answers mark c grain s v fits e h =
      let got : serve os rest (message (frame mark c) grain) s
          ≡ some (run_command os rest mark c s) =
        rw
          (
            serve,
            limited-short (message (frame mark c) grain) fits,
            dispatch_command-frame mark c grain v,
          )
          refl in
      (run_command os rest mark c s, got, run_command-Answers os short mark s h rest c e)
