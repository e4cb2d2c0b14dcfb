-- ===== src/Client/FileCmds.antt =====
-- The commands of internal/client/session/commands.go on an open file, but for those that write.
use wsfs_core.Prelude.{ℕ, length}
use wsfs_core.Prelude.Int.{ℤ}
use wsfs_core.Wire.Codes.{error_ok, error_io}
use wsfs_core.Wire.Attr.{FileLockInfo, FileInfo}
use wsfs_core.Wire.Command.{
  close_file, sync, read_file, read_at, seek, allocate, clone_file_range, get_file_lock,
  set_file_lock, set_file_lock_wait, set_attr_by_fd,
}
use wsfs_core.Wire.Rsp.{read_rsp_seek, read_rsp_get_file_lock}
use wsfs_core.Client.{read_answer}
use wsfs_core.Client.Request.{request_command, status, value_of}
use wsfs_core.Wire.Bytes.{Bytes}
use wsfs_core.Client.Session.{Remote, Client}

-- The zero value of the struct.
abbrev pub no_lock : FileLockInfo
no_lock = record { lock_type = 0; whence = 0; start = 0; size = 0 }

module _ {Peer : Type 0} (remote : Remote Peer) where
  unfoldable pub cmd_close : ℕ → Client Peer ℕ
  cmd_close fd = request_command remote (close_file (record { fd = fd })) error_io error_io status

  unfoldable pub cmd_sync : ℕ → Client Peer ℕ
  cmd_sync fd = request_command remote (sync (record { fd = fd })) error_io error_io status

  -- How many bytes were read, the code, and the destination.
  unfoldable pub cmd_read : ℕ → Bytes → Client Peer (ℕ × ℕ × Bytes)
  cmd_read fd dest =
      request_command remote (read_file (record { fd = fd; size = length dest }))
        (0, error_io, dest) (0, error_io, dest) (read_answer 0 dest)

  unfoldable pub cmd_read_at : ℕ → ℕ → Bytes → Client Peer (ℕ × ℕ × Bytes)
  cmd_read_at fd offset dest =
      request_command remote (read_at (record { fd = fd; offset = offset; size = length dest }))
        (0, error_io, dest) (0, error_io, dest) (read_answer 0 dest)

  -- A connection that takes no request makes this a success at position 0: the named results are
  -- returned as they are.
  unfoldable pub cmd_seek : ℕ → ℕ → ℤ → Client Peer (ℕ × ℕ)
  cmd_seek fd whence off =
      request_command remote (seek (record { fd = fd; whence = whence; offset = off }))
        (0, error_io) (0, error_ok) (value_of read_rsp_seek (λ rsp. rsp.offset) 0)

  unfoldable pub cmd_allocate : ℕ → ℕ → ℕ → ℕ → Client Peer ℕ
  cmd_allocate fd flag off size =
      request_command remote (allocate (record { fd = fd; flag = flag; offset = off; size = size }))
        error_io error_io status

  unfoldable pub cmd_clone_file_range : ℕ → ℕ → ℕ → ℕ → ℕ → Client Peer ℕ
  cmd_clone_file_range fd1 fd2 off1 off2 size =
      request_command remote
        (clone_file_range (record {
          src_fd = fd1;
          dst_fd = fd2;
          src_offset = off1;
          dst_offset = off2;
          size = size;
        }))
        error_io error_io status

  unfoldable pub cmd_get_file_lock : ℕ → FileLockInfo → Client Peer (FileLockInfo × ℕ)
  cmd_get_file_lock fd file_lock =
      request_command remote (get_file_lock (record { fd = fd; file_lock = file_lock }))
        (no_lock, error_io) (no_lock, error_io)
        (value_of read_rsp_get_file_lock (λ rsp. rsp.file_lock) no_lock)

  unfoldable pub cmd_set_file_lock : ℕ → FileLockInfo → Client Peer ℕ
  cmd_set_file_lock fd file_lock =
      request_command remote (set_file_lock (record { fd = fd; file_lock = file_lock })) error_io
        error_io status

  unfoldable pub cmd_set_file_lock_wait : ℕ → FileLockInfo → Client Peer ℕ
  cmd_set_file_lock_wait fd file_lock =
      request_command remote (set_file_lock_wait (record { fd = fd; file_lock = file_lock }))
        error_io error_io status

  unfoldable pub cmd_set_attr_by_fd : ℕ → ℕ → FileInfo → Client Peer ℕ
  cmd_set_attr_by_fd fd flag fi =
      request_command remote (set_attr_by_fd (record { fd = fd; flag = flag; fi = fi })) error_io
        error_io status
