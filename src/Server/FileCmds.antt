-- ===== src/Server/FileCmds.antt =====
-- The handlers of commands-unix.go for requests on an open file, but for the reads.
use wsfs_core.Prelude.{ℕ, Bool, true, false, none, some, ltb, if◌then◌else◌}
use wsfs_core.Prelude.Int.{to_int64, to_uint64}
use wsfs_core.Wire.Text.{text}
use wsfs_core.Wire.Codes.{error_ok, error_invalid, error_not_support, max_copy_file_range_chunk}
use wsfs_core.Wire.Sink.{Put}
use wsfs_core.Wire.Attr.{FileLockInfo}
use wsfs_core.Wire.IoCmd.{
  CmdCloseStruct, CmdWriteStruct, CmdSeekStruct, CmdAllocateStruct, CmdSyncStruct, CmdWriteAtStruct,
}
use wsfs_core.Wire.RangeCmd.{
  CmdCopyFileRangeStruct, CmdCloneFileRangeStruct, CmdGetFileLockStruct, CmdSetFileLockStruct,
  CmdSetFileLockWaitStruct,
}
use wsfs_core.Wire.Rsp.{
  write_rsp_write, write_rsp_seek, write_rsp_write_at, write_rsp_copy_file_range,
  write_rsp_get_file_lock,
}
use wsfs_core.Server.Conn.{Conn}
use wsfs_core.Server.Conn.Laws.{conn_writer}
use wsfs_core.Server.Errno.{SysResult, failed, wsfs_err_code, ignoring_eintr}
use wsfs_core.Server.Os.{Os}
use wsfs_core.Server.Session.{Session, delete, reply, reply_error, reply_errno}
use wsfs_core.Server.Handler.{with_fd, calling}

module _ {World : Type 0} (os : Os World) where
  -- An answer with a payload, or the error of the system call.
  unfoldable pub reply_with :
      {A : Type 0} → ℕ → (A → Put Conn) → SysResult A → Session World → Session World
  reply_with mark put (SysResult.done a) s = reply mark error_ok (put a) s
  reply_with mark put (failed e) s = reply_error mark (wsfs_err_code e) (text "syscall error") s

  unfoldable pub cmd_close : ℕ → CmdCloseStruct → Session World → Session World
  cmd_close mark req =
      with_fd mark req.fd
        λ sfd s. calling (os.close sfd) (reply_errno mark) (record s { fds = delete req.fd s.fds })

  unfoldable pub cmd_seek : ℕ → CmdSeekStruct → Session World → Session World
  cmd_seek mark req = with_fd mark req.fd λ sfd s. elim (os.whence_to_unix req.whence) [
    | none ↦ reply_error mark error_not_support (text "whence not supported") s
    | some whence ↦
        calling (os.seek sfd req.offset whence)
          (reply_with mark
            λ offset. write_rsp_seek conn_writer (record { offset = to_uint64 offset }))
          s
  ]

  unfoldable pub cmd_write : ℕ → CmdWriteStruct → Session World → Session World
  cmd_write mark req = with_fd mark req.fd λ sfd s.
      calling (ignoring_eintr os.eintr_limit (os.write sfd req.payload))
        (reply_with mark λ count. write_rsp_write conn_writer (record { written = count })) s

  unfoldable pub cmd_allocate : ℕ → CmdAllocateStruct → Session World → Session World
  cmd_allocate mark req = with_fd mark req.fd λ sfd s.
      calling (os.fallocate sfd req.flag (to_int64 req.offset) (to_int64 req.size))
        (reply_errno mark) s

  unfoldable pub cmd_sync : ℕ → CmdSyncStruct → Session World → Session World
  cmd_sync mark req = with_fd mark req.fd λ sfd s. calling (os.fsync sfd) (reply_errno mark) s

  unfoldable pub cmd_write_at : ℕ → CmdWriteAtStruct → Session World → Session World
  cmd_write_at mark req = with_fd mark req.fd λ sfd s.
      calling (ignoring_eintr os.eintr_limit (os.pwrite sfd req.payload (to_int64 req.offset)))
        (reply_with mark λ count. write_rsp_write_at conn_writer (record { written = count })) s

  unfoldable pub cmd_copy_file_range : ℕ → CmdCopyFileRangeStruct → Session World → Session World
  cmd_copy_file_range mark req s =
      if ltb max_copy_file_range_chunk req.size
      then reply_error mark error_invalid (text "copy_file_range size exceeds limit") s
      else with_fd mark req.src_fd
          (λ sfd1. with_fd mark req.dst_fd λ sfd2.
            calling
              (os.copy_file_range sfd1 (to_int64 req.src_offset) sfd2 (to_int64 req.dst_offset)
                req.size)
              (reply_with mark
                λ copied. write_rsp_copy_file_range conn_writer (record { copied = copied })))
          s

  unfoldable pub cmd_clone_file_range : ℕ → CmdCloneFileRangeStruct → Session World → Session World
  cmd_clone_file_range mark req = with_fd mark req.src_fd λ sfd1. with_fd mark req.dst_fd λ sfd2.
      calling (os.clone_file_range sfd2 sfd1 req.dst_offset req.src_offset req.size)
        (reply_errno mark)

  unfoldable pub cmd_get_file_lock : ℕ → CmdGetFileLockStruct → Session World → Session World
  cmd_get_file_lock mark req = with_fd mark req.fd λ sfd.
      calling (os.get_lock sfd req.file_lock)
        (reply_with mark λ lock. write_rsp_get_file_lock conn_writer (record { file_lock = lock }))

  unfoldable pub cmd_set_file_lock_common :
      ℕ → ℕ → FileLockInfo → Bool → Session World → Session World
  cmd_set_file_lock_common mark fd lock blocking =
      with_fd mark fd λ sfd. calling (os.set_lock sfd lock blocking) (reply_errno mark)

  unfoldable pub cmd_set_file_lock : ℕ → CmdSetFileLockStruct → Session World → Session World
  unfolding cmd_set_file_lock_common
  cmd_set_file_lock mark req = cmd_set_file_lock_common mark req.fd req.file_lock false

  unfoldable pub cmd_set_file_lock_wait :
      ℕ → CmdSetFileLockWaitStruct → Session World → Session World
  unfolding cmd_set_file_lock_common
  cmd_set_file_lock_wait mark req = cmd_set_file_lock_common mark req.fd req.file_lock true
