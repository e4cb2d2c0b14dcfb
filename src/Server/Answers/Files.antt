-- ===== src/Server/Answers/Files.antt =====
-- The answers of the handlers for open files.
use wsfs_core.Prelude.{ℕ, arith, Option-cases, Bool-cases, inl, ltb, inr}
use wsfs_core.Server.Conn.Laws.{IsHealthy, conn_writer}
use wsfs_core.Wire.Text.{text}
use wsfs_core.Server.Os.{Os}
use wsfs_core.Server.Session.{Session}
use wsfs_core.Server.FileCmds.{
  cmd_close, cmd_seek, cmd_write, cmd_allocate, cmd_sync, cmd_write_at, cmd_copy_file_range,
  cmd_clone_file_range, cmd_get_file_lock, cmd_set_file_lock_common,
}
use wsfs_core.Server.Answers.{Answers}
use wsfs_core.Server.Answers.Replies.{
  with_fd-Answers, errno-Answers, calling-Answers, reply_with-Answers, reply_error-Answers,
}
use wsfs_core.Wire.Rsp.{
  write_rsp_seek, write_rsp_write, write_rsp_write_at, write_rsp_copy_file_range,
  write_rsp_get_file_lock,
}
use wsfs_core.Wire.Attr.{write_file_lock_info, file_lock_info_bytes}
use wsfs_core.Server.Errno.{ignoring_eintr}
use wsfs_core.Wire.Bytes.{put_u64}
use wsfs_core.Wire.Codes.{max_copy_file_range_chunk, error_not_support, error_invalid}
use wsfs_core.Wire.Sink.{write-Emits}
use wsfs_core.Wire.Text.{text}
use wsfs_core.Prelude.Int.{to_uint64}

module _ {World : Type 0} (os : Os World) (mark : ℕ) (s : Session World)
    (h : IsHealthy s.conn) where
  pub cmd_close-Answers : (d : _) → Answers mark s.conn (cmd_close os mark d s).conn
  unfolding cmd_close
  cmd_close-Answers d = with_fd-Answers mark d.fd _ s h λ sfd. errno-Answers mark (os.close sfd) _ h

  pub cmd_seek-Answers : (d : _) → Answers mark s.conn (cmd_seek os mark d s).conn
  unfolding cmd_seek write_rsp_seek
  cmd_seek-Answers d = with_fd-Answers mark d.fd _ s h λ sfd.
      elim (Option-cases (os.whence_to_unix d.whence)) [
        | inl e ↦ rw e (
            reply_error-Answers mark error_not_support (text "whence not supported") s
              (ground arith) h)
        | inr (whence, e) ↦ rw e (
            calling-Answers mark (os.seek sfd d.offset whence) _ s λ w r.
              reply_with-Answers os mark _ (λ offset. put_u64 (to_uint64 offset)) r _
                (λ offset. write-Emits conn_writer (put_u64 (to_uint64 offset)))
                (λ offset. omega arith) h)
      ]

  pub cmd_write-Answers : (d : _) → Answers mark s.conn (cmd_write os mark d s).conn
  unfolding cmd_write write_rsp_write
  cmd_write-Answers d = with_fd-Answers mark d.fd _ s h λ sfd.
      calling-Answers mark (ignoring_eintr os.eintr_limit (os.write sfd d.payload)) _ s λ w r.
        reply_with-Answers os mark _ (λ count. put_u64 count) r _
          (λ count. write-Emits conn_writer (put_u64 count)) (λ count. omega arith) h

  pub cmd_allocate-Answers : (d : _) → Answers mark s.conn (cmd_allocate os mark d s).conn
  unfolding cmd_allocate
  cmd_allocate-Answers d = with_fd-Answers mark d.fd _ s h λ sfd. errno-Answers mark _ _ h

  pub cmd_sync-Answers : (d : _) → Answers mark s.conn (cmd_sync os mark d s).conn
  unfolding cmd_sync
  cmd_sync-Answers d = with_fd-Answers mark d.fd _ s h λ sfd. errno-Answers mark (os.fsync sfd) _ h

  pub cmd_write_at-Answers : (d : _) → Answers mark s.conn (cmd_write_at os mark d s).conn
  unfolding cmd_write_at write_rsp_write_at
  cmd_write_at-Answers d = with_fd-Answers mark d.fd _ s h λ sfd. calling-Answers mark _ _ s λ w r.
      reply_with-Answers os mark _ (λ count. put_u64 count) r _
        (λ count. write-Emits conn_writer (put_u64 count)) (λ count. omega arith) h

  pub cmd_copy_file_range-Answers :
      (d : _) → Answers mark s.conn (cmd_copy_file_range os mark d s).conn
  unfolding cmd_copy_file_range write_rsp_copy_file_range
  cmd_copy_file_range-Answers d = elim (Bool-cases (ltb max_copy_file_range_chunk d.size)) [
    | inl e ↦ rw e (
        reply_error-Answers mark error_invalid (text "copy_file_range size exceeds limit") s
          (ground arith) h)
    | inr e ↦ rw e (
        with_fd-Answers mark d.src_fd _ s h λ sfd1. with_fd-Answers mark d.dst_fd _ s h λ sfd2.
          calling-Answers mark _ _ s λ w r.
            reply_with-Answers os mark _ (λ copied. put_u64 copied) r _
              (λ copied. write-Emits conn_writer (put_u64 copied)) (λ copied. omega arith) h)
  ]

  pub cmd_clone_file_range-Answers :
      (d : _) → Answers mark s.conn (cmd_clone_file_range os mark d s).conn
  unfolding cmd_clone_file_range
  cmd_clone_file_range-Answers d =
      with_fd-Answers mark d.src_fd _ s h
        λ sfd1. with_fd-Answers mark d.dst_fd _ s h λ sfd2. errno-Answers mark _ _ h

  pub cmd_get_file_lock-Answers : (d : _) → Answers mark s.conn (cmd_get_file_lock os mark d s).conn
  unfolding cmd_get_file_lock write_rsp_get_file_lock write_file_lock_info
  cmd_get_file_lock-Answers d = with_fd-Answers mark d.fd _ s h λ sfd.
      calling-Answers mark (os.get_lock sfd d.file_lock) _ s λ w r.
        reply_with-Answers os mark _ (λ lock. file_lock_info_bytes lock) r _
          (λ lock. write-Emits conn_writer _) (λ lock. omega arith) h

  pub cmd_set_file_lock_common-Answers :
      (fd : ℕ) (lock : _) (blocking : _)
      → Answers mark s.conn (cmd_set_file_lock_common os mark fd lock blocking s).conn
  unfolding cmd_set_file_lock_common
  cmd_set_file_lock_common-Answers fd lock blocking =
      with_fd-Answers mark fd _ s h λ sfd. errno-Answers mark _ _ h
