-- ===== src/Server/Answers/Paths.antt =====
-- The answers of the handlers that take paths, and of those that set attributes.
use wsfs_core.Prelude.{
  true, false, ℕ, arith, Bool-cases, Option-cases, not, inl, inr, ◌||◌, if◌then◌else◌, ◌++◌, ◌==◌,
  Bool,
}
use wsfs_core.Wire.Bytes.{Bytes, put_u32}
use wsfs_core.Server.Conn.Laws.{IsHealthy, conn_writer}
use wsfs_core.Wire.Text.{text}
use wsfs_core.Server.Os.{Os}
use wsfs_core.Server.Session.{Session, new_fd, reply_error, reply_errno}
use wsfs_core.Server.Answers.{Answers}
use wsfs_core.Server.Answers.Replies.{
  with_fd-Answers, errno-Answers, with_path-Answers, calling-Answers, reply_with-Answers,
  reply_error-Answers, wsfs_err_code-ne_partial, reply-Answers,
}
use wsfs_core.Server.PathCmds.{
  opened, cmd_open, cmd_mkdir, cmd_remove, cmd_rm_dir, cmd_fs_stat, with_paths, cmd_sym_link,
  cmd_link, cmd_rename, access_flag, add_flags, flagged_rename,
}
use wsfs_core.Server.AttrCmds.{cmd_set_attr, cmd_set_attr_by_fd}
use wsfs_core.Wire.Rsp.{write_rsp_open, write_rsp_fs_stat, rsp_fs_stat_bytes}
use wsfs_core.Server.Errno.{SysResult, failed, wsfs_err_code}
use wsfs_core.Util.Url.{is_url_valid}
use wsfs_core.Wire.Codes.{error_invalid, error_not_support, open_flags, error_ok}
use wsfs_core.Wire.Sink.{write-Emits}
use wsfs_core.Wire.Text.{text}
use wsfs_core.Server.Handler.{calling}

module _ {World : Type 0} (os : Os World) (mark : ℕ) (s : Session World)
    (h : IsHealthy s.conn) where
  opened-Answers :
      (r : SysResult ℕ) (s : Session World)
      → IsHealthy s.conn
      → Answers mark s.conn (opened os mark r s).conn
  unfolding opened write_rsp_open new_fd
  opened-Answers (failed e) s h =
      reply_error-Answers mark (wsfs_err_code e) (text "syscall error") s
        (wsfs_err_code-ne_partial e) h
  opened-Answers (SysResult.done sfd) s h =
      reply-Answers mark error_ok _ (put_u32 (new_fd sfd s).0) (new_fd sfd s).1
        (write-Emits conn_writer _) (omega arith) (ground arith) h

  pub cmd_open-Answers : (d : _) → Answers mark s.conn (cmd_open os mark d s).conn
  unfolding cmd_open
  cmd_open-Answers d = with_path-Answers mark d.path _ s h λ apath.
      elim (Option-cases (access_flag os d.oflag)) [
        | inl e ↦ rw e (
            reply_error-Answers mark error_invalid (text "bad open access mode") s (ground arith) h)
        | inr (access, e) ↦ elim (Option-cases (add_flags os d.oflag open_flags access)) [
          | inl f ↦
              rw (e, f)
                (reply_error-Answers mark error_not_support (text "not supported open flag") s
                  (ground arith) h)
          | inr (oflag, f) ↦ rw (e, f) (calling-Answers mark _ _ s λ w r. opened-Answers r _ h)
        ]
      ]

  pub cmd_mkdir-Answers : (d : _) → Answers mark s.conn (cmd_mkdir os mark d s).conn
  unfolding cmd_mkdir
  cmd_mkdir-Answers d = with_path-Answers mark d.path _ s h λ apath. errno-Answers mark _ _ h

  pub cmd_remove-Answers : (d : _) → Answers mark s.conn (cmd_remove os mark d s).conn
  unfolding cmd_remove
  cmd_remove-Answers d =
      with_path-Answers mark d.path _ s h λ apath. errno-Answers mark (os.unlink apath) _ h

  pub cmd_rm_dir-Answers : (d : _) → Answers mark s.conn (cmd_rm_dir os mark d s).conn
  unfolding cmd_rm_dir
  cmd_rm_dir-Answers d =
      with_path-Answers mark d.path _ s h λ apath. errno-Answers mark (os.rmdir apath) _ h

  pub cmd_fs_stat-Answers : (d : _) → Answers mark s.conn (cmd_fs_stat os mark d s).conn
  unfolding cmd_fs_stat write_rsp_fs_stat
  cmd_fs_stat-Answers d = with_path-Answers mark d.path _ s h λ apath.
      calling-Answers mark (os.fs_size apath) _ s λ w r.
        reply_with-Answers os mark _ (λ st. rsp_fs_stat_bytes st) r _
          (λ st. write-Emits conn_writer _) (λ st. omega arith) h

  with_paths-Answers :
      (old new : Bytes) (run : Bytes → Bytes → Session World → Session World)
      → ((old new : Bytes) → Answers mark s.conn (run old new s).conn)
      → Answers mark s.conn (with_paths os mark old new run s).conn
  unfolding with_paths
  with_paths-Answers old new run k =
      elim (Bool-cases (not (is_url_valid old) || not (is_url_valid new))) [
        | inl e ↦ rw e (reply_error-Answers mark error_invalid (text "bad path") s (ground arith) h)
        | inr e ↦ rw e (k (s.storage ++ old) (s.storage ++ new))
      ]

  pub cmd_sym_link-Answers : (d : _) → Answers mark s.conn (cmd_sym_link os mark d s).conn
  unfolding cmd_sym_link
  cmd_sym_link-Answers d =
      with_paths-Answers d.target_path d.file_path
        (λ old new. calling (os.symlink old new) (reply_errno mark))
        λ old new. errno-Answers mark (os.symlink old new) s h

  either-Answers :
      (test : Bool) (s1 s2 : Session World)
      → Answers mark s.conn s1.conn
      → Answers mark s.conn s2.conn
      → Answers mark s.conn (if test then s1 else s2).conn
  either-Answers true s1 s2 a b = a
  either-Answers false s1 s2 a b = b

  pub cmd_link-Answers : (d : _) → Answers mark s.conn (cmd_link os mark d s).conn
  unfolding cmd_link
  cmd_link-Answers d =
      with_paths-Answers d.target_path d.file_path
        (λ old new s.
          if not s.enable_link
          then reply_error mark error_not_support (text "syscall error") s
          else calling (os.link old new) (reply_errno mark) s)
        λ old new.
          either-Answers (not s.enable_link) _ _
            (reply_error-Answers mark error_not_support (text "syscall error") s (ground arith) h)
            (errno-Answers mark (os.link old new) s h)

  pub cmd_rename-Answers : (d : _) → Answers mark s.conn (cmd_rename os mark d s).conn
  unfolding cmd_rename
  cmd_rename-Answers d =
      with_paths-Answers d.old_path d.new_path
        (λ old new.
          calling (if d.flag == 0 then os.rename old new else flagged_rename os old new d.flag)
            (reply_errno mark))
        λ old new.
          errno-Answers mark
            (if d.flag == 0 then os.rename old new else flagged_rename os old new d.flag) s h

  pub cmd_set_attr-Answers : (d : _) → Answers mark s.conn (cmd_set_attr os mark d s).conn
  unfolding cmd_set_attr
  cmd_set_attr-Answers d = with_path-Answers mark d.path _ s h λ apath. errno-Answers mark _ s h

  pub cmd_set_attr_by_fd-Answers :
      (d : _) → Answers mark s.conn (cmd_set_attr_by_fd os mark d s).conn
  unfolding cmd_set_attr_by_fd
  cmd_set_attr_by_fd-Answers d = with_fd-Answers mark d.fd _ s h λ sfd. errno-Answers mark _ s h
