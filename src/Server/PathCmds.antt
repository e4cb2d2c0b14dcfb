-- ===== src/Server/PathCmds.antt =====
-- The handlers of commands-unix.go for requests that make, move and remove files, and of opening one.
use wsfs_core.Prelude.{
  ℕ, not, ◌||◌, Option, none, some, List, [], ◌∷◌, ◌++◌, ◌==◌, if◌then◌else◌, bit_and,
}
use Prim.Native.Nat.{bit_or}
use wsfs_core.Wire.Bytes.{Bytes}
use wsfs_core.Wire.Text.{text}
use wsfs_core.Wire.Codes.{
  error_ok, error_invalid, error_not_support, o_accmode, o_rdonly, o_wronly, o_rdwr, open_flags,
}
use wsfs_core.Wire.PathCmd.{
  CmdOpenStruct, CmdMkdirStruct, CmdRemoveStruct, CmdRmDirStruct, CmdFsStatStruct,
}
use wsfs_core.Wire.LinkCmd.{CmdSymLinkStruct, CmdRenameStruct, CmdLinkStruct}
use wsfs_core.Wire.Rsp.{write_rsp_open, write_rsp_fs_stat}
use wsfs_core.Util.Url.{is_url_valid}
use wsfs_core.Server.Conn.Laws.{conn_writer}
use wsfs_core.Server.Errno.{Sys, SysResult, failed, wsfs_err_code, ignoring_eintr}
use wsfs_core.Server.Os.{Os}
use wsfs_core.Server.Session.{Session, new_fd, reply, reply_error, reply_errno}
use wsfs_core.Server.Handler.{has_flag, with_path, calling, and_then}
use wsfs_core.Server.FileCmds.{reply_with}

abbrev or_zero : Option ℕ → ℕ
or_zero none = 0
or_zero (some f) = f

module _ {World : Type 0} (os : Os World) where
  -- The switch on the access mode.
  unfoldable pub access_flag : ℕ → Option ℕ
  access_flag oflag =
      let mode = bit_and oflag o_accmode in
      if mode == o_rdonly
      then some (or_zero (os.open_flag_to_unix o_rdonly))
      else (if mode == o_wronly
          then some (or_zero (os.open_flag_to_unix o_wronly))
          else (if mode == o_rdwr then some (or_zero (os.open_flag_to_unix o_rdwr)) else none))

  -- The loop over the protocol's flags; `none` for one that the system has not.
  unfoldable pub add_flags : ℕ → List ℕ → ℕ → Option ℕ
  add_flags oflag [] acc = some acc
  add_flags oflag (f ∷ fs) acc =
      let skip = add_flags oflag fs acc in
      if has_flag f o_accmode || not (has_flag oflag f)
      then skip
      else elim (os.open_flag_to_unix f) [
        | none ↦ none
        | some u ↦ add_flags oflag fs (bit_or acc u)
      ]

  unfoldable pub opened : ℕ → SysResult ℕ → Session World → Session World
  opened mark (failed e) s = reply_error mark (wsfs_err_code e) (text "syscall error") s
  opened mark (SysResult.done sfd) s =
      let (wfd, s') = new_fd sfd s in
      reply mark error_ok (write_rsp_open conn_writer (record { fd = wfd })) s'

  unfoldable pub cmd_open : ℕ → CmdOpenStruct → Session World → Session World
  unfolding access_flag opened
  cmd_open mark req = with_path mark req.path λ apath s. elim (access_flag req.oflag) [
    | none ↦ reply_error mark error_invalid (text "bad open access mode") s
    | some access ↦ elim (add_flags req.oflag open_flags access) [
      | none ↦ reply_error mark error_not_support (text "not supported open flag") s
      | some oflag ↦
          calling
            (ignoring_eintr os.eintr_limit (os.open_path apath oflag (os.syscall_mode req.fmode)))
            (opened mark) s
    ]
  ]

  unfoldable pub cmd_mkdir : ℕ → CmdMkdirStruct → Session World → Session World
  cmd_mkdir mark req =
      with_path mark req.path
        λ apath. calling (os.mkdir apath (os.syscall_mode req.mode)) (reply_errno mark)

  unfoldable pub cmd_remove : ℕ → CmdRemoveStruct → Session World → Session World
  cmd_remove mark req =
      with_path mark req.path λ apath. calling (os.unlink apath) (reply_errno mark)

  unfoldable pub cmd_rm_dir : ℕ → CmdRmDirStruct → Session World → Session World
  cmd_rm_dir mark req = with_path mark req.path λ apath. calling (os.rmdir apath) (reply_errno mark)

  unfoldable pub cmd_fs_stat : ℕ → CmdFsStatStruct → Session World → Session World
  cmd_fs_stat mark req = with_path mark req.path λ apath.
      calling (os.fs_size apath) (reply_with os mark λ st. write_rsp_fs_stat conn_writer st)

  -- Both paths are checked before either is used.
  unfoldable pub with_paths :
      ℕ
      → Bytes
      → Bytes
      → (Bytes → Bytes → Session World → Session World)
      → Session World
      → Session World
  with_paths mark old new run s =
      if not (is_url_valid old) || not (is_url_valid new)
      then reply_error mark error_invalid (text "bad path") s
      else run (s.storage ++ old) (s.storage ++ new) s

  unfoldable pub cmd_sym_link : ℕ → CmdSymLinkStruct → Session World → Session World
  unfolding with_paths
  cmd_sym_link mark req =
      with_paths mark req.target_path req.file_path
        λ old new. calling (os.symlink old new) (reply_errno mark)

  unfoldable pub cmd_link : ℕ → CmdLinkStruct → Session World → Session World
  unfolding with_paths
  cmd_link mark req = with_paths mark req.target_path req.file_path λ old new s.
      if not s.enable_link
      then reply_error mark error_not_support (text "syscall error") s
      else calling (os.link old new) (reply_errno mark) s

  -- `m`, then the close of a descriptor, whose own error is dropped.
  unfoldable pub closing : {A : Type 0} → ℕ → Sys World A → Sys World A
  closing fd m w = let (w', r) = m w in ((os.close fd w').0, r)

  unfoldable pub flagged_rename : Bytes → Bytes → ℕ → Sys World (Unit {0})
  unfolding closing
  flagged_rename old new flag = and_then (os.open_path (os.dir_of old) os.o_directory 0) λ fd1.
      closing fd1 (
        and_then (os.open_path (os.dir_of new) os.o_directory 0)
          λ fd2. closing fd2 (os.renameat2 fd1 old fd2 new flag))

  unfoldable pub cmd_rename : ℕ → CmdRenameStruct → Session World → Session World
  unfolding with_paths flagged_rename
  cmd_rename mark req = with_paths mark req.old_path req.new_path λ old new.
      calling (if req.flag == 0 then os.rename old new else flagged_rename old new req.flag)
        (reply_errno mark)
