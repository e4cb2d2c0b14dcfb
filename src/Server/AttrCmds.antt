-- ===== src/Server/AttrCmds.antt =====
-- cmdSetAttr and cmdSetAttrByFD of commands-unix.go: the attributes that the flag names, in the
-- order size, time, mode, owner, up to the first that fails.
pub mod Order
use wsfs_core.Prelude.{ℕ, if◌then◌else◌}
use wsfs_core.Prelude.Int.{to_int64}
use wsfs_core.Wire.Codes.{
  setattr_size, setattr_mtime, setattr_mode, setattr_owner, owner_un, owner_ng,
}
use wsfs_core.Wire.Attr.{FileInfo}
use wsfs_core.Wire.PathCmd.{CmdSetAttrStruct}
use wsfs_core.Wire.RangeCmd.{CmdSetAttrByFdStruct}
use wsfs_core.Server.Errno.{Sys}
use wsfs_core.Server.Os.{Os}
use wsfs_core.Server.Session.{Session, FsIds, reply_errno}
use wsfs_core.Server.Handler.{has_flag, with_path, with_fd, calling, and_then, when}
use wsfs_core.Wire.Bytes.{Bytes}

-- Who a file is given to.
unfoldable pub owner_uid : FsIds → ℕ → ℕ
owner_uid ids owner = if has_flag owner owner_un then ids.uid else ids.other_uid

unfoldable pub owner_gid : FsIds → ℕ → ℕ
owner_gid ids owner = if has_flag owner owner_ng then ids.gid else ids.other_gid

module _ {World : Type 0} (os : Os World) where
  unfoldable pub set_path_attrs : FsIds → Bytes → ℕ → FileInfo → Sys World (Unit {0})
  set_path_attrs ids apath flag fi =
      and_then (when (has_flag flag setattr_size) (os.truncate apath (to_int64 fi.size))) λ _.
        and_then (when (has_flag flag setattr_mtime) (os.set_path_mtime apath fi.mtime)) λ _.
          and_then (when (has_flag flag setattr_mode) (os.chmod apath (os.syscall_mode fi.mode)))
            λ _.
              when (has_flag flag setattr_owner)
                (os.chown apath (owner_uid ids fi.owner) (owner_gid ids fi.owner))

  unfoldable pub cmd_set_attr : ℕ → CmdSetAttrStruct → Session World → Session World
  unfolding set_path_attrs
  cmd_set_attr mark req =
      with_path mark req.path
        λ apath s. calling (set_path_attrs s.fs_ids apath req.flag req.fi) (reply_errno mark) s

  unfoldable pub set_fd_attrs : FsIds → ℕ → ℕ → FileInfo → Sys World (Unit {0})
  set_fd_attrs ids sfd flag fi =
      and_then (when (has_flag flag setattr_size) (os.ftruncate sfd (to_int64 fi.size))) λ _.
        and_then (when (has_flag flag setattr_mtime) (os.set_fd_mtime sfd fi.mtime)) λ _.
          and_then (when (has_flag flag setattr_mode) (os.fchmod sfd (os.syscall_mode fi.mode)))
            λ _.
              when (has_flag flag setattr_owner)
                (os.fchown sfd (owner_uid ids fi.owner) (owner_gid ids fi.owner))

  unfoldable pub cmd_set_attr_by_fd : ℕ → CmdSetAttrByFdStruct → Session World → Session World
  unfolding set_fd_attrs
  cmd_set_attr_by_fd mark req =
      with_fd mark req.fd
        λ sfd s. calling (set_fd_attrs s.fs_ids sfd req.flag req.fi) (reply_errno mark) s
