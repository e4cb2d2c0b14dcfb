-- ===== src/Client/PathCmds.antt =====
-- The commands of internal/client/session/commands.go that name a file by its path, but for
-- extended attributes and for CmdReadDirPlus.
use wsfs_core.Prelude.{
  ℕ, zero, suc, ◌==◌, Option, none, some, List, [], ◌∷◌, ◌++◌, length, not, ◌||◌, if◌then◌else◌,
}
use wsfs_core.Prelude.Int.{ℤ}
use wsfs_core.Wire.Bytes.{Bytes}
use wsfs_core.Wire.Codes.{error_ok, error_io, error_partial_response}
use wsfs_core.Wire.Source.{Source, message, ok, err, whole}
use wsfs_core.Wire.Attr.{FileInfo, Dirent, Timespec, read_dirent}
use wsfs_core.Wire.Command.{
  open_file, read_dir, read_link, get_attr, set_attr, mkdir, sym_link, remove, rm_dir, fs_stat,
  rename,
}
use wsfs_core.Wire.Rsp.{
  RspFsStat, read_rsp_open, read_rsp_read_link, read_rsp_get_attr, read_rsp_fs_stat,
}
use wsfs_core.Client.Session.{Remote, Client}
use wsfs_core.Client.Request.{request_command, status, value_of}

-- DirItem as it comes from a Dirent: without a prefetched child.
pub record DirItem : Type 0 where
  pub name : Bytes
  pub size : ℕ
  pub mtime : Timespec
  pub mode : ℕ
  pub owner : ℕ

unfoldable pub make_dir_item_from_dirent : Dirent → DirItem
make_dir_item_from_dirent d = record {
  name = d.name;
  size = d.size;
  mtime = d.mtime;
  mode = d.mode;
  owner = d.owner;
}

-- The loop; a round takes a byte at least. `none` is the error.
unfoldable pub dir_items_loop : ℕ → List DirItem → Source → Option (List DirItem)
unfolding make_dir_item_from_dirent
dir_items_loop zero list r = some list
dir_items_loop (suc fuel) list r = elim (length r.left) [
  | zero ↦ some list
  | suc n ↦ elim (read_dirent r) [
    | err e r' ↦ none
    | ok ent r' ↦ dir_items_loop fuel (list ++ (make_dir_item_from_dirent ent ∷ [])) r'
  ]
]

unfoldable pub append_dir_items_from_reader : List DirItem → Bytes → Option (List DirItem)
unfolding dir_items_loop
append_dir_items_from_reader list d = dir_items_loop (length d) list (message d whole)

-- The loop of CmdReadDir: an error after the first message keeps the items so far.
unfoldable pub read_dir_answer : List DirItem → List Bytes → Option (List DirItem × ℕ)
unfolding append_dir_items_from_reader
read_dir_answer list [] = none
read_dir_answer list ([] ∷ ms) = none
read_dir_answer list ((mark ∷ []) ∷ ms) = none
read_dir_answer list ((mark ∷ code ∷ d) ∷ ms) =
    if not (code == error_ok || code == error_partial_response)
    then some (list, code)
    else (elim (append_dir_items_from_reader list d) [
      | none ↦ some ([], error_io)
      | some list' ↦
          let more = read_dir_answer list' ms in
          if code == error_partial_response then more else some (list', code)
    ])

-- The zero values of the structs.
abbrev pub no_info : FileInfo
no_info = record {
  size = 0;
  mtime = record { seconds = ℤ.pos 0; nanoseconds = ℤ.pos 0 };
  mode = 0;
  owner = 0;
}

abbrev pub no_stat : RspFsStat
no_stat = record { total = 0; free = 0; available = 0 }

module _ {Peer : Type 0} (remote : Remote Peer) where
  unfoldable pub cmd_open : Bytes → ℕ → ℕ → Client Peer (ℕ × ℕ)
  cmd_open path oflag fmode =
      request_command remote (open_file (record { path = path; oflag = oflag; fmode = fmode }))
        (0, error_io) (0, error_io) (value_of read_rsp_open (λ rsp. rsp.fd) 0)

  unfoldable pub cmd_read_dir : Bytes → Client Peer (List DirItem × ℕ)
  unfolding read_dir_answer
  cmd_read_dir path =
      request_command remote (read_dir (record { path = path })) ([], error_io) ([], error_io)
        (read_dir_answer [])

  unfoldable pub cmd_read_link : Bytes → Client Peer (Bytes × ℕ)
  cmd_read_link lpath =
      request_command remote (read_link (record { path = lpath })) ([], error_io) ([], error_io)
        (value_of read_rsp_read_link (λ rsp. rsp.target_path) [])

  -- A connection that takes no request makes this and fs_stat a success with zeros: the named results
  -- are returned as they are.
  unfoldable pub cmd_get_attr : Bytes → Client Peer (FileInfo × ℕ)
  cmd_get_attr fpath =
      request_command remote (get_attr (record { path = fpath })) (no_info, error_io)
        (no_info, error_ok) (value_of read_rsp_get_attr (λ rsp. rsp.fi) no_info)

  unfoldable pub cmd_set_attr : Bytes → ℕ → FileInfo → Client Peer ℕ
  cmd_set_attr fpath flag fi =
      request_command remote (set_attr (record { path = fpath; flag = flag; fi = fi })) error_io
        error_io status

  unfoldable pub cmd_mkdir : Bytes → ℕ → Client Peer ℕ
  cmd_mkdir fpath mode =
      request_command remote (mkdir (record { path = fpath; mode = mode })) error_io error_io status

  unfoldable pub cmd_sym_link : Bytes → Bytes → Client Peer ℕ
  cmd_sym_link target fpath =
      request_command remote (sym_link (record { target_path = target; file_path = fpath }))
        error_io error_io status

  unfoldable pub cmd_remove : Bytes → Client Peer ℕ
  cmd_remove fpath =
      request_command remote (remove (record { path = fpath })) error_io error_io status

  unfoldable pub cmd_rm_dir : Bytes → Client Peer ℕ
  cmd_rm_dir fpath =
      request_command remote (rm_dir (record { path = fpath })) error_io error_io status

  unfoldable pub cmd_fs_stat : Bytes → Client Peer (RspFsStat × ℕ)
  cmd_fs_stat fpath =
      request_command remote (fs_stat (record { path = fpath })) (no_stat, error_io)
        (no_stat, error_ok) (value_of read_rsp_fs_stat (λ rsp. rsp) no_stat)

  unfoldable pub cmd_rename : Bytes → Bytes → ℕ → Client Peer ℕ
  cmd_rename old_path new_path mode =
      request_command remote
        (rename (record { old_path = old_path; new_path = new_path; flag = mode })) error_io
        error_io status
