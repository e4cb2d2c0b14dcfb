-- ===== src/Server/Dirs.antt =====
-- Directories and attributes of internal/server/wsfs/commands.go, and cmdReadLink of commands-unix.go.
pub mod Listing
pub mod Reading
pub mod Links
use wsfs_core.Prelude.{
  ℕ, zero, suc, ◌+◌, ◌^◌, Bool, true, false, List, [], ◌∷◌, ◌++◌, ◌==◌, if◌then◌else◌, length, drop,
  ltb, take,
}
use wsfs_core.Prelude.Int.{pos}
use wsfs_core.Wire.Bytes.{Bytes}
use wsfs_core.Wire.Text.{text}
use wsfs_core.Wire.Codes.{
  error_ok, error_partial_response, error_exists, error_not_exists, error_access_restricted,
  error_unknown, error_type, owner_nn,
}
use wsfs_core.Wire.Attr.{Timespec, FileInfo, Dirent, dirent_bytes, get_dirent_required_size}
use wsfs_core.Wire.Command.{max_msg_size, Command, read_dir, read_link, get_attr}
use wsfs_core.Wire.PathCmd.{CmdReadDirStruct, CmdReadLinkStruct, CmdGetAttrStruct}
use wsfs_core.Wire.Rsp.{write_rsp_get_attr, write_rsp_read_link}
use wsfs_core.Util.Strings.{has_prefix, has_suffix}
use wsfs_core.Server.Conn.{write}
use wsfs_core.Server.Conn.Laws.{conn_writer}
use wsfs_core.Server.Errno.{Errno, Sys, SysResult, failed, ignoring_eintr}
use wsfs_core.Server.Os.{Os}
use wsfs_core.Server.Session.{FsIds, Session, reply, reply_error}
use wsfs_core.Server.Handler.{has_flag, with_path, and_then, return}

-- os.FileInfo with the modification time that package timeval finds.
pub record FileStat : Type 0 where
  pub name : Bytes
  pub size : ℕ
  pub mtime : Timespec
  pub mode : ℕ
  pub uid : ℕ
  pub gid : ℕ

-- What is behind the entries of one ReadDir: perhaps more, the end, or an error.
pub data ReadEnd : Type 0 where
  more at_end : ReadEnd
  stopped : Errno → ReadEnd

-- Packages os, path, filepath and timeval.
pub record Dirs (World : Type 0) : Type 0 where
  pub is_exist : Errno → Bool
  pub is_not_exist : Errno → Bool
  pub is_permission : Errno → Bool
  -- `true` follows a link.
  pub stat : Bytes → Bool → Sys World FileStat
  -- timeval.MTimeFromFileInfo.
  pub mtime_of : FileStat → Timespec
  -- A target is not empty.
  pub read_link : Bytes → Sys World Bytes
  pub clean : Bytes → Bytes
  pub join : Bytes → Bytes → Bytes
  pub open_dir : Bytes → Sys World ℕ
  -- The names of at most so many entries.
  pub read_dir : ℕ → ℕ → World → World × List Bytes × ReadEnd
  pub close_dir : ℕ → World → World
  -- How many calls read any directory to its end.
  pub rounds : ℕ

-- Bits of fs.FileMode.
abbrev pub mode_symlink : ℕ
mode_symlink = 2 ^ 27

abbrev pub mode_irregular : ℕ
mode_irregular = 2 ^ 19

abbrev slash : Bytes
slash = text "/"

unfoldable pub ensure_dir_base : Bytes → Bytes
ensure_dir_base path = if has_suffix path slash then path else path ++ slash

unfoldable pub conv_owner : FsIds → FileStat → ℕ
conv_owner ids fi = (if fi.uid == ids.uid then 1 else 0) + (if fi.gid == ids.gid then 2 else 0)

-- The dirent of an entry that cannot be looked up.
abbrev pub irregular : Bytes → Dirent
irregular name = record {
  name = name;
  size = 0;
  mtime = record { seconds = pos 0; nanoseconds = pos 0 };
  mode = mode_irregular;
  owner = owner_nn;
}

-- A dirent goes into the message that is being put together; a full one is sent first. The name of a
-- file is short, so that a message takes it.
unfoldable pub push_dirent :
    {World : Type 0} → ℕ → Dirent → Bytes × Session World → Bytes × Session World
push_dirent mark d (rsp, s) =
    if ltb max_msg_size (length rsp + get_dirent_required_size d)
    then (
      (mark ∷ error_partial_response ∷ []) ++ dirent_bytes d,
      record s { conn = write rsp s.conn },
    )
    else (rsp ++ dirent_bytes d, s)

-- `rsp.Bytes[1] = ErrorOK`
abbrev pub final_message : Bytes → Bytes
final_message [] = []
final_message (m ∷ []) = m ∷ []
final_message (m ∷ code ∷ d) = m ∷ error_ok ∷ d

abbrev pub send_last : {World : Type 0} → Bytes × Session World → Session World
send_last (rsp, s) = record s { conn = write (final_message rsp) s.conn }

module _ {World : Type 0} (dirs : Dirs World) where
  unfoldable pub os_err_code : Errno → ℕ
  os_err_code e =
      if dirs.is_exist e
      then error_exists
      else (if dirs.is_not_exist e
          then error_not_exists
          else (if dirs.is_permission e then error_access_restricted else error_unknown))

  -- `target[0] != '/'`; a target is not empty.
  abbrev pub absolute : Bytes → Bytes → Bytes
  absolute base target = if has_prefix target slash then target else dirs.clean (base ++ target)

  -- A link that leads out of the storage is seen as what it leads to.
  unfoldable pub restricting_symlink : Bytes → Bytes → FileStat → Sys World FileStat
  unfolding and_then
  restricting_symlink storage base fi = and_then (dirs.read_link (base ++ fi.name)) λ target.
      if has_prefix (absolute base target) storage
      then return (record fi { mtime = dirs.mtime_of fi })
      else dirs.stat (base ++ fi.name) true

  abbrev pub resolved : Bytes → Bytes → FileStat → Sys World FileStat
  resolved storage base fi =
      if has_flag fi.mode mode_symlink then restricting_symlink storage base fi else return fi

  unfoldable pub lookup_dirent : Bytes → FsIds → Bytes → Bytes → Sys World Dirent
  unfolding restricting_symlink and_then conv_owner
  lookup_dirent storage ids base name = and_then (dirs.stat (base ++ name) false) λ link.
      and_then (resolved storage base link) λ fi. return (record {
        name = name;
        size = fi.size;
        mtime = fi.mtime;
        mode = fi.mode;
        owner = conv_owner ids fi;
      })

  unfoldable pub lookup_dirent_safe : Bytes → FsIds → Bytes → Bytes → World → World × Dirent
  unfolding lookup_dirent
  lookup_dirent_safe storage ids base name w =
      let (w', r) = lookup_dirent storage ids base name w in
      elim r [ SysResult.done d ↦ (w', d) | failed e ↦ (w', irregular name) ]

  unfoldable pub get_attr_of : (Bytes → Bytes) → Bytes → Bytes → Sys World FileStat
  unfolding restricting_symlink and_then
  get_attr_of dir_of storage apath =
      and_then (dirs.stat apath false) (resolved storage (dir_of apath ++ slash))

  unfoldable pub push_entries :
      ℕ → Bytes → List Bytes → Bytes × Session World → Bytes × Session World
  unfolding lookup_dirent_safe push_dirent
  push_entries mark base [] r = r
  push_entries mark base (name ∷ names) (rsp, s) =
      let (w, d) = lookup_dirent_safe s.storage s.fs_ids base name s.world in
      push_entries mark base names (push_dirent mark d (rsp, record s { world = w }))

  -- A round of the loop behind its ReadDir.
  abbrev pub round_of :
      ℕ
      → Bytes
      → (Bytes × Session World → Session World)
      → Bytes × Session World
      → World × List Bytes × ReadEnd
      → Session World
  round_of mark base again (rsp, s) (w, names, end) =
      let s' : Session World = record s { world = w } in
      let entries = push_entries mark base names (rsp, s') in
      elim end [
        | stopped e ↦ reply_error mark (os_err_code e) (text "read dir failed") s'
        | at_end ↦ send_last entries
        | more ↦ if length names == 0 then send_last entries else again entries
      ]

  -- The loop of cmdReadDir.
  unfoldable pub read_dir_rounds : ℕ → ℕ → Bytes → ℕ → Bytes × Session World → Session World
  unfolding os_err_code push_entries
  read_dir_rounds zero mark base f r = r.1
  read_dir_rounds (suc rounds) mark base f r =
      round_of mark base (read_dir_rounds rounds mark base f) r (dirs.read_dir f 16 r.1.world)

  -- The deferred f.Close.
  abbrev pub close_opened : ℕ → Session World → Session World
  close_opened f s = record s { world = dirs.close_dir f s.world }

  -- What follows opening the directory.
  abbrev pub list_opened : ℕ → Bytes → Session World → World × SysResult ℕ → Session World
  list_opened mark apath s (w, r) =
      let s' : Session World = record s { world = w } in
      elim r [
        | failed e ↦ reply_error mark (os_err_code e) (text "open dir failed") s'
        | SysResult.done f ↦ close_opened f (
            read_dir_rounds dirs.rounds mark (ensure_dir_base apath) f
              (mark ∷ error_partial_response ∷ [], s'))
      ]

  unfoldable pub cmd_read_dir : ℕ → CmdReadDirStruct → Session World → Session World
  unfolding ensure_dir_base os_err_code read_dir_rounds
  cmd_read_dir mark req =
      with_path mark req.path λ apath s. list_opened mark apath s (dirs.open_dir apath s.world)

  unfoldable pub cmd_get_attr : Os World → ℕ → CmdGetAttrStruct → Session World → Session World
  unfolding get_attr_of conv_owner os_err_code
  cmd_get_attr os mark req = with_path mark req.path λ apath s.
      let (w, r) = get_attr_of os.dir_of s.storage apath s.world in
      let s' : Session World = record s { world = w } in
      elim r [
        | failed e ↦ reply_error mark (os_err_code e) (text "syscall error") s'
        | SysResult.done fi ↦
            let info : FileInfo = record {
              size = fi.size;
              mtime = fi.mtime;
              mode = fi.mode;
              owner = conv_owner s.fs_ids fi;
            } in
            reply mark error_ok (write_rsp_get_attr conn_writer (record { fi = info })) s'
      ]

  -- A target of more than 256 bytes is cut.
  unfoldable pub cmd_read_link : Os World → ℕ → CmdReadLinkStruct → Session World → Session World
  cmd_read_link os mark req = with_path mark req.path λ apath s.
      let (w, r) = ignoring_eintr os.eintr_limit (dirs.read_link apath) s.world in
      let s' : Session World = record s { world = w } in
      elim r [
        | failed e ↦ reply_error mark error_type (text "syscall error") s'
        | SysResult.done whole ↦
            let cut = take 256 whole in
            let target = if has_prefix cut slash then cut else dirs.clean (dirs.join apath cut) in
            if has_prefix target s.storage
            then reply mark error_ok
                (write_rsp_read_link conn_writer
                  (record { target_path = drop (length s.storage) target }))
                s'
            else reply_error mark error_type (text "syscall error") s'
      ]

  -- The cases of doCommandCall for these handlers, before the others.
  unfoldable pub dir_command :
      Os World
      → (ℕ → Command → Session World → Session World)
      → ℕ
      → Command
      → Session World
      → Session World
  dir_command os others mark (read_dir req) = cmd_read_dir mark req
  dir_command os others mark (read_link req) = cmd_read_link os mark req
  dir_command os others mark (get_attr req) = cmd_get_attr os mark req
  dir_command os others mark c = others mark c
