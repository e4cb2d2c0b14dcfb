-- ===== src/Client/Remote/Directory.antt =====
-- CmdReadDir of the client, and the listing that it gets.
use wsfs_core.Wire.Source.{Grain}
use wsfs_core.Prelude.{ℕ, ◌≡◌, refl, ap, ◌∙◌, true, some, List, [], All, arith, ◌++◌, ◌+◌, ◌≤◌}
use wsfs_core.Wire.Bytes.{Bytes}
use wsfs_core.Wire.Attr.{Dirent}
use wsfs_core.Wire.Codes.{error_ok, error_io}
use wsfs_core.Wire.PathCmd.{CmdReadDirStruct}
use wsfs_core.Wire.Command.{Command, read_dir}
use wsfs_core.Util.Url.{is_url_valid}
use wsfs_core.Server.Conn.Laws.{IsHealthy}
use wsfs_core.Server.Errno.{SysResult}
use wsfs_core.Server.Os.{Os}
use wsfs_core.Server.Run.{run_command}
use wsfs_core.Server.Dirs.{Dirs, dir_command, ensure_dir_base}
use wsfs_core.Server.Dirs.Listing.{IsShort}
use wsfs_core.Server.Dirs.Reading.{Reading, cmd_read_dir-ListsOut}
use wsfs_core.Client.Session.{Session}
use wsfs_core.Client.PathCmds.{cmd_read_dir, read_dir_answer}
use wsfs_core.Client.Listing.{items, read_dir_answer-Listed}
use wsfs_core.Client.Remote.{ServerSession, server, responses_for, drop, length, max_command_length}
use wsfs_core.Client.Remote.Calls.{CanAsk, request_command-server}

-- The server opens a directory and reads it to its end: one descriptor of the system, the world then,
-- and the dirents, each short enough for a message.
pub record ReadsDir {World : Type 0} (dirs : Dirs World) (path : Bytes) (srv : ServerSession World)
    (w : World) (ds : List Dirent) : Type 0 where
  pub valid : is_url_valid path ≡ true
  pub fd : ℕ
  pub at_open : World
  pub at_end : World
  pub opens : dirs.open_dir (srv.storage ++ path) srv.world ≡ (at_open, SysResult.done fd)
  pub reading :
      Reading dirs srv.storage srv.fs_ids
        (ensure_dir_base (srv.storage ++ path))
        fd
        dirs.rounds
        at_open
        at_end
        ds
  pub closes : dirs.close_dir fd at_end ≡ w
  pub short : All IsShort ds

module _ {World : Type 0} (os : Os World) (dirs : Dirs World)
    (others : ℕ → Command → ServerSession World → ServerSession World) where
  read_dir-dir_command :
      (mark : ℕ) (path : Bytes) (srv : ServerSession World)
      → run_command os (dir_command dirs os others) mark (read_dir (record { path = path })) srv
        ≡ wsfs_core.Server.Dirs.cmd_read_dir dirs mark (record { path = path }) srv
  unfolding run_command dir_command
  read_dir-dir_command mark path srv = refl

  -- On connections that work, CmdReadDir of a directory that the server opens and reads to its end
  -- returns without an error its items, as the server looked them up and in their order. The
  -- directory is closed then, and the client can ask again. Each dirent is short enough for a message, and the
  -- request is within the server's read limit.
  pub cmd_read_dir-server :
      (grain : Grain) (path : Bytes) (w : World) (ds : List Dirent)
      (s : Session (ServerSession World))
      → length path + 4 ≤ max_command_length
      → CanAsk s
      → IsHealthy s.peer.conn
      → ReadsDir dirs path s.peer w ds
      → (s' : Session (ServerSession World)) × (cmd_read_dir
            (server os (dir_command dirs os others) grain)
            path
            s
          ≡ some ((items ds, error_ok), s'))
        × (s'.peer.world ≡ w)
        × CanAsk s'
  unfolding cmd_read_dir
  cmd_read_dir-server grain path w ds s v k h r =
      let req : CmdReadDirStruct = record { path = path } in
      let rest = dir_command dirs os others in
      let c = read_dir req in
      let lists = λ (mark : ℕ).
        cmd_read_dir-ListsOut dirs mark r.fd req s.peer r.at_open r.at_end ds r.valid r.opens
          r.reading r.short h in
      let ran = λ (mark : ℕ). read_dir-dir_command mark path s.peer ∙ (lists mark).1 in
      let up : (mark : ℕ) → (run_command os rest mark c s.peer).conn.up ≡ true =
        λ mark. rw (ran mark) ((lists mark).2.healthy.0) in
      let (mark, bound, s', called, answers) =
        request_command-server os rest grain c ([], error_io) ([], error_io) (read_dir_answer []) s
          (omega arith) (omega arith) k up in
      let l = lists mark in
      (
        s',
        answers (items ds, error_ok)
            (ap
                (λ srv.
                  read_dir_answer []
                    (responses_for mark (drop (length s.peer.conn.sent) srv.conn.sent)))
                (ran mark)
              ∙ read_dir_answer-Listed mark s.peer.conn.sent l.0 ds l.2),
        ap (λ srv. srv.world) (called.ran ∙ ran mark) ∙ r.closes,
        called.can_ask,
      )
