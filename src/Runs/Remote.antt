-- ===== src/Runs/Remote.antt =====
-- A client of the small system's server.
use wsfs_core.Wire.Source.{pieces}
use wsfs_core.Prelude.{
  ℕ, ◌^◌, ◌<◌, ◌≡◌, refl, true, false, none, some, [], ◌∷◌, ◌++◌, ◌↔◌, ◌≤◌, length, take, drop,
  arith,
}
use wsfs_core.Wire.Bytes.{Bytes}
use wsfs_core.Wire.Text.{text}
use wsfs_core.Wire.Codes.{error_ok, error_io, error_invalid_fd}
use wsfs_core.Wire.Command.{Command, sync}
use wsfs_core.Wire.PathCmd.{CmdOpenStruct}
use wsfs_core.Util.Url.{is_url_valid}
use wsfs_core.Server.Errno.{ignoring_eintr}
use wsfs_core.Server.PathCmds.{access_flag, add_flags}
use wsfs_core.Server.Run.{run_command}
use wsfs_core.Server.Session.{load}
use wsfs_core.Client.Session.{Session, running, is_locked, new_client_mark, release_client_mark}
use wsfs_core.Client.Session.Marks.{new_client_mark_lem}
use wsfs_core.Client.Request.{request_command, status}
use wsfs_core.Client.XAttrCmds.{set_xattr_fits, max_xattr_chunk_size}
use wsfs_core.Client.XAttrCmds.Chunks.{max_xattr_chunk_size_lem}
use wsfs_core.Client.FileCmds.{cmd_read_at}
use wsfs_core.Client.PathCmds.{cmd_open}
use wsfs_core.Client.Remote.{ServerSession, server}
use wsfs_core.Client.Remote.Calls.{CanAsk, Called, answer_of, request_command-server}
use wsfs_core.Client.Remote.Results.{bad_fd-server, cmd_read_at-server}
use wsfs_core.Client.Remote.Opening.{Opens, cmd_open-server}
use wsfs_core.Runs.System.{small_system, one_file, the_file, small_system-ReadsShort}
use wsfs_core.Runs.Client.{reading-ReadsFile, destination}
use wsfs_core.Server.Run.Promise.{run_command-Answers}

-- Mark 4 is taken by someone else, and the next to be tried.
abbrev pub a_client : Session (ServerSession ℕ)
a_client = record {
  state = running;
  active_reqs = 1;
  last_mark = 3;
  marks = 4 ∷ [];
  conn = record {
    up = true;
    faults = [];
    down = false;
    error_set = false;
    writer = none;
    sent = [];
  };
  peer = one_file;
  xattr_prefixes = text "user." ∷ [];
  auto_xattr_append = true;
}

pub a_client-CanAsk : CanAsk a_client
unfolding is_locked
a_client-CanAsk = record {
  opened = refl;
  free = 5;
  free_small = omega arith;
  free_lem = refl;
  healthy = (refl, refl, refl);
}

abbrev pub keep_session : ℕ → Command → ServerSession ℕ → ServerSession ℕ
keep_session mark c s = s

-- A sync of the open file: one system call.
abbrev a_sync : Command
a_sync = sync (record { fd = 1 })

a_sync-up : (mark : ℕ) → (run_command small_system keep_session mark a_sync one_file).conn.up ≡ true
a_sync-up mark =
    (run_command-Answers small_system small_system-ReadsShort mark one_file (refl, refl, refl)
      keep_session a_sync refl).healthy.0

new_client_mark_lem_example :
    (mark : ℕ) × (s' : Session (ServerSession ℕ)) × (new_client_mark a_client
      ≡ some (some mark, s'))
    × (mark < 2 ^ 8)
    × (is_locked mark a_client.marks ≡ false)
    × (is_locked mark s'.marks ≡ true)
    × ((release_client_mark mark s').marks ≡ a_client.marks)
    × ((release_client_mark mark s').active_reqs ≡ a_client.active_reqs)
unfolding is_locked
new_client_mark_lem_example = new_client_mark_lem 5 a_client refl (omega arith) refl

max_xattr_chunk_size_lem_example :
    (set_xattr_fits (text "/a") (text "user.b") the_file 0 ≡ true)
    ↔ (length the_file ≤ max_xattr_chunk_size (text "/a") (text "user.b") 0)
unfolding set_xattr_fits wsfs_core.Wire.LinkCmd.get_cmd_set_xattr_struct_required_size
max_xattr_chunk_size_lem_example =
    max_xattr_chunk_size_lem (text "/a") (text "user.b") the_file 0 refl

request_command-server_example :
    (mark : ℕ) × (mark < 2 ^ 8)
    × (s' : Session (ServerSession ℕ)) × Called small_system keep_session
        (pieces 3)
        mark
        a_sync
        a_client
        s'
    × ((a : ℕ)
        → status (answer_of small_system keep_session (pieces 3) mark a_sync one_file) ≡ some a
        → request_command
            (server small_system keep_session (pieces 3))
            a_sync
            error_io
            error_io
            status
            a_client
          ≡ some (a, s'))
request_command-server_example =
    request_command-server small_system keep_session (pieces 3) a_sync error_io error_io status
      a_client (omega arith) (omega arith) a_client-CanAsk a_sync-up

bad_fd-server_example :
    (s' : Session (ServerSession ℕ)) × (request_command
        (server small_system keep_session (pieces 3))
        (sync (record { fd = 8 }))
        error_io
        error_io
        status
        a_client
      ≡ some (error_invalid_fd, s'))
    × (s'.peer.world ≡ 0)
    × (s'.peer.fds ≡ one_file.fds)
    × CanAsk s'
unfolding load status
bad_fd-server_example =
    bad_fd-server small_system keep_session (pieces 3) (sync (record { fd = 8 })) error_io error_io
      error_invalid_fd status a_client (omega arith) (omega arith) a_client-CanAsk
      (refl, refl, refl) refl (λ mark d. refl)

abbrev read_got : Bytes
read_got = take (length destination) (drop 2 the_file)

cmd_read_at-server_example :
    (s' : Session (ServerSession ℕ)) × (cmd_read_at
        (server small_system keep_session (pieces 3))
        1
        2
        destination
        a_client
      ≡ some ((length read_got, error_ok, read_got ++ drop (length read_got) destination), s'))
    × CanAsk s'
unfolding load
cmd_read_at-server_example =
    cmd_read_at-server small_system keep_session (pieces 3) 1 5 2 destination the_file a_client
      (omega arith) (omega arith) a_client-CanAsk (refl, refl, refl) refl reading-ReadsFile

abbrev a_file : CmdOpenStruct
a_file = record { path = text "/a"; oflag = 2; fmode = 0o644 }

a_file-Opens : Opens small_system a_file one_file 1 5
unfolding is_url_valid access_flag add_flags ignoring_eintr wsfs_core.Util.Strings.contains
    wsfs_core.Util.Strings.has_suffix
a_file-Opens = record {
  valid = refl;
  access = 2;
  access_lem = refl;
  flags = 2;
  flags_lem = refl;
  call = refl;
}

cmd_open-server_example :
    (fd : ℕ) × (s' : Session (ServerSession ℕ)) × (cmd_open
        (server small_system keep_session (pieces 3))
        (text "/a")
        2
        0o644
        a_client
      ≡ some ((fd, error_ok), s'))
    × (load fd one_file.fds ≡ none)
    × (load fd s'.peer.fds ≡ some 5)
    × (s'.peer.world ≡ 1)
    × CanAsk s'
cmd_open-server_example =
    cmd_open-server small_system keep_session (pieces 3) (text "/a") 2 0o644 5 1 a_client
      (omega arith, omega arith, omega arith) (omega arith) a_client-CanAsk (refl, refl, refl)
      (omega arith) a_file-Opens
