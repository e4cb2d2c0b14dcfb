-- ===== src/Runs/Directory.antt =====
-- A directory with three files on the small system, which is read in two calls.
use wsfs_core.Wire.Source.{pieces}
use wsfs_core.Prelude.{
  true, false, ℕ, zero, suc, List, [], ◌∷◌, some, arith, refl, ◌≡◌, Bool, All, ap, drop,
  if◌then◌else◌, sym,
}
use wsfs_core.Prelude.Int.{pos}
use wsfs_core.Wire.Bytes.{Bytes}
use wsfs_core.Wire.Text.{text}
use wsfs_core.Wire.Attr.{Dirent, get_dirent_required_size, get_timespec_required_size}
use wsfs_core.Wire.Codes.{error_ok}
use wsfs_core.Server.Errno.{SysResult, failed, einval, Sys}
use wsfs_core.Server.Dirs.{
  Dirs, FileStat, ReadEnd, more, at_end, dir_command, lookup_dirent_safe, ensure_dir_base,
  mode_symlink,
}
use wsfs_core.Server.Dirs.Listing.{IsShort}
use wsfs_core.Server.Dirs.Reading.{at_its_end, goes_on, Reading}
use wsfs_core.Client.Session.{Session}
use wsfs_core.Util.Url.{is_url_valid}
use wsfs_core.Client.PathCmds.{cmd_read_dir}
use wsfs_core.Client.Listing.{items}
use wsfs_core.Client.Remote.{ServerSession, server}
use wsfs_core.Client.Remote.Calls.{CanAsk}
use wsfs_core.Client.Remote.Directory.{ReadsDir, cmd_read_dir-server}
use wsfs_core.Runs.System.{small_system, one_file}
use wsfs_core.Runs.Remote.{a_client, a_client-CanAsk, keep_session}
use wsfs_core.Server.Dirs.Links.{StatsLinks, value_or, LeadsInside, shown_links-inside}
use wsfs_core.Server.Handler.{has_flag}

abbrev stat_of : Bytes → FileStat
stat_of name = record {
  name = name;
  size = 12;
  mtime = record { seconds = pos 5; nanoseconds = pos 0 };
  mode = 0o644;
  uid = 0;
  gid = 0;
}

abbrev entries_at : ℕ → ℕ → ℕ → ℕ × List Bytes × ReadEnd
entries_at f n (suc zero) = (2, text "a" ∷ text "b" ∷ [], more)
entries_at f n w = (suc w, text "c" ∷ [], at_end)

abbrev small_dirs : Dirs ℕ
small_dirs = record {
  is_exist = λ e. false;
  is_not_exist = λ e. true;
  is_permission = λ e. false;
  stat = λ path follow w. (w, SysResult.done (stat_of path));
  mtime_of = λ fi. fi.mtime;
  read_link = λ path w. (w, failed einval);
  clean = λ path. path;
  join = λ base path. base;
  open_dir = λ path w. (suc w, SysResult.done 6);
  read_dir = entries_at;
  close_dir = λ f w. suc w;
  rounds = 4;
}

abbrev dirent_of : Bytes → Dirent
dirent_of name = record {
  name = name;
  size = 12;
  mtime = record { seconds = pos 5; nanoseconds = pos 0 };
  mode = 0o644;
  owner = 0;
}

abbrev the_dirents : List Dirent
the_dirents = dirent_of (text "a") ∷ dirent_of (text "b") ∷ dirent_of (text "c") ∷ []

one_letter : (b : ℕ) → IsShort (dirent_of (b ∷ []))
unfolding get_dirent_required_size get_timespec_required_size
one_letter b =
    ((omega arith, omega arith, (omega arith, omega arith), omega arith, omega arith), omega arith)

small_dirs-ReadsDir : ReadsDir small_dirs (text "/d") one_file 4 the_dirents
unfolding is_url_valid ensure_dir_base lookup_dirent_safe wsfs_core.Util.Strings.contains
    wsfs_core.Util.Strings.has_suffix
small_dirs-ReadsDir = record {
  valid = refl;
  fd = 6;
  at_open = 1;
  at_end = 3;
  opens = refl;
  reading =
      goes_on 3 1 2 3 (text "a") (text "b" ∷ []) (dirent_of (text "c") ∷ []) refl
        (at_its_end 2 2 3 (text "c" ∷ []) refl);
  closes = refl;
  short = (one_letter 97, (one_letter 98, (one_letter 99, tt)));
}

cmd_read_dir-server_example :
    (s' : Session (ServerSession ℕ)) × (cmd_read_dir
        (server small_system (dir_command small_dirs small_system keep_session) (pieces 3))
        (text "/d")
        a_client
      ≡ some ((items the_dirents, error_ok), s'))
    × (s'.peer.world ≡ 4)
    × CanAsk s'
cmd_read_dir-server_example =
    cmd_read_dir-server small_system small_dirs keep_session (pieces 3) (text "/d") 4 the_dirents
      a_client (omega arith) a_client-CanAsk (refl, refl, refl) small_dirs-ReadsDir

-- The directory of a link that leads into the storage.
abbrev the_base : Bytes
the_base = text "/srv/d/"

abbrev link_stat : Bytes → Bool → Sys ℕ FileStat
link_stat path follow w = (
  w,
  SysResult.done (record (stat_of (drop 7 path)) { mode = if follow then 0o644 else mode_symlink }),
)

abbrev link_dirs : Dirs ℕ
link_dirs = record small_dirs {
  stat = link_stat;
  read_link = λ path w. (w, SysResult.done (text "/srv/a"));
  read_dir = λ f n w. (suc w, text "l" ∷ [], at_end);
}

link_dirs-StatsLinks : StatsLinks link_dirs the_base
link_dirs-StatsLinks = record {
  follows = λ path w w' fi e. ap (λ r. has_flag (value_or fi r.1).mode mode_symlink) (sym e);
  names = λ name w w' fi e. ap (λ r. (value_or fi r.1).name) (sym e);
}

abbrev a_link : Dirent
a_link = record (dirent_of (text "l")) { mode = mode_symlink }

link_dirs-Reading :
    Reading link_dirs one_file.storage one_file.fs_ids the_base 6 4 1 2 (a_link ∷ [])
unfolding lookup_dirent_safe wsfs_core.Util.Strings.has_prefix
link_dirs-Reading = at_its_end 3 1 2 (text "l" ∷ []) refl

shown_links-inside_example :
    All
      (λ d.
        has_flag d.mode mode_symlink ≡ true
        → LeadsInside link_dirs one_file.storage the_base d.name)
      (a_link ∷ [])
shown_links-inside_example =
    shown_links-inside link_dirs one_file.storage the_base one_file.fs_ids 6 4 1 2 (a_link ∷ [])
      link_dirs-Reading link_dirs-StatsLinks
