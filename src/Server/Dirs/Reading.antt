-- ===== src/Server/Dirs/Reading.antt =====
-- What cmdReadDir of internal/server/wsfs/commands.go reads, and that it sends it.
use wsfs_core.Prelude.{
  ◌==◌, false, if◌then◌else◌, ℕ, suc, ◌∙◌, length, [], ◌∷◌, List, All, ◌++◌, ◌≡◌, ap, refl, sym,
  append-nil, append_assoc, arith, true,
}
use wsfs_core.Server.Dirs.Listing.{
  IsShort, Pends, Pending, Listed, push_dirent-Pends, same-Pending, final_message-Listed,
  same-Listed, none_yet,
}
use wsfs_core.Wire.Attr.{Dirent}
use wsfs_core.Server.Dirs.{
  Dirs, push_entries, lookup_dirent_safe, at_end, more, read_dir_rounds, final_message, round_of,
  send_last, cmd_read_dir, ensure_dir_base, list_opened, close_opened,
}
use wsfs_core.Wire.Bytes.{Bytes}
use wsfs_core.Server.Session.{FsIds, Session}
use wsfs_core.Wire.Codes.{error_partial_response}
use wsfs_core.Wire.PathCmd.{CmdReadDirStruct}
use wsfs_core.Server.Errno.{SysResult}
use wsfs_core.Server.Conn.{Conn, write}
use wsfs_core.Server.Conn.Laws.{IsHealthy}
use wsfs_core.Server.Handler.{with_path}
use wsfs_core.Util.Url.{is_url_valid}

All-split : (xs ys : List Dirent) → All IsShort (xs ++ ys) → All IsShort xs × All IsShort ys
All-split [] ys h = (tt, h)
All-split (x ∷ xs) ys h = let (hx, hy) = All-split xs ys h.1 in ((h.0, hx), hy)

module _ {World : Type 0} (dirs : Dirs World) (storage : Bytes) (ids : FsIds) (base : Bytes) where
  -- The dirents of these names, looked up one after the other.
  abbrev pub looked_up : List Bytes → World → World × List Dirent
  looked_up [] w = (w, [])
  looked_up (name ∷ names) w =
      let (w1, d) = lookup_dirent_safe dirs storage ids base name w in
      let (w2, ds) = looked_up names w1 in (w2, d ∷ ds)

  -- Reading an open directory to its end takes at most so many calls, leads from one world to another
  -- and gives the dirents.
  pub data Reading (f : ℕ) : ℕ → World → World → List Dirent → Type 0 where
    at_its_end :
        (k : ℕ) (w w1 : World) (names : List Bytes)
        → dirs.read_dir f 16 w ≡ (w1, names, at_end)
        → Reading f (suc k) w (looked_up names w1).0 (looked_up names w1).1
    nothing_more :
        (k : ℕ) (w w1 : World) → dirs.read_dir f 16 w ≡ (w1, [], more) → Reading f (suc k) w w1 []
    goes_on :
        (k : ℕ) (w w1 w2 : World) (name : Bytes) (names : List Bytes) (ds : List Dirent)
        → dirs.read_dir f 16 w ≡ (w1, name ∷ names, more)
        → Reading f k (looked_up (name ∷ names) w1).0 w2 ds
        → Reading f (suc k) w w2 ((looked_up (name ∷ names) w1).1 ++ ds)

module _ {World : Type 0} (dirs : Dirs World) (mark : ℕ) (base : Bytes) (start : List Bytes) where
  push_entries-Pends :
      (names : List Bytes) (rsp : Bytes) (s : Session World) (ds : List Dirent)
      → let found = looked_up dirs s.storage s.fs_ids base names s.world in
        All IsShort found.1
        → Pending mark start rsp s.conn ds
        → Pends mark start s found.0 (push_entries dirs mark base names (rsp, s)) (ds ++ found.1)
  unfolding push_entries
  push_entries-Pends [] rsp s ds short p = (rsp, s.conn, refl, same-Pending (sym (append-nil ds)) p)
  push_entries-Pends (name ∷ names) rsp s ds short p =
      let (w1, d) = lookup_dirent_safe dirs s.storage s.fs_ids base name s.world in
      let s1 : Session World = record s { world = w1 } in
      let (rsp1, c1, e, p1) = push_dirent-Pends mark start rsp s1 ds d short.0 p in
      let s2 : Session World = record s1 { conn = c1 } in
      let (rsp2, c2, e2, p2) = push_entries-Pends names rsp1 s2 (ds ++ (d ∷ [])) short.1 p1 in
      (
        rsp2,
        c2,
        ap (push_entries dirs mark base names) e ∙ e2,
        same-Pending (append_assoc ds (d ∷ []) (looked_up dirs s.storage s.fs_ids base names w1).1)
            p2,
      )

  -- What the loop leaves: the listing sent, and nothing else changed but the world.
  abbrev pub ListsOut : Session World → World → Session World → List Dirent → Type 0
  ListsOut s w after ds =
      (c : Conn) × (after ≡ record s { conn = c; world = w }) × Listed mark start c ds

  pub read_dir_rounds-ListsOut :
      (s : Session World) (f k : ℕ) (w : World) (c : Conn) (rsp : Bytes) (ds0 : List Dirent)
      (w2 : World) (ds : List Dirent)
      → Reading dirs s.storage s.fs_ids base f k w w2 ds
      → All IsShort ds
      → Pending mark start rsp c ds0
      → ListsOut s w2
          (read_dir_rounds dirs k mark base f (rsp, record s { conn = c; world = w }))
          (ds0 ++ ds)
  unfolding read_dir_rounds
  read_dir_rounds-ListsOut s f k w c rsp ds0 w2 ds (at_its_end k' _ w1 names e) short p =
      let s1 : Session World = record s { conn = c; world = w1 } in
      let (rsp', c', e', p') = push_entries-Pends names rsp s1 ds0 short p in
      (
        write (final_message rsp') c',
        ap
              (round_of dirs mark base (read_dir_rounds dirs k' mark base f)
                (rsp, record s { conn = c; world = w }))
              e
            ∙ ap send_last e',
        final_message-Listed mark start rsp' c' (ds0 ++ ds) p',
      )
  read_dir_rounds-ListsOut s f k w c rsp ds0 w2 ds (nothing_more k' _ w1 e) short p = (
    write (final_message rsp) c,
    ap
        (round_of dirs mark base (read_dir_rounds dirs k' mark base f)
          (rsp, record s { conn = c; world = w }))
        e,
    final_message-Listed mark start rsp c (ds0 ++ []) (same-Pending (sym (append-nil ds0)) p),
  )
  read_dir_rounds-ListsOut s f k w c rsp ds0 w2 ds (goes_on k' _ w1 _ name names ds' e later) short
        p =
      let s1 : Session World = record s { conn = c; world = w1 } in
      let found = looked_up dirs s.storage s.fs_ids base (name ∷ names) w1 in
      let (short0, short1) = All-split found.1 ds' short in
      let (rsp', c', e', p') = push_entries-Pends (name ∷ names) rsp s1 ds0 short0 p in
      let (c2, e2, l) =
        read_dir_rounds-ListsOut s f k' found.0 c' rsp' (ds0 ++ found.1) w2 ds' later short1 p' in
      let entries = push_entries dirs mark base (name ∷ names) (rsp, s1) in
      let again = read_dir_rounds dirs k' mark base f in
      let some_left : (length (name ∷ names) == 0) ≡ false = ground arith in
      (
        c2,
        ap
              (round_of dirs mark base (read_dir_rounds dirs k' mark base f)
                (rsp, record s { conn = c; world = w }))
              e
            ∙ ap (λ b. if b then send_last entries else again entries) some_left
            ∙ ap again e'
            ∙ e2,
        same-Listed (append_assoc ds0 found.1 ds') l,
      )

module _ {World : Type 0} (dirs : Dirs World) where
  nothing-Pending :
      (mark : ℕ) (c : Conn)
      → IsHealthy c
      → Pending mark c.sent (mark ∷ error_partial_response ∷ []) c []
  nothing-Pending mark c h = record {
    ms = [];
    framed_ds = [];
    cur = [];
    healthy = h;
    sent = sym (append-nil c.sent);
    framed = none_yet;
    rsp_lem = refl;
    valid = tt;
    fits = omega arith;
    whole = refl;
  }

  -- cmdReadDir of a directory that can be opened and read answers with its dirents, and closes it.
  pub cmd_read_dir-ListsOut :
      (mark f : ℕ) (req : CmdReadDirStruct) (s : Session World) (w w2 : World) (ds : List Dirent)
      → is_url_valid req.path ≡ true
      → let apath : Bytes = s.storage ++ req.path in
        dirs.open_dir apath s.world ≡ (w, SysResult.done f)
        → Reading dirs s.storage s.fs_ids (ensure_dir_base apath) f dirs.rounds w w2 ds
        → All IsShort ds
        → IsHealthy s.conn
        → ListsOut dirs mark
            (ensure_dir_base apath)
            s.conn.sent
            s
            (dirs.close_dir f w2)
            (cmd_read_dir dirs mark req s)
            ds
  unfolding cmd_read_dir with_path
  cmd_read_dir-ListsOut mark f req s w w2 ds valid opened reading short h =
      let base : Bytes = ensure_dir_base (s.storage ++ req.path) in
      let (c, e, l) =
        read_dir_rounds-ListsOut dirs mark base s.conn.sent s f dirs.rounds w s.conn
          (mark ∷ error_partial_response ∷ []) [] w2 ds reading short
          (nothing-Pending mark s.conn h) in
      (
        c,
        rw (with_path, valid)
            (ap (list_opened dirs mark (s.storage ++ req.path) s) opened
              ∙ ap (close_opened dirs f) e),
        l,
      )
