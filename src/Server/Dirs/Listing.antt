-- ===== src/Server/Dirs/Listing.antt =====
-- The messages of cmdReadDir in internal/server/wsfs/commands.go, and the dirents in them.
use wsfs_core.Prelude.{
  ℕ, List, ◌++◌, ◌∷◌, [], ◌≡◌, All, ◌+◌, append-nil, ◌≤◌, Bool-cases, ap, ltb, ◌∙◌, length, sym,
  inl, append_assoc, arith, length-append, inr, false, refl,
}
use wsfs_core.Wire.Attr.{Dirent, IsDirent, get_dirent_required_size, dirent_bytes}
use wsfs_core.Server.Dirs.{push_dirent, final_message}
use wsfs_core.Wire.Bytes.{Bytes}
use wsfs_core.Server.Session.{Session}
use wsfs_core.Wire.Codes.{error_partial_response, error_ok}
use wsfs_core.Wire.Command.{max_msg_size}
use wsfs_core.Server.Conn.Laws.{IsHealthy, write_sends}
use wsfs_core.Wire.Attr.Laws.{length-dirent_bytes}
use wsfs_core.Server.Answers.Contents.{Fits}
use wsfs_core.Server.Conn.{Conn, write}

-- The dirents of a message, one behind the other.
abbrev pub dirents_bytes : List Dirent → Bytes
dirents_bytes [] = []
dirents_bytes (d ∷ ds) = dirent_bytes d ++ dirents_bytes ds

dirents_bytes-snoc :
    (ds : List Dirent) (d : Dirent)
    → dirents_bytes (ds ++ (d ∷ [])) ≡ dirents_bytes ds ++ dirent_bytes d
dirents_bytes-snoc [] d = append-nil (dirent_bytes d)
dirents_bytes-snoc (e ∷ ds) d =
    ap (λ bs. dirent_bytes e ++ bs) (dirents_bytes-snoc ds d)
    ∙ sym (append_assoc (dirent_bytes e) (dirents_bytes ds) (dirent_bytes d))

Fits-snoc :
    (mark : ℕ) (ds : List Dirent) (rsp : Bytes) (d : Dirent)
    → rsp ≡ mark ∷ error_partial_response ∷ dirents_bytes ds
    → ltb max_msg_size (length rsp + get_dirent_required_size d) ≡ false
    → Fits (dirents_bytes (ds ++ (d ∷ [])))
Fits-snoc mark ds rsp d e room =
    let size : length rsp ≡ length (dirents_bytes ds) + 2 = ap length e ∙ omega arith in
    let whole : length (dirents_bytes (ds ++ (d ∷ [])))
        ≡ length (dirents_bytes ds) + get_dirent_required_size d =
      ap length (dirents_bytes-snoc ds d)
      ∙ length-append (dirents_bytes ds) (dirent_bytes d)
      ∙ ap (λ n. length (dirents_bytes ds) + n) (length-dirent_bytes d) in
    ground (arith, size, whole)

All-snoc :
    (ds : List Dirent) (d : Dirent) → All IsDirent ds → IsDirent d → All IsDirent (ds ++ (d ∷ []))
All-snoc [] d valid is = (is, tt)
All-snoc (e ∷ ds) d valid is = (valid.0, All-snoc ds d valid.1 is)

-- A dirent that a message takes.
abbrev pub IsShort : Dirent → Type 0
IsShort d = IsDirent d × (get_dirent_required_size d + 2 ≤ max_msg_size)

-- Partial messages under a mark, and the dirents that they hold together.
pub data Framed (mark : ℕ) : List Bytes → List Dirent → Type 0 where
  none_yet : Framed mark [] []
  one_more :
      (ms : List Bytes) (ds g : List Dirent)
      → Framed mark ms ds
      → All IsDirent g
      → Fits (dirents_bytes g)
      → Framed mark (ms ++ ((mark ∷ error_partial_response ∷ dirents_bytes g) ∷ [])) (ds ++ g)

-- The messages sent since `start`, with the one that is being put together, hold the dirents.
pub record Pending (mark : ℕ) (start : List Bytes) (rsp : Bytes) (c : Conn) (ds : List Dirent)
    : Type 0 where
  pub ms : List Bytes
  pub framed_ds : List Dirent
  pub cur : List Dirent
  pub healthy : IsHealthy c
  pub sent : c.sent ≡ start ++ ms
  pub framed : Framed mark ms framed_ds
  pub rsp_lem : rsp ≡ mark ∷ error_partial_response ∷ dirents_bytes cur
  pub valid : All IsDirent cur
  pub fits : Fits (dirents_bytes cur)
  pub whole : framed_ds ++ cur ≡ ds

-- The messages sent since `start` are an answer that holds the dirents.
pub record Listed (mark : ℕ) (start : List Bytes) (c : Conn) (ds : List Dirent) : Type 0 where
  pub ms : List Bytes
  pub framed_ds : List Dirent
  pub last : List Dirent
  pub healthy : IsHealthy c
  pub sent : c.sent ≡ start ++ (ms ++ ((mark ∷ error_ok ∷ dirents_bytes last) ∷ []))
  pub framed : Framed mark ms framed_ds
  pub valid : All IsDirent last
  pub fits : Fits (dirents_bytes last)
  pub whole : framed_ds ++ last ≡ ds

pub same-Listed :
    {mark : ℕ} {start : List Bytes} {c : Conn} {ds es : List Dirent}
    → ds ≡ es
    → Listed mark start c ds
    → Listed mark start c es
same-Listed e l = record {
  ms = l.ms;
  framed_ds = l.framed_ds;
  last = l.last;
  healthy = l.healthy;
  sent = l.sent;
  framed = l.framed;
  valid = l.valid;
  fits = l.fits;
  whole = l.whole ∙ e;
}

pub same-Pending :
    {mark : ℕ} {start : List Bytes} {rsp : Bytes} {c : Conn} {ds es : List Dirent}
    → ds ≡ es
    → Pending mark start rsp c ds
    → Pending mark start rsp c es
same-Pending e p = record {
  ms = p.ms;
  framed_ds = p.framed_ds;
  cur = p.cur;
  healthy = p.healthy;
  sent = p.sent;
  framed = p.framed;
  rsp_lem = p.rsp_lem;
  valid = p.valid;
  fits = p.fits;
  whole = p.whole ∙ e;
}

full-Pending :
    (mark : ℕ) (start : List Bytes) (rsp : Bytes) (c : Conn) (ds : List Dirent) (d : Dirent)
    → IsShort d
    → Pending mark start rsp c ds
    → Pending mark start
        ((mark ∷ error_partial_response ∷ []) ++ dirent_bytes d)
        (write rsp c)
        (ds ++ (d ∷ []))
full-Pending mark start rsp c ds d short p =
    let w = write_sends rsp c p.healthy in
    record {
      ms = p.ms ++ ((mark ∷ error_partial_response ∷ dirents_bytes p.cur) ∷ []);
      framed_ds = p.framed_ds ++ p.cur;
      cur = d ∷ [];
      healthy = w.0;
      sent =
          w.1
          ∙ ap (λ sent. sent ++ (rsp ∷ [])) p.sent
          ∙ append_assoc start p.ms (rsp ∷ [])
          ∙ ap (λ m. start ++ (p.ms ++ (m ∷ []))) p.rsp_lem;
      framed = one_more p.ms p.framed_ds p.cur p.framed p.valid p.fits;
      rsp_lem = ap (λ bs. mark ∷ error_partial_response ∷ bs) (sym (append-nil (dirent_bytes d)));
      valid = (short.0, tt);
      fits = omega (arith, length-append (dirent_bytes d) [], length-dirent_bytes d);
      whole = ap (λ es. es ++ (d ∷ [])) p.whole;
    }

room-Pending :
    (mark : ℕ) (start : List Bytes) (rsp : Bytes) (c : Conn) (ds : List Dirent) (d : Dirent)
    → IsDirent d
    → ltb max_msg_size (length rsp + get_dirent_required_size d) ≡ false
    → Pending mark start rsp c ds
    → Pending mark start (rsp ++ dirent_bytes d) c (ds ++ (d ∷ []))
room-Pending mark start rsp c ds d is room p = record {
  ms = p.ms;
  framed_ds = p.framed_ds;
  cur = p.cur ++ (d ∷ []);
  healthy = p.healthy;
  sent = p.sent;
  framed = p.framed;
  rsp_lem =
      ap (λ r. r ++ dirent_bytes d) p.rsp_lem
      ∙ ap (λ bs. mark ∷ error_partial_response ∷ bs) (sym (dirents_bytes-snoc p.cur d));
  valid = All-snoc p.cur d p.valid is;
  fits = Fits-snoc mark p.cur rsp d p.rsp_lem room;
  whole = sym (append_assoc p.framed_ds p.cur (d ∷ [])) ∙ ap (λ es. es ++ (d ∷ [])) p.whole;
}

-- The message that is being put together goes out as the final one.
pub final_message-Listed :
    (mark : ℕ) (start : List Bytes) (rsp : Bytes) (c : Conn) (ds : List Dirent)
    → Pending mark start rsp c ds
    → Listed mark start (write (final_message rsp) c) ds
final_message-Listed mark start rsp c ds p =
    let final = ap final_message p.rsp_lem in
    let w = write_sends (final_message rsp) c p.healthy in
    record {
      ms = p.ms;
      framed_ds = p.framed_ds;
      last = p.cur;
      healthy = w.0;
      sent =
          w.1
          ∙ ap (λ sent. sent ++ (final_message rsp ∷ [])) p.sent
          ∙ append_assoc start p.ms (final_message rsp ∷ [])
          ∙ ap (λ m. start ++ (p.ms ++ (m ∷ []))) final;
      framed = p.framed;
      valid = p.valid;
      fits = p.fits;
      whole = p.whole;
    }

module _ {World : Type 0} where
  -- A step on the message and the session that touches the connection and perhaps the world.
  abbrev pub Pends :
      ℕ → List Bytes → Session World → World → Bytes × Session World → List Dirent → Type 0
  Pends mark start s w after ds =
      (rsp : Bytes) × (c : Conn) × (after ≡ (rsp, record s { conn = c; world = w }))
      × Pending mark start rsp c ds

  pub push_dirent-Pends :
      (mark : ℕ) (start : List Bytes) (rsp : Bytes) (s : Session World) (ds : List Dirent)
      (d : Dirent)
      → IsShort d
      → Pending mark start rsp s.conn ds
      → Pends mark start s s.world (push_dirent mark d (rsp, s)) (ds ++ (d ∷ []))
  unfolding push_dirent
  push_dirent-Pends mark start rsp s ds d short p =
      elim (Bool-cases (ltb max_msg_size (length rsp + get_dirent_required_size d))) [
        | inl full ↦
            rw (push_dirent, full) (_, _, refl, full-Pending mark start rsp s.conn ds d short p)
        | inr room ↦
            rw (push_dirent, room)
              (_, _, refl, room-Pending mark start rsp s.conn ds d short.0 room p)
      ]
