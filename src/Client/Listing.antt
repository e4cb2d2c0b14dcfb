-- ===== src/Client/Listing.antt =====
-- The loop of CmdReadDir on the messages of the server's cmdReadDir.
use wsfs_core.Prelude.{
  Option, none, some, ◌==◌, if◌then◌else◌, arith, ℕ, zero, suc, ◌∙◌, length, [], ◌∷◌, List, All,
  ◌≤◌, map, ◌++◌, ◌≡◌, ap, sym, refl, append-nil, length-append, append_assoc, drop-length_append,
  ltb, drop, false, true,
}
use wsfs_core.Wire.Bytes.{Bytes}
use wsfs_core.Wire.Codes.{error_io, error_ok, error_partial_response}
use wsfs_core.Wire.Command.{max_msg_size}
use wsfs_core.Client.{responses_for}
use wsfs_core.Client.PathCmds.{
  DirItem, make_dir_item_from_dirent, dir_items_loop, append_dir_items_from_reader, read_dir_answer,
}
use wsfs_core.Server.Dirs.Listing.{Framed, none_yet, one_more, dirents_bytes, Listed}
use wsfs_core.Wire.Attr.{Dirent, IsDirent, dirent_bytes}
use wsfs_core.Wire.Source.{message, Outcome, err, ok, whole}
use wsfs_core.Wire.Attr.Laws.{read_dirent-Reads}
use wsfs_core.Server.Answers.Contents.{Fits}
use wsfs_core.Server.Conn.{Conn}

abbrev pub items : List Dirent → List DirItem
items ds = map make_dir_item_from_dirent ds

items-append : (ds es : List Dirent) → items (ds ++ es) ≡ items ds ++ items es
items-append [] es = refl
items-append (d ∷ ds) es = ap (λ l. make_dir_item_from_dirent d ∷ l) (items-append ds es)

abbrev after_item : ℕ → List DirItem → Outcome Dirent → Option (List DirItem)
after_item fuel list o = elim o [
  | err e r ↦ none
  | ok d r ↦ dir_items_loop fuel (list ++ (make_dir_item_from_dirent d ∷ [])) r
]

dir_items_loop-dirents :
    (fuel : ℕ) (list : List DirItem) (ds : List Dirent)
    → All IsDirent ds
    → length (dirents_bytes ds) ≤ fuel
    → dir_items_loop fuel list (message (dirents_bytes ds) whole) ≡ some (list ++ items ds)
unfolding dir_items_loop
dir_items_loop-dirents zero list [] v h = ap some (sym (append-nil list))
dir_items_loop-dirents (suc fuel) list [] v h = ap some (sym (append-nil list))
dir_items_loop-dirents zero list (d ∷ ds) v h = absurd (omega arith)
dir_items_loop-dirents (suc fuel) list (d ∷ ds) v h =
    let read = (read_dirent-Reads d v.0).run (message [] whole) (dirents_bytes ds) in
    let size = length-append (dirent_bytes d) (dirents_bytes ds) in
    let rest =
      dir_items_loop-dirents fuel (list ++ (make_dir_item_from_dirent d ∷ [])) ds v.1
        (omega arith) in
    ap (after_item fuel list) read
    ∙ rest
    ∙ ap some (append_assoc list (make_dir_item_from_dirent d ∷ []) (items ds))

append_dir_items_from_reader-dirents :
    (list : List DirItem) (ds : List Dirent)
    → All IsDirent ds
    → append_dir_items_from_reader list (dirents_bytes ds) ≡ some (list ++ items ds)
unfolding append_dir_items_from_reader
append_dir_items_from_reader-dirents list ds v =
    dir_items_loop-dirents (length (dirents_bytes ds)) list ds v (omega arith)

responses_for-own :
    (mark code : ℕ) (d : Bytes) (ms : List Bytes)
    → Fits d
    → responses_for mark ((mark ∷ code ∷ d) ∷ ms) ≡ (mark ∷ code ∷ d) ∷ responses_for mark ms
unfolding responses_for
responses_for-own mark code d ms fits =
    let short : ltb max_msg_size (length (mark ∷ code ∷ d)) ≡ false = ground arith in
    let own : (mark == mark) ≡ true = ground arith in rw (short, own) refl

abbrev after_message : ℕ → List Bytes → Option (List DirItem) → Option (List DirItem × ℕ)
after_message code ms got = elim got [
  | none ↦ some ([], error_io)
  | some list ↦
      let more = read_dir_answer list ms in
      if code == error_partial_response then more else some (list, code)
]

-- Partial messages put the items of their dirents on the list.
read_dir_answer-Framed :
    (mark : ℕ) (list : List DirItem) (ms rest : List Bytes) (ds : List Dirent)
    → Framed mark ms ds
    → read_dir_answer list (responses_for mark (ms ++ rest))
      ≡ read_dir_answer (list ++ items ds) (responses_for mark rest)
unfolding read_dir_answer responses_for
read_dir_answer-Framed mark list ms rest ds none_yet = rw (append-nil list) refl
read_dir_answer-Framed mark list ms rest ds (one_more ms' ds' g framed valid fits) =
    let m : Bytes = mark ∷ error_partial_response ∷ dirents_bytes g in
    let before = read_dir_answer-Framed mark list ms' (m ∷ rest) ds' framed in
    ap (λ all. read_dir_answer list (responses_for mark all)) (append_assoc ms' (m ∷ []) rest)
    ∙ before
    ∙ ap (read_dir_answer (list ++ items ds'))
        (responses_for-own mark error_partial_response (dirents_bytes g) rest fits)
    ∙ ap (after_message error_partial_response (responses_for mark rest))
        (append_dir_items_from_reader-dirents (list ++ items ds') g valid)
    ∙ ap (λ l. read_dir_answer l (responses_for mark rest))
        (append_assoc list (items ds') (items g) ∙ ap (λ l. list ++ l) (sym (items-append ds' g)))

-- The messages of a listing make the client's loop end in its items, without an error.
pub read_dir_answer-Listed :
    (mark : ℕ) (start : List Bytes) (c : Conn) (ds : List Dirent)
    → Listed mark start c ds
    → read_dir_answer [] (responses_for mark (drop (length start) c.sent))
      ≡ some (items ds, error_ok)
unfolding read_dir_answer responses_for
read_dir_answer-Listed mark start c ds l =
    let final : Bytes = mark ∷ error_ok ∷ dirents_bytes l.last in
    let all : List Bytes = l.ms ++ (final ∷ []) in
    ap (λ sent. read_dir_answer [] (responses_for mark (drop (length start) sent))) l.sent
    ∙ ap (λ ms. read_dir_answer [] (responses_for mark ms)) (drop-length_append start all)
    ∙ read_dir_answer-Framed mark [] l.ms (final ∷ []) l.framed_ds l.framed
    ∙ ap (read_dir_answer (items l.framed_ds))
        (responses_for-own mark error_ok (dirents_bytes l.last) [] l.fits)
    ∙ ap (after_message error_ok [])
        (append_dir_items_from_reader-dirents (items l.framed_ds) l.last l.valid)
    ∙ ap (λ es. some (es, error_ok)) (sym (items-append l.framed_ds l.last) ∙ ap items l.whole)
