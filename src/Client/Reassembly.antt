-- ===== src/Client/Reassembly.antt =====
-- The client's loops on the answers of the server.
use wsfs_core.Wire.Command.{max_msg_size}
use wsfs_core.Server.Conn.Laws.{IsHealthy}
use wsfs_core.Server.Errno.{Sys}
use wsfs_core.Server.Session.{Session}
use wsfs_core.Server.ReadCmds.{read_all_of}
use wsfs_core.Server.Answers.Contents.{ReadsFile, read_all_of-Delivers}
use wsfs_core.Server.XAttr.{write_xattr_data}
use wsfs_core.Server.XAttr.Data.{write_xattr_data_lem}
use wsfs_core.Client.{copy_at}
use wsfs_core.Prelude.{
  ◌<◌, ◌^◌, length-take, Option, drop-drop, drop-length_append, take-length_append, take_all,
  length-append, length-drop, ◌-◌, false, true, ◌==◌, ltb, ℕ, ◌≡◌, ◌≤◌, ◌+◌, refl, ap, sym, ◌∙◌,
  some, List, [], ◌∷◌, ◌++◌, All, length, take, drop, arith, append_assoc,
}
use wsfs_core.Wire.Bytes.{Bytes}
use wsfs_core.Wire.Codes.{error_ok, error_partial_response}
use wsfs_core.Client.{responses_for, read_answer, read_xattr_data}
use wsfs_core.Server.Answers.Contents.{answer, joined, Fits}

-- The messages of an answer all reach the channel of their mark.
responses_for-answer :
    (mark : ℕ) (parts : List Bytes) (last : Bytes)
    → All Fits parts
    → Fits last
    → responses_for mark (answer mark parts last) ≡ answer mark parts last
unfolding responses_for
responses_for-answer mark [] last fit fits =
    let short : ltb max_msg_size (length (mark ∷ error_ok ∷ last)) ≡ false = ground arith in
    let own : (mark == mark) ≡ true = ground arith in rw (short, own) refl
responses_for-answer mark (p ∷ ps) last (fit, fit_rest) fits =
    let short : ltb max_msg_size (length (mark ∷ error_partial_response ∷ p)) ≡ false =
      ground arith in
    let own : (mark == mark) ≡ true = ground arith in
    rw (short, own, responses_for-answer mark ps last fit_rest fits) refl

read_xattr_data-answer :
    (mark : ℕ) (parts : List Bytes) (got last : Bytes)
    → read_xattr_data got (answer mark parts last) ≡ some (got ++ joined parts last, error_ok)
unfolding read_xattr_data
read_xattr_data-answer mark [] got last = refl
read_xattr_data-answer mark (p ∷ ps) got last =
    read_xattr_data-answer mark ps (got ++ p) last
    ∙ ap (λ d. some (d, error_ok)) (append_assoc got p (joined ps last))

drop-append : (front back : Bytes) (n : ℕ) → drop (length front + n) (front ++ back) ≡ drop n back
drop-append front back n =
    sym (drop-drop n (length front) (front ++ back)) ∙ ap (drop n) (drop-length_append front back)

copy_at-append :
    (front back d : Bytes)
    → length d ≤ length back
    → copy_at (length front) (front ++ back) d ≡ (front ++ d) ++ drop (length d) back
unfolding copy_at
copy_at-append front back d fits =
    let room : length (front ++ back) - length front ≡ length back =
      omega (arith, length-append front back) in
    rw
      (
        copy_at,
        take-length_append front back,
        room,
        take_all (length back) d fits,
        drop-append front back (length d),
      )
      (sym (append_assoc front d (drop (length d) back)))

abbrev outcome : ℕ → ℕ → Bytes → Option (ℕ × ℕ × Bytes)
outcome n code d = some (n, code, d)

same_reading :
    {n n' code : ℕ} {d d' : Bytes} → n ≡ n' → d ≡ d' → outcome n code d ≡ outcome n' code d'
same_reading e f = rw (e, f) refl

same_bytes :
    (front p j back : Bytes)
    → ((front ++ p) ++ j) ++ drop (length j) (drop (length p) back)
      ≡ (front ++ (p ++ j)) ++ drop (length (p ++ j)) back
same_bytes front p j back =
    rw (append_assoc front p j, drop-drop (length j) (length p) back, length-append p j) refl

read_answer-answer :
    (mark : ℕ) (parts : List Bytes) (last front back : Bytes)
    → length (joined parts last) ≤ length back
    → read_answer (length front) (front ++ back) (answer mark parts last)
      ≡ some (
        length front + length (joined parts last),
        error_ok,
        (front ++ joined parts last) ++ drop (length (joined parts last)) back,
      )
unfolding read_answer
read_answer-answer mark [] last front back fits =
    let inside : ltb (length (front ++ back)) (length front) ≡ false =
      ground (arith, length-append front back) in
    rw (read_answer, inside, copy_at-append front back last fits) refl
read_answer-answer mark (p ∷ ps) last front back fits =
    let inside : ltb (length (front ++ back)) (length front) ≡ false =
      ground (arith, length-append front back) in
    let size = length-append p (joined ps last) in
    let back_size = length-drop (length p) back in
    let next = read_answer-answer mark ps last (front ++ p) (drop (length p) back) (omega arith) in
    rw (read_answer, inside, copy_at-append front back p (omega arith), ← length-append front p)
      (next
        ∙ same_reading (omega (arith, length-append front p))
            (same_bytes front p (joined ps last) back))

-- What a client reads at an offset from a server whose connection works arrives: the messages that the
-- read sends make the client's loop end without an error in as many bytes as were asked for or as the
-- file has from there on, which are those of the file, with the rest of the destination as it was.
-- The call that reads gives the bytes of the file, and the end of the read is below 2^63.
pub read_arrives :
    {World : Type 0} (mark off : ℕ) (file dest : Bytes) (call : ℕ → ℕ → Sys World Bytes)
    (s : Session World)
    → ReadsFile file call
    → off + length dest < 2 ^ 63
    → IsHealthy s.conn
    → let bytes : Bytes = take (length dest) (drop off file) in
      (ms : List Bytes) × ((read_all_of mark call off (length dest) s).conn.sent
        ≡ s.conn.sent ++ ms)
      × (read_answer 0 dest (responses_for mark ms)
          ≡ some (length bytes, error_ok, bytes ++ drop (length bytes) dest))
read_arrives mark off file dest call s reads small h =
    let bytes : Bytes = take (length dest) (drop off file) in
    let a = read_all_of-Delivers mark file call off (length dest) s reads small h in
    let size : length bytes ≤ length dest =
      omega (arith, length-take (length dest) (drop off file)) in
    let fits : length (joined a.parts a.last) ≤ length dest = rw (a.joined_lem) size in
    (
      answer mark a.parts a.last,
      a.sent,
      ap (read_answer 0 dest) (responses_for-answer mark a.parts a.last a.parts_fit a.last_fits)
          ∙ read_answer-answer mark a.parts a.last [] dest fits
          ∙ ap (λ bs. outcome (0 + length bs) error_ok (bs ++ drop (length bs) dest)) a.joined_lem
          ∙ same_reading (omega arith) refl,
    )

-- The data of an extended attribute that the server answers with on a connection that works is what the
-- client's loop returns, without an error.
pub xattr_arrives :
    {World : Type 0} (mark : ℕ) (d : Bytes) (s : Session World)
    → IsHealthy s.conn
    → (ms : List Bytes) × ((write_xattr_data mark d s).conn.sent ≡ s.conn.sent ++ ms)
      × (read_xattr_data [] (responses_for mark ms) ≡ some (d, error_ok))
xattr_arrives mark d s h =
    let a = (write_xattr_data_lem mark d s h).1 in
    (
      answer mark a.parts a.last,
      a.sent,
      ap (read_xattr_data []) (responses_for-answer mark a.parts a.last a.parts_fit a.last_fits)
          ∙ read_xattr_data-answer mark a.parts [] a.last
          ∙ ap (λ bs. some (bs, error_ok)) a.joined_lem,
    )
