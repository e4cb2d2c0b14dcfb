-- ===== src/Server/Streams/Writes.antt =====
-- What a stream writes: the file afterwards, and the answer to its end.
use wsfs_core.Prelude.{
  ℕ, zero, suc, ◌+◌, ◌%◌, ◌^◌, ◌<◌, ◌≤◌, ◌≡◌, refl, sym, ap, ◌∙◌, false, Option, none, [], ◌∷◌,
  ◌==◌, length, take, drop, arith, take-append-drop, length-take, length-drop,
}
use wsfs_core.Prelude.Int.{to_int64, pos}
use wsfs_core.Wire.Bytes.{Bytes}
use wsfs_core.Server.Errno.{Sys, SysResult, ignoring_eintr}
use wsfs_core.Server.Os.{Os}
use wsfs_core.Server.Streams.{write_chunk}
use wsfs_core.Server.Streams.File.{patched, patched-same, patched-append}

-- The system's pwrite on this descriptor writes into a file, whose content is seen by `view`: a part of
-- what it is given from the front, one byte at least, and nowhere else.
abbrev pub WritesFile : {World : Type 0} → Os World → ℕ → (World → ℕ → ℕ) → Type 0
WritesFile {World} os sfd view =
    (off : ℕ) (d : Bytes) (w : World)
    → off < 2 ^ 63
    → 0 < length d
    → (w' : World) × (n : ℕ) × (os.pwrite sfd d (pos off) w ≡ (w', SysResult.done n))
      × (0 < n)
      × (n ≤ length d)
      × ((i : ℕ) → view w' i ≡ patched off (take n d) (view w) i)

ignoring_eintr-done :
    {World A : Type 0} (limit : ℕ) (op : Sys World A) (w w' : World) (a : A)
    → op w ≡ (w', SysResult.done a)
    → ignoring_eintr limit op w ≡ (w', SysResult.done a)
unfolding ignoring_eintr
ignoring_eintr-done zero op w w' a e = e
ignoring_eintr-done (suc limit) op w w' a e =
    rw (ignoring_eintr, ap (λ r. r.1) e, ap (λ r. r.0) e) refl

to_int64-small : (off : ℕ) → off < 2 ^ 63 → to_int64 off ≡ pos off
unfolding to_int64
to_int64-small off h = ground arith

abbrev pub wrote : {World : Type 0} → World → ℕ → World × ℕ × Option (ℕ × Bytes)
wrote w n = (w, n, none)

module _ {World : Type 0} (os : Os World) (sfd : ℕ) (view : World → ℕ → ℕ)
    (writes : WritesFile os sfd view) where
  -- One round of the loop that writes.
  write_chunk-round :
      (fuel off total : ℕ) (d : Bytes) (w w' : World) (n : ℕ)
      → off < 2 ^ 63
      → 0 < length d
      → os.pwrite sfd d (pos off) w ≡ (w', SysResult.done n)
      → 0 < n
      → write_chunk os (suc fuel) sfd off d total w
        ≡ write_chunk os fuel sfd ((off + n) % 2 ^ 64) (drop n d) ((total + n) % 2 ^ 64) w'
  unfolding write_chunk
  write_chunk-round fuel off total d w w' n small some_left call some_written =
      let done : ignoring_eintr os.eintr_limit (os.pwrite sfd d (to_int64 off)) w
          ≡ (w', SysResult.done n) =
        ignoring_eintr-done os.eintr_limit (os.pwrite sfd d (to_int64 off)) w w' n
          (rw (to_int64-small off small) call) in
      let left : (length d == 0) ≡ false = ground arith in
      let more : (n == 0) ≡ false = ground arith in
      rw (write_chunk, ap (λ r. r.1) done, left, more, ap (λ r. r.0) done) refl

  -- A write of the front, and of the rest behind it.
  two_writes :
      (off n : ℕ) (d : Bytes) (f g : ℕ → ℕ) (i : ℕ)
      → n ≤ length d
      → f i ≡ patched off (take n d) g i
      → patched (off + n) (drop n d) f i ≡ patched off d g i
  two_writes off n d f g i fit e =
      let size : length (take n d) ≡ n = omega (arith, length-take n d) in
      patched-same (off + n) (drop n d) f (patched off (take n d) g) i e
      ∙ ap (λ o. patched (off + o) (drop n d) (patched off (take n d) g) i) (sym size)
      ∙ patched-append off (take n d) (drop n d) g i
      ∙ ap (λ d. patched off d g i) (take-append-drop n d)

  write_chunk-joined :
      (fuel off total n : ℕ) (d : Bytes) (w w1 w' : World)
      → os.pwrite sfd d (pos off) w ≡ (w1, SysResult.done n)
      → 0 < n
      → n ≤ length d
      → off + length d < 2 ^ 63
      → total + length d < 2 ^ 64
      → write_chunk os fuel sfd (off + n) (drop n d) (total + n) w1
        ≡ wrote w' (total + n + length (drop n d))
      → write_chunk os (suc fuel) sfd off d total w ≡ wrote w' (total + length d)
  write_chunk-joined fuel off total n d w w1 w' call some_written fit small fits ran =
      let off' : (off + n) % 2 ^ 64 ≡ off + n = omega arith in
      let total' : (total + n) % 2 ^ 64 ≡ total + n = omega arith in
      let size : total + n + length (drop n d) ≡ total + length d =
        omega (arith, length-drop n d) in
      write_chunk-round fuel off total d w w1 n (omega arith) (omega arith) call some_written
      ∙ rw (off', total') (ran ∙ ap (wrote w') size)

  pub write_chunk_lem :
      (fuel off total : ℕ) (d : Bytes) (w : World)
      → length d ≤ fuel
      → off + length d < 2 ^ 63
      → total + length d < 2 ^ 64
      → (w' : World) × (write_chunk os fuel sfd off d total w ≡ (w', total + length d, none))
        × ((i : ℕ) → view w' i ≡ patched off d (view w) i)
  unfolding write_chunk
  write_chunk_lem zero off total [] w f small fits =
      (w, ap (λ n. wrote w n) (omega arith), λ i. refl)
  write_chunk_lem zero off total (b ∷ d) w f small fits = absurd (omega arith)
  write_chunk_lem (suc fuel) off total [] w f small fits =
      (w, ap (λ n. wrote w n) (omega arith), λ i. refl)
  write_chunk_lem (suc fuel) off total (b ∷ d) w f small fits =
      let all : Bytes = b ∷ d in
      let (w1, n, call, some_written, fit, seen) = writes off all w (omega arith) (omega arith) in
      let left = length-drop n all in
      let (w', ran, after) =
        write_chunk_lem fuel (off + n) (total + n) (drop n all) w1 (omega arith) (omega arith)
          (omega arith) in
      (
        w',
        write_chunk-joined fuel off total n all w w1 w' call some_written fit small fits ran,
        λ i. after i ∙ two_writes off n all (view w1) (view w) i fit (seen i),
      )
