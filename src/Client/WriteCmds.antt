-- ===== src/Client/WriteCmds.antt =====
-- The commands of internal/client/session/commands.go that write: CmdWrite and CmdWriteAt, which cut
-- long data up, and CmdCopyFileRange, which asks for a range by pieces.
use wsfs_core.Prelude.{
  ℕ, zero, suc, ◌+◌, ◌-◌, ◌/◌, ◌%◌, ◌^◌, min, ◌||◌, ◌==◌, not, none, some, length, take, drop, ltb,
  leb, if◌then◌else◌, [],
}
use wsfs_core.Wire.Bytes.{Bytes}
use wsfs_core.Wire.Codes.{error_ok, error_io, max_copy_file_range_chunk}
use wsfs_core.Wire.Command.{max_msg_size, write_file, write_at, copy_file_range}
use wsfs_core.Wire.Rsp.{read_rsp_write, read_rsp_write_at, read_rsp_copy_file_range}
use wsfs_core.Client.Session.{Remote, Client, new_client_mark, release_client_mark}
use wsfs_core.Client.Request.{request_command, value_of}
use wsfs_core.Client.WriteStream.{open_write_stream, stream_close}

abbrev pub max_write_payload : ℕ
max_write_payload = max_msg_size - 6

abbrev pub max_write_at_payload : ℕ
max_write_at_payload = max_msg_size - 14

module _ {Peer : Type 0} (remote : Remote Peer) where
  -- CmdWrite of what one message holds.
  unfoldable pub write_once : ℕ → Bytes → Client Peer (ℕ × ℕ)
  write_once fd d =
      request_command remote (write_file (record { fd = fd; payload = d })) (0, error_io)
        (0, error_io) (value_of read_rsp_write (λ rsp. rsp.written) 0)

  -- The loop over the full chunks. Each goes on behind what the server has written; one that would end
  -- behind the data panics.
  unfoldable pub write_chunks : ℕ → ℕ → Bytes → ℕ → Client Peer (ℕ × ℕ)
  unfolding write_once
  write_chunks zero fd d off s = some ((off, error_ok), s)
  write_chunks (suc n) fd d off s =
      if ltb (length d) (off + max_write_payload)
      then none
      else (elim (write_once fd (take max_write_payload (drop off d)) s) [
        | none ↦ none
        | some ((count, code), s') ↦
            let more = write_chunks n fd d (off + count) s' in
            if code == error_ok then more else some ((off, code), s')
      ])

  -- The rest is written by a call of the function itself: on fuel.
  unfoldable pub cmd_write : ℕ → ℕ → Bytes → Client Peer (ℕ × ℕ)
  unfolding new_client_mark release_client_mark write_chunks
  cmd_write zero fd d s = none
  cmd_write (suc depth) fd d s =
      if leb (length d) max_write_payload then write_once fd d s else (elim (new_client_mark s) [
        | none ↦ none
        | some (none, s') ↦ some ((0, error_io), s')
        | some (some mark, s') ↦
            elim (write_chunks (length d / max_write_payload) fd d 0
              (release_client_mark mark s')) [
                | none ↦ none
                | some ((off, code), s1) ↦
                    let last = cmd_write depth fd (drop off d) s1 in
                    if not (code == error_ok) || (length d % max_write_payload == 0)
                    then some ((off, code), s1)
                    else (if ltb (length d) off then none else (elim last [
                      | none ↦ none
                      | some ((count, code'), s2) ↦
                          if code' == error_ok
                          then some ((off + count, error_ok), s2)
                          else some ((off, code'), s2)
                    ]))
              ]
      ])

  unfoldable pub cmd_write_at : ℕ → ℕ → Bytes → Client Peer (ℕ × ℕ)
  unfolding open_write_stream stream_close
  cmd_write_at fd offset d s =
      if leb (length d) max_write_at_payload
      then request_command remote (write_at (record { fd = fd; offset = offset; payload = d }))
          (0, error_io) (0, error_io) (value_of read_rsp_write_at (λ rsp. rsp.written) 0) s
      else (elim (open_write_stream remote fd offset d s) [
        | none ↦ none
        | some (none, s') ↦ some ((0, error_io), s')
        | some (some stream, s') ↦ elim (stream_close remote [] stream s') [
          | none ↦ none
          | some (((written, code, desc), stream'), s2) ↦
              if not (code == error_ok)
              then some ((written, code), s2)
              else (if stream'.write_err_code == 0
                  then some ((written, error_ok), s2)
                  else some ((written, stream'.write_err_code), s2))
        ]
      ])

  -- A connection that takes no request makes this a success of 0 bytes: the named results are
  -- returned as they are.
  unfoldable pub cmd_copy_file_range_once : ℕ → ℕ → ℕ → ℕ → ℕ → Client Peer (ℕ × ℕ)
  cmd_copy_file_range_once fd1 fd2 off1 off2 size =
      request_command remote
        (copy_file_range (record {
          src_fd = fd1;
          dst_fd = fd2;
          src_offset = off1;
          dst_offset = off2;
          size = size;
        }))
        (0, error_io) (0, error_ok) (value_of read_rsp_copy_file_range (λ rsp. rsp.copied) 0)

  -- The loop, on fuel; the counts and offsets are of 64 bits.
  unfoldable pub copy_loop : ℕ → ℕ → ℕ → ℕ → ℕ → ℕ → ℕ → Client Peer (ℕ × ℕ)
  unfolding cmd_copy_file_range_once
  copy_loop zero fd1 fd2 off1 off2 size total s = none
  copy_loop (suc fuel) fd1 fd2 off1 off2 size total s =
      let chunk = min size max_copy_file_range_chunk in
      if size == 0
      then some ((total, error_ok), s)
      else (elim (cmd_copy_file_range_once fd1 fd2 off1 off2 chunk s) [
        | none ↦ none
        | some ((n, code), s') ↦
            let total' = (total + n) % 2 ^ 64 in
            let more =
              copy_loop fuel fd1 fd2 ((off1 + n) % 2 ^ 64) ((off2 + n) % 2 ^ 64)
                ((size + (2 ^ 64 - n)) % 2 ^ 64) total' s' in
            if not (code == error_ok)
            then some ((total', code), s')
            else (if n == 0 || ltb n chunk then some ((total', error_ok), s') else more)
      ])

  -- The fuel is a round for each full piece and two more.
  unfoldable pub cmd_copy_file_range : ℕ → ℕ → ℕ → ℕ → ℕ → Client Peer (ℕ × ℕ)
  unfolding copy_loop
  cmd_copy_file_range fd1 fd2 off1 off2 size =
      copy_loop (size / max_copy_file_range_chunk + 2) fd1 fd2 off1 off2 size 0
