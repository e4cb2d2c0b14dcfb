-- ===== src/Runs/Wire.antt =====
-- The protocol's theorems at concrete requests, in the buffer that the client builds messages in.
use wsfs_core.Prelude.{
  ℕ, ◌≡◌, ◌<◌, ◌∷◌, [], refl, arith, none, some, ◌++◌, length, min, take, ltb, if◌then◌else◌, ◌&&◌,
  ◌↔◌, not, ◌⊎◌, true,
}
use wsfs_core.Wire.Text.{text}
use wsfs_core.Wire.Source.{message, ok, read_all_to_buffer, pieces, whole, Grain}
use wsfs_core.Wire.Source.Laws.{read_all_to_buffer_lem, filled}
use wsfs_core.Wire.Sink.{short_write}
use wsfs_core.Wire.Command.{Command, mkdir, write_file, send_command}
use wsfs_core.Wire.Command.Decode.{dispatch_command, call, read_command}
use wsfs_core.Wire.Command.RoundTrip.{request_received, request_arrives, read_command-none}
use wsfs_core.Wire.Command.{command_bytes}
use wsfs_core.Wire.Command.Size.{length-command_bytes, command_required_size}
use wsfs_core.Wire.Response.{
  Response, get_file_lock_rsp, write_response, response_bytes, read_response_like, response_arrives,
}
use wsfs_core.Util.Buffer.{IsBuffer, avail, new_buffer, write}
use wsfs_core.Util.Buffer.Laws.{Valid, buffer_writer, new_buffer_lem, write_lem, held}
use wsfs_core.Util.Strings.{contains, has_suffix}
use wsfs_core.Util.Url.{is_url_valid, starts_with_slash}
use wsfs_core.Util.Url.Safety.{is_url_valid_lem, is_url_valid-below, elements, walk, is_dots, any}

abbrev sixteen : Valid
sixteen = (new_buffer 16, (new_buffer_lem 16).0)

abbrev make_dir : Command
make_dir = mkdir (record { path = text "/a"; mode = 0o755 })

request_arrives_example :
    ((send_command buffer_writer 7 make_dir sixteen).1 ≡ none)
    × (dispatch_command (
          message
            (buffer_writer.content (send_command buffer_writer 7 make_dir sixteen).0)
            (pieces 2))
        ≡ ok (7, call make_dir) (message [] (pieces 2)))
request_arrives_example =
    request_arrives buffer_writer sixteen 7 make_dir (pieces 2) (omega arith, omega arith)
      (new_buffer_lem 16).2 (omega (arith, (new_buffer_lem 16).1))

abbrev pub put_bytes : Command
put_bytes = write_file (record { fd = 3; payload = 1 ∷ 2 ∷ 3 ∷ [] })

request_received_example :
    dispatch_command
      (message (buffer_writer.content (send_command buffer_writer 8 put_bytes sixteen).0) whole)
    ≡ ok (8, call put_bytes) (message [] whole)
request_received_example =
    request_received buffer_writer sixteen 8 put_bytes whole (omega arith, omega arith)
      (new_buffer_lem 16).2
      (request_arrives buffer_writer sixteen 8 put_bytes whole (omega arith, omega arith)
        (new_buffer_lem 16).2 (omega (arith, (new_buffer_lem 16).1))).0

is_url_valid-below_example :
    (below : _) × (walk (text "srv" ∷ []) (elements (text "/a//b/..c"))
      ≡ below ++ (text "srv" ∷ []))
unfolding is_url_valid contains has_suffix
is_url_valid-below_example = is_url_valid-below (text "srv" ∷ []) (text "/a//b/..c") refl

is_url_valid_lem_example :
    is_url_valid (text "/a/../b")
    ≡ (starts_with_slash (text "/a/../b") && not (any is_dots (elements (text "/a/../b"))))
is_url_valid_lem_example = is_url_valid_lem (text "/a/../b")

write_lem_example :
    let (b', n, e) = write (new_buffer 2) (text "abc") in
    IsBuffer b'
    × (length b'.bytes ≡ length (new_buffer 2).bytes)
    × (n ≡ min (length (text "abc")) (avail (new_buffer 2)))
    × (held b' ≡ held (new_buffer 2) ++ take n (text "abc"))
    × (e ≡ (if ltb (avail (new_buffer 2)) (length (text "abc")) then some short_write else none))
write_lem_example = write_lem (new_buffer 2) (text "abc") (new_buffer_lem 2).0

-- The last bytes come with the end of the message.
abbrev at_end : Grain
at_end left = (left, true)

read_all_to_buffer_lem_example :
    read_all_to_buffer 2 (message (1 ∷ 2 ∷ []) at_end) ≡ filled 2 [] (1 ∷ 2 ∷ []) at_end
read_all_to_buffer_lem_example = read_all_to_buffer_lem 2 (1 ∷ 2 ∷ []) at_end

abbrev behind : ℕ
behind = 34

read_command-none_example : (read_command behind ≡ none) ↔ ((behind ≡ 0) ⊎ (33 < behind))
read_command-none_example = read_command-none behind

length-command_bytes_example : length (command_bytes put_bytes) ≡ command_required_size put_bytes
length-command_bytes_example = length-command_bytes put_bytes

abbrev pub lock_answer : Response
lock_answer =
    get_file_lock_rsp
      (record { file_lock = record { lock_type = 1; whence = 0; start = 5; size = 6 } })

abbrev pub thirty_two : Valid
thirty_two = (new_buffer 32, (new_buffer_lem 32).0)

response_arrives_example :
    ((write_response buffer_writer lock_answer thirty_two).1 ≡ none)
    × (buffer_writer.content (write_response buffer_writer lock_answer thirty_two).0
        ≡ buffer_writer.content thirty_two ++ response_bytes lock_answer)
    × (read_response_like lock_answer (message (response_bytes lock_answer) (pieces 3))
        ≡ ok lock_answer (message [] (pieces 3)))
response_arrives_example =
    response_arrives buffer_writer thirty_two lock_answer (pieces 3)
      (omega arith, omega arith, omega arith, omega arith) (omega (arith, (new_buffer_lem 32).1))
