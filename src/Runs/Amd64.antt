-- ===== src/Runs/Amd64.antt =====
-- The codec for amd64 on a buffer.
use wsfs_core.Prelude.{◌≡◌, [], ◌++◌, none, arith}
use wsfs_core.Wire.Source.{ok, message, pieces}
use wsfs_core.Wire.Command.{command_bytes, write_command}
use wsfs_core.Wire.Response.{response_bytes, read_response_like}
use wsfs_core.Wire.Amd64.Requests.{write_command_amd64, read_command_amd64}
use wsfs_core.Wire.Amd64.Answers.{write_response_amd64, read_response_amd64}
use wsfs_core.Wire.Amd64.Interop.{request_same_format, answer_same_format}
use wsfs_core.Util.Buffer.Laws.{buffer_writer, new_buffer_lem}
use wsfs_core.Runs.Wire.{put_bytes, lock_answer, thirty_two}

request_same_format_example :
    ((write_command buffer_writer put_bytes thirty_two).1 ≡ none)
    × ((write_command_amd64 buffer_writer put_bytes thirty_two).1 ≡ none)
    × (buffer_writer.content (write_command_amd64 buffer_writer put_bytes thirty_two).0
        ≡ buffer_writer.content (write_command buffer_writer put_bytes thirty_two).0)
    × (read_command_amd64 put_bytes (message (command_bytes put_bytes) (pieces 3))
        ≡ ok put_bytes (message [] (pieces 3)))
request_same_format_example =
    request_same_format buffer_writer thirty_two put_bytes (pieces 3) (omega arith, omega arith)
      (omega (arith, (new_buffer_lem 32).1))

answer_same_format_example :
    ((write_response_amd64 buffer_writer lock_answer thirty_two).1 ≡ none)
    × (buffer_writer.content (write_response_amd64 buffer_writer lock_answer thirty_two).0
        ≡ buffer_writer.content thirty_two ++ response_bytes lock_answer)
    × (read_response_like lock_answer (message (response_bytes lock_answer) (pieces 3))
        ≡ ok lock_answer (message [] (pieces 3)))
    × (read_response_amd64 lock_answer (message (response_bytes lock_answer) (pieces 3))
        ≡ ok lock_answer (message [] (pieces 3)))
answer_same_format_example =
    answer_same_format buffer_writer thirty_two lock_answer (pieces 3)
      (omega arith, omega arith, omega arith, omega arith) (omega (arith, (new_buffer_lem 32).1))
