-- ===== src/Runs/Client.antt =====
-- The client's theorems on the small system.
use wsfs_core.Prelude.{ℕ, ◌≡◌, refl, arith, some, List, [], ◌++◌, length, take, drop}
use wsfs_core.Prelude.Int.{to_int64}
use wsfs_core.Wire.Bytes.{Bytes}
use wsfs_core.Wire.Text.{text}
use wsfs_core.Wire.Codes.{error_ok}
use wsfs_core.Server.Errno.{Sys}
use wsfs_core.Server.ReadCmds.{read_all_of}
use wsfs_core.Server.Answers.Contents.{ReadsFile}
use wsfs_core.Server.XAttr.{write_xattr_data}
use wsfs_core.Client.{read_answer, read_xattr_data, responses_for}
use wsfs_core.Client.Reassembly.{read_arrives, xattr_arrives}
use wsfs_core.Runs.System.{one_file, the_file, read_at_offset}

abbrev pub reading : ℕ → ℕ → Sys ℕ Bytes
reading off size = read_at_offset 5 size (to_int64 off)

pub reading-ReadsFile : ReadsFile the_file reading
unfolding to_int64
reading-ReadsFile off size w small = ground arith

abbrev pub destination : Bytes
destination = text "................"

abbrev got : Bytes
got = take (length destination) (drop 2 the_file)

read_arrives_example :
    (ms : List Bytes) × ((read_all_of 9 reading 2 (length destination) one_file).conn.sent
      ≡ one_file.conn.sent ++ ms)
    × (read_answer 0 destination (responses_for 9 ms)
        ≡ some (length got, error_ok, got ++ drop (length got) destination))
read_arrives_example =
    read_arrives 9 2 the_file destination reading one_file reading-ReadsFile (omega arith)
      (refl, refl, refl)

xattr_arrives_example :
    (ms : List Bytes) × ((write_xattr_data 9 the_file one_file).conn.sent
      ≡ one_file.conn.sent ++ ms)
    × (read_xattr_data [] (responses_for 9 ms) ≡ some (the_file, error_ok))
xattr_arrives_example = xattr_arrives 9 the_file one_file (refl, refl, refl)
