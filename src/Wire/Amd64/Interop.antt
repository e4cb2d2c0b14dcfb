-- ===== src/Wire/Amd64/Interop.antt =====
-- Both variants of the codec speak the same format.
use wsfs_core.Prelude.{◌≡◌, ◌<◌, ◌++◌, [], none, length, ◌∙◌, sym}
use wsfs_core.Wire.Source.{ok, message, Grain}
use wsfs_core.Wire.Sink.{Writer}
use wsfs_core.Wire.Command.{Command, IsCommand, command_bytes, write_command}
use wsfs_core.Wire.Command.RoundTrip.{write_command-Emits}
use wsfs_core.Wire.Response.{
  Response, IsResponse, response_bytes, read_response_like, read_response_like-ReadsAll,
}
use wsfs_core.Wire.Amd64.Requests.{
  write_command_amd64, read_command_amd64, write_command_amd64-Emits, read_command_amd64-ReadsAll,
}
use wsfs_core.Wire.Amd64.Answers.{
  write_response_amd64, read_response_amd64, write_response_amd64-Emits,
  read_response_amd64-ReadsAll,
}

-- Both variants of the codec write the struct of a valid request for which the writer has room without
-- an error and leave the same content, and the variant for amd64 reads the request back from its
-- bytes, however they arrive.
pub request_same_format :
    {W : Type 0} (o : Writer W) (w : W) (c : Command) (grain : Grain)
    → IsCommand c
    → length (command_bytes c) < o.room w
    → ((write_command o c w).1 ≡ none)
      × ((write_command_amd64 o c w).1 ≡ none)
      × (o.content (write_command_amd64 o c w).0 ≡ o.content (write_command o c w).0)
      × (read_command_amd64 c (message (command_bytes c) grain) ≡ ok c (message [] grain))
request_same_format o w c grain v fits =
    let h = write_command-Emits o c v in
    let k = write_command_amd64-Emits o c v in
    let e = (h.completes w fits).0 in
    let f = (k.completes w fits).0 in
    (e, f, k.appends w f ∙ sym (h.appends w e), (read_command_amd64-ReadsAll c v).run_all grain)

-- An answer that the variant for amd64 has room for is written without an error and adds to the
-- content what the decoder of the portable variant reads as the same answer; and the decoder for
-- amd64 reads the answer from the bytes of either.
pub answer_same_format :
    {W : Type 0} (o : Writer W) (w : W) (r : Response) (grain : Grain)
    → IsResponse r
    → length (response_bytes r) < o.room w
    → ((write_response_amd64 o r w).1 ≡ none)
      × (o.content (write_response_amd64 o r w).0 ≡ o.content w ++ response_bytes r)
      × (read_response_like r (message (response_bytes r) grain) ≡ ok r (message [] grain))
      × (read_response_amd64 r (message (response_bytes r) grain) ≡ ok r (message [] grain))
answer_same_format o w r grain v fits =
    let h = write_response_amd64-Emits o r v in
    let fine = (h.completes w fits).0 in
    (
      fine,
      h.appends w fine,
      (read_response_like-ReadsAll r v).run_all grain,
      (read_response_amd64-ReadsAll r v).run_all grain,
    )
