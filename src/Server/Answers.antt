-- ===== src/Server/Answers.antt =====
-- The protocol's promise for one request: on a connection that works the handler sends messages
-- under the request's mark, first partial ones and then exactly one that is not partial, each
-- within the message size.
pub mod Replies
pub mod Reads
pub mod Closes
pub mod Contents
pub mod Files
pub mod Paths
pub mod XAttrs
use wsfs_core.Prelude.{
  ℕ, ◌≤◌, ◌≡◌, ◌≢◌, refl, List, [], ◌∷◌, ◌++◌, All, length, append_assoc, append-nil, sym, ap, ◌∙◌,
}
use wsfs_core.Wire.Bytes.{Bytes}
use wsfs_core.Wire.Codes.{error_partial_response}
use wsfs_core.Wire.Command.{max_msg_size}
use wsfs_core.Server.Conn.{Conn}
use wsfs_core.Server.Conn.Laws.{IsHealthy}

abbrev pub IsPart : ℕ → Bytes → Type 0
IsPart mark m =
    (payload : Bytes) × (m ≡ mark ∷ error_partial_response ∷ payload) × (length m ≤ max_msg_size)

abbrev pub IsFinal : ℕ → Bytes → Type 0
IsFinal mark m =
    (code : ℕ) × (payload : Bytes) × (m ≡ mark ∷ code ∷ payload)
    × (code ≢ error_partial_response)
    × (length m ≤ max_msg_size)

-- From the connection before the handler to the connection after it.
pub record Answers (mark : ℕ) (before after : Conn) : Type 0 where
  pub healthy : IsHealthy after
  pub parts : List Bytes
  pub last : Bytes
  pub sent : after.sent ≡ before.sent ++ (parts ++ (last ∷ []))
  pub parts_lem : All (IsPart mark) parts
  pub last_lem : IsFinal mark last

-- A final message is an answer.
pub final-Answers :
    (mark : ℕ) (m : Bytes) {before after : Conn}
    → IsFinal mark m
    → IsHealthy after
    → after.sent ≡ before.sent ++ (m ∷ [])
    → Answers mark before after
final-Answers mark m f h e = record {
  healthy = h;
  parts = [];
  last = m;
  sent = e;
  parts_lem = tt;
  last_lem = f;
}

-- A part in front of an answer is an answer.
pub part-Answers :
    (mark : ℕ) (m : Bytes) {before middle after : Conn}
    → IsPart mark m
    → middle.sent ≡ before.sent ++ (m ∷ [])
    → Answers mark middle after
    → Answers mark before after
part-Answers mark m {before} f e a = record {
  healthy = a.healthy;
  parts = m ∷ a.parts;
  last = a.last;
  sent =
      a.sent
      ∙ ap (λ sent. sent ++ (a.parts ++ (a.last ∷ []))) e
      ∙ append_assoc before.sent (m ∷ []) (a.parts ++ (a.last ∷ []));
  parts_lem = (f, a.parts_lem);
  last_lem = a.last_lem;
}
