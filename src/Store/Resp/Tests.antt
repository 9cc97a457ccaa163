-- ===== src/Store/Resp/Tests.antt =====
-- Commands and replies at concrete bytes.
use averlock.Prelude.{◌≡◌, refl, some, [], ◌∷◌, ◌++◌, codes, ok, err, arith}
use averlock.Text.{trim_left}
use averlock.Store.{connection_failed, command_failed, invalid_response, make_panics}
use averlock.Store.Resp.{bulk, command, parse_reply, crlf}
use averlock.Store.Resp.Framing.{read_command, read_command-command}
use averlock.Store.Resp.Reply.{parse_reply-bulk}

replies :
    (parse_reply (codes "+OK" ++ crlf) ≡ ok [])
    × (parse_reply (codes "-ERR" ++ crlf) ≡ err command_failed)
    × (parse_reply (codes ":1" ++ crlf) ≡ err invalid_response)
    × (parse_reply (codes "$-1" ++ crlf) ≡ ok [])
    × (parse_reply (codes "$9223372036854775806" ++ crlf) ≡ err make_panics)
    × (parse_reply (codes "$5" ++ crlf ++ codes "abc") ≡ err connection_failed)
unfolding parse_reply trim_left
replies = (refl, refl, refl, refl, refl, refl)

read_command-command_example :
    read_command (command (codes "GET" ∷ (13 ∷ 10 ∷ []) ∷ []) ++ codes "rest")
    ≡ some (codes "GET" ∷ (13 ∷ 10 ∷ []) ∷ [], codes "rest")
read_command-command_example =
    read_command-command (codes "GET" ∷ (13 ∷ 10 ∷ []) ∷ []) (codes "rest")

parse_reply-bulk_example : parse_reply (bulk (codes "a$b") ++ codes "rest") ≡ ok (codes "a$b")
parse_reply-bulk_example = parse_reply-bulk (codes "a$b") (codes "rest") (omega arith)
