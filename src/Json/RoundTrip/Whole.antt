-- ===== src/Json/RoundTrip/Whole.antt =====
-- `JSON.parse` of what `JSON.stringify` writes.
use agentdesk_nestjs.Base.{◌≡◌, sym, ap, ◌∙◌, [], some, append-nil}
use agentdesk_nestjs.Json.{Json, stringify}
use agentdesk_nestjs.Json.Lex.{lex, between}
use agentdesk_nestjs.Json.Parse.{read_tokens, read_all, parse}
use agentdesk_nestjs.Json.RoundTrip.{IsExact}
use agentdesk_nestjs.Json.RoundTrip.Lexing.{stringify-Lexes}
use agentdesk_nestjs.Json.RoundTrip.Reading.{emit-Reads}

-- A value is read back from its text.
pub parse-stringify : (v : Json) → IsExact v → parse (stringify v) ≡ some v
unfolding parse lex read_tokens
parse-stringify v exact =
    ap (λ s. read_all (lex between s)) (sym (append-nil (stringify v)))
    ∙ ap read_all (stringify-Lexes v exact [] tt)
    ∙ emit-Reads v exact [] []
