-- ===== src/Json/Tests.antt =====
-- Texts that `JSON.parse` reads, and texts that it refuses.
use agentdesk_nestjs.Base.{
  ◌≡◌, refl, [], some, none, units, same_text, decode, decode_from, char_of,
}
use agentdesk_nestjs.Json.{null, str, obj, end, field, set_field}
use agentdesk_nestjs.Json.Lex.{
  lex, step, begin, read_literal, read_natural, read_digits, is_number_from, number_step,
}
use agentdesk_nestjs.Json.Parse.{parse, read_tokens, read_token}

parses :
    parse (units " { \"a\" : [ 10 , true, -1.5e3 ] , \"b\":\"x\\\"\\u0041\\n\", \"a\":null } ")
    ≡ some (obj (field "a" null (field "b" (str (units "x\"A\n")) end)))
unfolding parse lex step begin read_literal read_natural read_digits is_number_from number_step
    same_text read_tokens read_token set_field decode decode_from char_of
parses = refl

refuses :
    (parse (units "[1,]") ≡ none)
    × (parse (units "01") ≡ none)
    × (parse (units "{\"a\":1") ≡ none)
    × (parse (units "1 2") ≡ none)
    × (parse [] ≡ none)
unfolding parse lex step begin read_literal read_natural read_digits is_number_from number_step
    same_text read_tokens read_token set_field decode decode_from char_of
refuses = (refl, refl, refl, refl, refl)
