-- ===== src/Prelude/Text/Escape.antt =====
-- `html.EscapeString`, and the text in lower case.
use Prim.Native.Char.{Char, code}
use Prim.Native.String.{String, [], ◌∷◌, ◌++◌}
use message_delivery.Prelude.Tests.{eqb, if◌then◌else◌}

-- The five characters that HTML reads, each by its entity.
unfoldable pub escape_char : Char → String
escape_char c =
    if eqb (code c) b'&'
    then "&amp;"
    else if eqb (code c) 39
    then "&#39;"
    else if eqb (code c) b'<'
    then "&lt;"
    else if eqb (code c) b'>'
    then "&gt;"
    else if eqb (code c) 34
    then "&#34;"
    else c ∷ []

unfoldable pub escape_string : String → String
unfolding escape_char
escape_string [] = ""
escape_string (c ∷ s) = escape_char c ++ escape_string s
