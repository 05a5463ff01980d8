-- ===== src/Provider/TelegramBot/Html.antt =====
-- What the Telegram bot reads of HTML: `htmlToPlainText` of
-- internal/provider/telegrambot/telegrambot.go. The parsers are arguments.
use message_delivery.Prelude.{String, ◌==◌, Option, none, some, List, [], ◌∷◌, ◌++◌, if◌then◌else◌}
use message_delivery.Prelude.Text.{trim_space, join, replace_pairs}

-- A node of a parsed document, the text of a text node, and its children.
mutual
  pub data Node : Type 0 where
    node : Option String → Nodes → Node

  pub data Nodes : Type 0 where
    nil : Nodes
    cons : Node → Nodes → Nodes

-- What `url.Parse` reads of an address.
pub record ParsedUrl : Type 0 where
  pub scheme : String
  pub host : String

-- `golang.org/x/net/html` and `net/url`.
pub record Parsers : Type 0 where
  pub parse_html : String → Option Node
  pub parse_url : String → Option ParsedUrl

abbrev trimmed_part : Option String → List String
trimmed_part none = []
trimmed_part (some data_text) = if trim_space data_text == "" then [] else trim_space data_text ∷ []

-- The texts of a node and of what is below it, in the order of the document.
mutual
  visit : Node → List String
  visit (node text children) = trimmed_part text ++ visit_all children

  visit_all : Nodes → List String
  visit_all nil = []
  visit_all (cons child children) = visit child ++ visit_all children

abbrev punctuation : List (String × String)
punctuation = (" .", ".") ∷ (" ,", ",") ∷ (" !", "!") ∷ (" ?", "?") ∷ (" :", ":") ∷ (" ;", ";") ∷ []

unfoldable pub html_to_plain_text : Parsers → String → String
unfolding visit trim_space replace_pairs join
html_to_plain_text parsers value = elim (parsers.parse_html value) [
  | none ↦ value
  | some document ↦ replace_pairs punctuation (join " " (visit document))
]
