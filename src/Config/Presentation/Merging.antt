-- ===== src/Config/Presentation/Merging.antt =====
-- The texts of the bot after the defaults are merged in.
use message_delivery.Prelude.{
  String, false, ◌≡◌, refl, ◌∙◌, ap, Option, none, some, List, [], ◌∷◌, ◌==◌, eq_iff, arith,
  if◌then◌else◌, contains, map, IsDistinct, is_some,
}
use message_delivery.Prelude.Dict
use message_delivery.Prelude.Dict.{Dict, lookup-insert}
use message_delivery.Config.Presentation.{
  merge_telegram_text, insert_texts, insert_all, insert_unless_empty,
}

-- The keys of a map.
abbrev pub keys : Dict String → List String
keys m = map (λ e. e.0) m

-- What one map says of a locale, or else the other.
abbrev pub or_text : Option String → Option String → Option String
or_text none old = old
or_text (some value) old = if value == "" then old else some value

some_or_none : (o : Option String) → (if is_some o then o else none) ≡ o
some_or_none none = refl
some_or_none (some v) = refl

lookup-insert_unless_empty :
    (locale l v : String) (merged : Dict String)
    → Dict.lookup locale (insert_unless_empty l v merged) ≡ (
        if l == locale
        then or_text (some v) (Dict.lookup locale merged)
        else Dict.lookup locale merged)
lookup-insert_unless_empty locale l v merged = ground (arith, lookup-insert merged l v locale)

lookup-absent :
    (k : String) (m : Dict String) → contains (keys m) k ≡ false → Dict.lookup k m ≡ none
unfolding Dict.lookup
lookup-absent k [] h = refl
lookup-absent k ((j, v) ∷ m) h = ground (arith, lookup-absent k m)

lookup-insert_texts :
    (locale : String) (values merged : Dict String)
    → IsDistinct (keys values)
    → Dict.lookup locale (insert_texts merged values)
      ≡ or_text (Dict.lookup locale values) (Dict.lookup locale merged)
unfolding insert_texts Dict.lookup
lookup-insert_texts locale [] merged _ = refl
lookup-insert_texts locale ((l, v) ∷ values) merged (new, distinct) =
    lookup-insert_texts locale values (insert_unless_empty l v merged) distinct
    ∙ ground (
      arith,
      lookup-insert_unless_empty locale l v merged,
      lookup-absent l values new,
      eq_iff l locale,
    )

lookup-insert_all :
    (locale : String) (values merged : Dict String)
    → IsDistinct (keys values)
    → Dict.lookup locale (insert_all merged values) ≡ (
        if is_some (Dict.lookup locale values)
        then Dict.lookup locale values
        else Dict.lookup locale merged)
unfolding insert_all Dict.lookup
lookup-insert_all locale [] merged _ = refl
lookup-insert_all locale ((l, v) ∷ values) merged (new, distinct) =
    lookup-insert_all locale values (Dict.insert l v merged) distinct
    ∙ ground (arith, lookup-insert merged l v locale, lookup-absent l values new, eq_iff l locale)

-- For each locale the merged texts say what the deployment says, if that is not empty, or else what
-- the defaults say; each of the two maps has every key once, as Go's maps have.
pub lookup-merge_telegram_text :
    (locale : String) (values defaults : Dict String)
    → IsDistinct (keys values)
    → IsDistinct (keys defaults)
    → Dict.lookup locale (merge_telegram_text values defaults)
      ≡ or_text (Dict.lookup locale values) (Dict.lookup locale defaults)
unfolding merge_telegram_text
lookup-merge_telegram_text locale values defaults once once' =
    lookup-insert_texts locale values (insert_all [] defaults) once
    ∙ ap (or_text (Dict.lookup locale values))
        (lookup-insert_all locale defaults [] once' ∙ (unfold Dict.lookup in some_or_none _))
