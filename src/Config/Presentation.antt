-- ===== src/Config/Presentation.antt =====
-- `WithDefaults` and `mergeTelegramText` of internal/config/config.go: the texts of the bot.
pub mod Merging
use message_delivery.Prelude.{String, [], ◌∷◌, ◌==◌, if◌then◌else◌}
use message_delivery.Prelude.Dict
use message_delivery.Prelude.Dict.{Dict}
use message_delivery.Config.Types.{TelegramBotPresentation}

abbrev insert_unless_empty : String → String → Dict String → Dict String
insert_unless_empty locale value merged =
    if value == "" then merged else Dict.insert locale value merged

insert_texts : Dict String → Dict String → Dict String
unfolding Dict.insert
insert_texts merged [] = merged
insert_texts merged ((locale, value) ∷ values) =
    insert_texts (insert_unless_empty locale value merged) values

insert_all : Dict String → Dict String → Dict String
unfolding Dict.insert
insert_all merged [] = merged
insert_all merged ((locale, value) ∷ values) = insert_all (Dict.insert locale value merged) values

unfoldable pub merge_telegram_text : Dict String → Dict String → Dict String
unfolding insert_texts insert_all
merge_telegram_text values defaults = insert_texts (insert_all [] defaults) values

abbrev pub texts : String → String → Dict String
texts en ru = ("en", en) ∷ ("ru", ru) ∷ []

unfoldable pub with_defaults : TelegramBotPresentation → TelegramBotPresentation
unfolding merge_telegram_text
with_defaults p = record {
  start_title = merge_telegram_text p.start_title (texts "Welcome" "Добро пожаловать");
  start_body = merge_telegram_text p.start_body (
      texts
        "To connect notifications, open notification settings in the app and select Connect Telegram. If already connected, your connection is unchanged."
        "Чтобы подключить уведомления, откройте настройки уведомлений в приложении и нажмите «Подключить Telegram». Если вы уже подключены, ваша привязка сохранена.");
  welcome_title =
      merge_telegram_text p.welcome_title
        (texts "Telegram notifications connected" "Telegram-уведомления подключены");
  welcome_body = merge_telegram_text p.welcome_body (
      texts
        "We will send important updates here. You can change notification settings in the app at any time."
        "Сюда будут приходить важные обновления. Настройки уведомлений можно изменить в приложении в любое время.");
  notification_fallback_title =
      merge_telegram_text p.notification_fallback_title
        (texts "New notification" "Новое уведомление");
  notification_footer =
      merge_telegram_text p.notification_footer (texts "Notification delivery" "Уведомления");
  open_action_label =
      merge_telegram_text p.open_action_label (texts "Open in app" "Открыть в приложении");
}
