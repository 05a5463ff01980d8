-- ===== src/Provider/Fake.antt =====
-- internal/provider/fake/fake.go: a provider for tests that answers every message with one status.
use message_delivery.Prelude.{ℕ, String, ◌==◌, List, [], ◌∷◌, ◌++◌, length, if◌then◌else◌}
use message_delivery.Provider.{Message, Result, status_sent, status_failed, status_undeliverable}

pub record FakeProvider : Type 0 where
  pub name : String
  pub status : String
  pub sent : List Message

unfoldable pub new : String → String → FakeProvider
new name status = record {
  name = name;
  status = if status == "" then status_sent else status;
  sent = [];
}

unfoldable pub answer : String → Result
answer status =
    if status == status_sent
    then record { status = status_sent; error_code = "" }
    else if status == status_undeliverable
    then record { status = status_undeliverable; error_code = "provider_not_available" }
    else record { status = status_failed; error_code = "provider_failed" }

-- `Provider.Send`: the message is kept, whatever the answer.
unfoldable pub send : Message → FakeProvider → Result × FakeProvider
unfolding answer
send msg p = (answer p.status, record p { sent = p.sent ++ msg ∷ [] })

-- `Provider.Count`
abbrev pub message_count : FakeProvider → ℕ
message_count p = length p.sent
