-- ===== src/Provider/Email/Branded.antt =====
-- Whose name an e-mail carries, and which addresses to unsubscribe.
use Prim.Native.String.{◌++◌ as ◌<>◌}
use message_delivery.Prelude.{
  ℕ, String, Option-cases, false, ◌==◌, ◌≡◌, inl, inr, refl, sym, ap, ◌∙◌, none, some, List, ◌++◌,
  is_empty, if◌then◌else◌,
}
use message_delivery.Prelude.Fallible.{Fallible, ok, >>=-eq-ok}
use message_delivery.Prelude.Dict
use message_delivery.Provider.{Message}
use message_delivery.Provider.Email.Message.{
  Brand, MailSources, Mail, MailError, Unsubscribe, unsubscribe_of, base_headers, layout_of,
  laid_out, build_message, type_of, or_required, as_document, invalid_sender, no_identifier,
}
use message_delivery.Provider.Email.{Smtp, brand_name, identity_of, message}

-- What a message that was built is made of.
pub record IsBuilt (sources : MailSources) (from : String) (msg : Message) (layout : String)
    (mail : Mail) : Type 0 where
  pub address : String
  pub identifier : List ℕ
  pub unsubscribe : Unsubscribe
  pub unsubscribes :
      unsubscribe_of sources msg (layout_of msg layout) (type_of msg) ≡ ok unsubscribe
  pub headers : mail.headers ≡ base_headers from msg address identifier ++ unsubscribe.headers
  pub text : String
  pub text_type : String
  pub laid :
      laid_out
        (layout_of msg layout)
        (msg.body <> unsubscribe.appended)
        (type_of msg)
        unsubscribe.footer
      ≡ ok (text, text_type)
  pub content_type : mail.content_type ≡ text_type
  pub body : mail.body ≡ as_document text_type text

pub ok-injective : {x y : Mail} → ◌≡◌ {A = Fallible MailError Mail} (ok x) (ok y) → x ≡ y
ok-injective h = cc

build_message-IsBuilt :
    (sources : MailSources) (from : String) (msg : Message) (layout : String) (mail : Mail)
    → build_message sources from msg layout ≡ ok mail
    → IsBuilt sources from msg layout mail
unfolding build_message
build_message-IsBuilt sources from msg layout mail h =
    let (address, parsed, h1) =
      >>=-eq-ok (or_required invalid_sender (sources.parse_address from)) _ h in
    let (identifier, drawn, h2) = >>=-eq-ok (or_required no_identifier sources.random) _ h1 in
    let (unsubscribe, unsubscribes, h3) =
      >>=-eq-ok (unsubscribe_of sources msg (layout_of msg layout) (type_of msg)) _ h2 in
    let ((text, text_type), laid, h4) =
      >>=-eq-ok
        (laid_out (layout_of msg layout) (msg.body <> unsubscribe.appended) (type_of msg)
          unsubscribe.footer)
        _ h3 in
    record {
      address = address;
      identifier = identifier;
      unsubscribe = unsubscribe;
      unsubscribes = unsubscribes;
      headers = sym (ap (λ m. m.headers) (ok-injective h4));
      text = text;
      text_type = text_type;
      laid = laid;
      content_type = sym (ap (λ m. m.content_type) (ok-injective h4));
      body = sym (ap (λ m. m.body) (ok-injective h4));
    }

-- The message of a provider: built with an identity, whose logo it has.
pub record IsMessage (sources : MailSources) (p : Smtp) (msg : Message) (mail : Mail) : Type 0 where
  pub brand : Brand
  pub plain : Mail
  pub identity : identity_of p msg ≡ ok brand
  pub built : IsBuilt sources brand.from msg brand.layout plain
  pub headers : mail.headers ≡ plain.headers
  pub content_type : mail.content_type ≡ plain.content_type
  pub body : mail.body ≡ plain.body
  pub logo : mail.logo ≡ (if brand.logo_file == "" then none else some brand.logo_file)

pub message-IsMessage :
    (sources : MailSources) (p : Smtp) (msg : Message) (mail : Mail)
    → message sources p msg ≡ ok mail
    → IsMessage sources p msg mail
unfolding message
message-IsMessage sources p msg mail h =
    let (brand, identity, h1) = >>=-eq-ok (identity_of p msg) _ h in
    let (plain, built, h2) = >>=-eq-ok (build_message sources brand.from msg brand.layout) _ h1 in
    record {
      brand = brand;
      plain = plain;
      identity = identity;
      built = build_message-IsBuilt sources brand.from msg brand.layout plain built;
      headers = sym (ap (λ m. m.headers) (ok-injective h2));
      content_type = sym (ap (λ m. m.content_type) (ok-injective h2));
      body = sym (ap (λ m. m.body) (ok-injective h2));
      logo = sym (ap (λ m. m.logo) (ok-injective h2));
    }

identity_of-eq-ok :
    (p : Smtp) (msg : Message) (brand : Brand)
    → is_empty p.brands ≡ false
    → identity_of p msg ≡ ok brand
    → Dict.lookup (brand_name p msg) p.brands ≡ some brand
unfolding identity_of
identity_of-eq-ok p msg brand some_brands h =
    elim (Option-cases (Dict.lookup (brand_name p msg) p.brands)) [
      | inl unknown ↦ cc (rw (some_brands, unknown, identity_of) at h)
      | inr (found, has) ↦ has ∙ ap (λ b. some b) (cc (rw (some_brands, has, identity_of) at h))
    ]

From-base :
    (from : String) (msg : Message) (address : String) (identifier : List ℕ)
    (more : Dict.Dict String)
    → Dict.lookup "From" (base_headers from msg address identifier ++ more) ≡ some from
unfolding base_headers Dict.lookup
From-base from msg address identifier more = refl

-- Where brands are configured, a message that is made carries the sender and the logo of one of
-- them: the one that the event names, or else the default one. Nothing else of the event has an
-- influence on them.
pub message-IsBranded :
    (sources : MailSources) (p : Smtp) (msg : Message) (mail : Mail)
    → is_empty p.brands ≡ false
    → message sources p msg ≡ ok mail
    → (brand : Brand) × (Dict.lookup (brand_name p msg) p.brands ≡ some brand)
      × (Dict.lookup "From" mail.headers ≡ some brand.from)
      × (mail.logo ≡ (if brand.logo_file == "" then none else some brand.logo_file))
message-IsBranded sources p msg mail some_brands h =
    let m = message-IsMessage sources p msg mail h in
    (
      m.brand,
      identity_of-eq-ok p msg m.brand some_brands m.identity,
      ap (λ hs. Dict.lookup "From" hs) (m.headers ∙ m.built.headers)
          ∙ From-base m.brand.from msg m.built.address m.built.identifier
              m.built.unsubscribe.headers,
      m.logo,
    )
