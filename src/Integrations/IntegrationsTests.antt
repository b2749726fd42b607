-- ===== src/Integrations/IntegrationsTests.antt =====
-- A signed webhook, and an alert to three channels.
use operational_intelligence.Prelude.{
  ◌≡◌, refl, String, Bool, true, false, Option, some, none, List, [], ◌∷◌, map,
}
use operational_intelligence.Prelude.Dict.{Dict, lookup}
use operational_intelligence.Integrations.{Json, obj}
use operational_intelligence.Integrations.Webhook.{
  FieldMapping, process_webhook, signature_of, process_webhook-signed, map_fields, with_defaults,
}
use operational_intelligence.Integrations.Outbound.{
  AlertDict, Channel, ChannelResult, Request, Posted, Mail, dispatch,
}

abbrev hmac : String → String → String
hmac secret body = "5a"

abbrev keep : String → String → String
keep prefix s = s

abbrev reading : Json
reading = obj (("vehicle", obj (("id", Json.text "v7") ∷ [])) ∷ [])

abbrev loads : String → Option Json
loads s = some reading

abbrev anything : Dict Json → Bool
anything d = true

abbrev mapping : List (String × FieldMapping)
mapping = ("entity_id", record { source_field = "vehicle.id"; transform = none }) ∷ []

abbrev one_event : List (Dict Json)
one_event =
    with_defaults hmac keep loads "now" anything "samsara" reading
      (("entity_id", Json.text "v7") ∷ [])
    ∷ []

process_webhook-signed_example :
    "5a" ≡ keep "sha256=" (signature_of hmac keep loads "now" anything (("x-signature", "5a") ∷ []))
unfolding process_webhook map_fields lookup
process_webhook-signed_example =
    process_webhook-signed hmac keep loads "now" anything (("samsara", "s3cret") ∷ []) "samsara"
      (("x-signature", "5a") ∷ []) "{}" "s3cret" mapping one_event refl refl refl

abbrev no_channel : Channel
no_channel = record {
  type = none;
  webhook_url = none;
  to = none;
  subject = none;
  smtp_config = none;
  twilio_config = none;
  routing_key = none;
}

abbrev slack : Channel
slack = record no_channel { type = some "slack"; webhook_url = some "https://example" }

-- This one has no URL.
abbrev teams : Channel
teams = record no_channel { type = some "teams" }

abbrev hot : AlertDict
hot = record {
  severity = some "high";
  entity = some "p1";
  message = some "hot";
  actions = [];
  whole = Json.null;
}

abbrev keep_case : String → String
keep_case s = s

abbrev post : Request → Posted
post r = Posted.accepted

abbrev mail : String → Mail → Bool
mail host m = true

results :
    map (λ (r : ChannelResult). r.success) (dispatch post mail keep_case (teams ∷ slack ∷ []) hot)
    ≡ false ∷ true ∷ []
unfolding dispatch
results = refl
