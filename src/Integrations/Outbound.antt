-- ===== src/Integrations/Outbound.antt =====
-- packages/integrations/outbound.py, class `NotificationDispatcher`. `post` is the HTTP client and
-- `send_mail` the SMTP library; `upper` is str.upper().
pub mod Dispatch
use Prim.Native.String.{◌++◌}
use operational_intelligence.Prelude.{
  ℕ, String, Bool, true, false, Option, some, none, List, [], ◌∷◌, map, if◌then◌else◌, str_eq,
}
use operational_intelligence.Prelude.Dict.{Dict, lookup}
use operational_intelligence.Integrations.{Json, obj, arr}

-- The keys of an alert's dict that are read; `whole` is the dict itself.
pub record AlertDict : Type 0 where
  pub severity : Option String
  pub entity : Option String
  pub message : Option String
  pub actions : List (Option String × Option String)
  pub whole : Json

-- alert.get(key, default)
abbrev pub or_default : Option String → String → String
or_default none default = default
or_default (some s) default = s

pub record TwilioConfig : Type 0 where
  pub account_sid : Option String
  pub auth_token : Option String
  pub from_number : Option String

pub record SmtpConfig : Type 0 where
  pub host : Option String
  pub port : Option ℕ
  pub username : Option String
  pub password : Option String
  pub from_addr : Option String
  pub use_tls : Option Bool

-- A channel's dict; a field is `none` where the key is absent.
pub record Channel : Type 0 where
  pub type : Option String
  pub webhook_url : Option String
  pub to : Option String
  pub subject : Option String
  pub smtp_config : Option SmtpConfig
  pub twilio_config : Option TwilioConfig
  pub routing_key : Option String

-- A request of the HTTP client, with what it authenticates by.
pub record Request : Type 0 where
  pub url : String
  pub body : Json
  pub auth : Option (String × String)

-- A request that succeeds, one that raises httpx.HTTPError, and another exception with its text.
pub data Posted : Type 0 where
  accepted http_error : Posted
  crashed : String → Posted

pub record Mail : Type 0 where
  pub from_addr : String
  pub to : String
  pub subject : String
  pub body : String
  pub port : ℕ
  pub username : Option String
  pub password : Option String
  pub use_tls : Bool

-- What a send_* method returns, or the text of its exception.
pub data Sent : Type 0 where
  returned : Bool → Sent
  raised : String → Sent

pub record ChannelResult : Type 0 where
  pub type : String
  pub success : Bool
  pub error : Option String

abbrev pub slack_color : String → String
slack_color severity =
    if str_eq severity "critical"
    then "#FF0000"
    else (if str_eq severity "high"
        then "#FF6600"
        else (if str_eq severity "medium"
            then "#FFCC00"
            else (if str_eq severity "low" then "#36A64F" else "#439FE0")))

abbrev pub pagerduty_severity : String → String
pagerduty_severity severity =
    if str_eq severity "critical"
    then "critical"
    else (if str_eq severity "high"
        then "error"
        else (if str_eq severity "medium" then "warning" else "info"))

abbrev pub plain : (type s : String) → Json
plain type s = obj (("type", Json.text type) ∷ ("text", Json.text s) ∷ [])

-- The buttons of the actions that have a text and a URL.
abbrev pub buttons : List (Option String × Option String) → List Json
buttons [] = []
buttons ((some label, some url) ∷ actions) =
    obj (
      ("type", Json.text "button")
      ∷ ("text", plain "plain_text" label)
      ∷ ("url", Json.text url)
      ∷ [])
    ∷ buttons actions
buttons (a ∷ actions) = buttons actions

-- if elements: blocks.append(…)
abbrev pub action_blocks : List Json → List Json
action_blocks [] = []
action_blocks (e ∷ elements) =
    obj (("type", Json.text "actions") ∷ ("elements", arr (e ∷ elements)) ∷ []) ∷ []

-- except httpx.HTTPError: return False
abbrev pub outcome : Posted → Sent
outcome accepted = returned true
outcome http_error = returned false
outcome (crashed text) = raised text

module _ (post : Request → Posted) (send_mail : (host : String) → Mail → Bool)
    (upper : String → String) where
  abbrev pub slack_payload : AlertDict → Json
  slack_payload alert =
      let severity = or_default alert.severity "info" in
      let entity = or_default alert.entity "Unknown" in
      obj (
        (
          "attachments",
          arr (
              obj (
                ("color", Json.text (slack_color severity))
                ∷ (
                  "blocks",
                  arr (
                      obj (
                        ("type", Json.text "header")
                        ∷ ("text", plain "plain_text" ("OIE Alert — " ++ upper severity))
                        ∷ [])
                      ∷ obj (
                          ("type", Json.text "section")
                          ∷ (
                            "fields",
                            arr (
                                plain "mrkdwn" ("*Entity:*\n" ++ entity)
                                ∷ plain "mrkdwn" ("*Severity:*\n" ++ severity)
                                ∷ []),
                          )
                          ∷ [])
                      ∷ obj (
                          ("type", Json.text "section")
                          ∷ (
                            "text",
                            plain "mrkdwn" (or_default alert.message "No message provided"),
                          )
                          ∷ [])
                      ∷ action_blocks (buttons alert.actions)),
                )
                ∷ [])
              ∷ []),
        )
        ∷ [])

  unfoldable pub send_slack : (webhook_url : String) → AlertDict → Sent
  send_slack webhook_url alert =
      outcome (post (record { url = webhook_url; body = slack_payload alert; auth = none }))

  -- Every exception is caught, also that of a missing host.
  unfoldable pub send_email : (to subject body : String) → SmtpConfig → Sent
  send_email to subject body config = elim config.host [
    | none ↦ returned false
    | some host ↦ returned (
        send_mail host (record {
          from_addr = or_default config.from_addr (or_default config.username "");
          to = to;
          subject = subject;
          body = body;
          port = elim config.port [ none ↦ 587 | some p ↦ p ];
          username = config.username;
          password = config.password;
          use_tls = elim config.use_tls [ none ↦ true | some b ↦ b ];
        }))
  ]

  -- config[key], and then `next`; str() of a KeyError is the key in quotes
  abbrev pub required {ℓ} : {A : Type ℓ} → String → Option A → (A → Sent) → Sent
  required key none next = raised ("'" ++ key ++ "'")
  required key (some s) next = next s

  unfoldable pub send_sms : (to message : String) → TwilioConfig → Sent
  send_sms to message config = required "account_sid" config.account_sid λ account_sid.
      required "auth_token" config.auth_token λ auth_token.
        required "from_number" config.from_number λ from_number. outcome (
          post (record {
            url = "https://api.twilio.com/2010-04-01/Accounts/" ++ account_sid ++ "/Messages.json";
            body = obj (
                ("To", Json.text to)
                ∷ ("From", Json.text from_number)
                ∷ ("Body", Json.text message)
                ∷ []);
            auth = some (account_sid, auth_token);
          }))

  unfoldable pub send_pagerduty : (routing_key : String) → AlertDict → Sent
  send_pagerduty routing_key alert = outcome (
      post (record {
        url = "https://events.pagerduty.com/v2/enqueue";
        body = obj (
            ("routing_key", Json.text routing_key)
            ∷ ("event_action", Json.text "trigger")
            ∷ (
              "payload",
              obj (
                  ("summary", Json.text (or_default alert.message "OIE Alert"))
                  ∷ ("severity", Json.text (pagerduty_severity (or_default alert.severity "info")))
                  ∷ ("source", Json.text (or_default alert.entity "oie"))
                  ∷ ("component", Json.text "operational-intelligence-engine")
                  ∷ ("custom_details", alert.whole)
                  ∷ []),
            )
            ∷ []);
        auth = none;
      }))

  abbrev pub fact : (title value : String) → Json
  fact title value = obj (("title", Json.text title) ∷ ("value", Json.text value) ∷ [])

  abbrev pub teams_card : AlertDict → Json
  teams_card alert =
      let severity = or_default alert.severity "info" in
      obj (
        ("type", Json.text "message")
        ∷ (
          "attachments",
          arr (
              obj (
                ("contentType", Json.text "application/vnd.microsoft.card.adaptive")
                ∷ (
                  "content",
                  obj (
                      ("$schema", Json.text "http://adaptivecards.io/schemas/adaptive-card.json")
                      ∷ ("type", Json.text "AdaptiveCard")
                      ∷ ("version", Json.text "1.4")
                      ∷ (
                        "body",
                        arr (
                            obj (
                              ("type", Json.text "TextBlock")
                              ∷ ("size", Json.text "Large")
                              ∷ ("weight", Json.text "Bolder")
                              ∷ ("text", Json.text ("OIE Alert — " ++ upper severity))
                              ∷ [])
                            ∷ obj (
                                ("type", Json.text "FactSet")
                                ∷ (
                                  "facts",
                                  arr (
                                      fact "Entity" (or_default alert.entity "Unknown")
                                      ∷ fact "Severity" severity
                                      ∷ []),
                                )
                                ∷ [])
                            ∷ obj (
                                ("type", Json.text "TextBlock")
                                ∷ (
                                  "text",
                                  Json.text (or_default alert.message "No message provided"),
                                )
                                ∷ ("wrap", Json.flag true)
                                ∷ [])
                            ∷ []),
                      )
                      ∷ []),
                )
                ∷ [])
              ∷ []),
        )
        ∷ [])

  unfoldable pub send_teams : (webhook_url : String) → AlertDict → Sent
  send_teams webhook_url alert =
      outcome (post (record { url = webhook_url; body = teams_card alert; auth = none }))

  -- The branch of a channel's type, with the exceptions that leave it.
  unfoldable pub send_channel : (ch_type : String) → Channel → AlertDict → Sent
  unfolding send_slack send_email send_sms send_pagerduty send_teams
  send_channel ch_type ch alert =
      if str_eq ch_type "slack"
      then required "webhook_url" ch.webhook_url (λ url. send_slack url alert)
      else (if str_eq ch_type "email"
          then required "to" ch.to (λ to. required "smtp_config" ch.smtp_config (λ config.
            send_email to (or_default ch.subject "OIE Alert") (or_default alert.message "") config))
          else (if str_eq ch_type "sms"
              then required "to" ch.to (λ to.
                required "twilio_config" ch.twilio_config
                  (λ config. send_sms to (or_default alert.message "") config))
              else (if str_eq ch_type "pagerduty"
                  then required "routing_key" ch.routing_key (λ key. send_pagerduty key alert)
                  else (if str_eq ch_type "teams"
                      then required "webhook_url" ch.webhook_url (λ url. send_teams url alert)
                      else raised ("Unknown channel type: " ++ ch_type)))))

  -- `error` is left out where it is an empty text.
  abbrev pub channel_result : (ch_type : String) → Sent → ChannelResult
  channel_result ch_type (returned b) = record { type = ch_type; success = b; error = none }
  channel_result ch_type (raised text) = record {
    type = ch_type;
    success = false;
    error = if str_eq text "" then none else some text;
  }

  -- The loop over the channels.
  unfoldable pub dispatch : List Channel → AlertDict → List ChannelResult
  unfolding send_channel
  dispatch [] alert = []
  dispatch (ch ∷ channels) alert =
      let ch_type = or_default ch.type "unknown" in
      channel_result ch_type (send_channel ch_type ch alert) ∷ dispatch channels alert
