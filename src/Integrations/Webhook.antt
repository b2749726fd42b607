-- ===== src/Integrations/Webhook.antt =====
-- packages/integrations/webhook_receiver.py: signed requests of other systems become events. The
-- HMAC, the JSON parser, the clock, and the validation of an `EventCreate` are parameters; a header's
-- name is in lower case.
use Prim.Native.Char.{code}
use operational_intelligence.Prelude.{
  suc, ◌≡◌, ◌≢◌, refl, sym, ap, subst, String, Bool, true, false, Option, some, none, List, [], ◌∷◌,
  ◌==◌, length, All, if◌then◌else◌, str_eq, eq_refl, eq_iff, Bool-cases, Option-cases, inl, inr,
  arith,
}
use operational_intelligence.Prelude.Dict.{Dict, lookup, insert, lookup-insert}
use operational_intelligence.Integrations.{Json, get_field, list_of}

-- `transform`: `none` as a result is an exception
pub record FieldMapping : Type 0 where
  pub source_field : String
  pub transform : Option (Json → Option Json)

-- path.split(".")
abbrev pub split_dots : String → List String
split_dots String.[] = "" ∷ []
split_dots (String.◌∷◌ c s) =
    let rest = split_dots s in
    if code c == 46
    then "" ∷ rest
    else elim rest [ [] ↦ String.◌∷◌ c "" ∷ [] | first ∷ more ↦ String.◌∷◌ c first ∷ more ]

abbrev pub walk : Json → List String → Json
walk current [] = current
walk (Json.object fields) (part ∷ parts) = walk (get_field part fields) parts
walk current (part ∷ parts) = Json.null

unfoldable pub resolve_dotted : Json → String → Json
resolve_dotted data_ path = walk data_ (split_dots path)

-- mapped.setdefault(key, value)
abbrev pub setdefault : String → Json → Dict Json → Dict Json
setdefault key value mapped = elim (lookup key mapped) [
  | none ↦ insert key value mapped
  | some old ↦ mapped
]

-- mapped[target] = raw, unless raw is None; `none` is the transform's exception
abbrev pub assign : String → Option Json → Dict Json → Option (Dict Json)
assign target none mapped = none
assign target (some Json.null) mapped = some mapped
assign target (some raw) mapped = some (insert target raw mapped)

abbrev pub transformed : Option (Json → Option Json) → Json → Option Json
transformed none raw = some raw
transformed (some f) Json.null = some Json.null
transformed (some f) raw = f raw

-- What a call returns or raises.
pub data Received : Type 0 where
  events : List (Dict Json) → Received
  invalid_signature invalid_json transform_error validation_error : Received

-- `one or other`, of headers
abbrev pub or_header : Option String → String → String
or_header none other = other
or_header (some s) other = if str_eq s "" then other else s

module _ (hmac : (secret : String) → (body : String) → String)
    (removeprefix : (prefix s : String) → String) (loads : String → Option Json) (now : String)
    (validate : Dict Json → Bool) where
  unfoldable pub validate_signature : (body signature secret : String) → Bool
  validate_signature body signature secret =
      str_eq (hmac secret body) (removeprefix "sha256=" signature)

  -- The loop over the field mapping.
  unfoldable pub map_fields : Json → List (String × FieldMapping) → Dict Json → Option (Dict Json)
  unfolding resolve_dotted insert
  map_fields item [] mapped = some mapped
  map_fields item ((target, fm) ∷ mappings) mapped =
      elim (assign target (transformed fm.transform (resolve_dotted item fm.source_field)) mapped) [
        | none ↦ none
        | some more ↦ map_fields item mappings more
      ]

  abbrev pub set_all : List (String × Json) → Dict Json → Dict Json
  set_all [] mapped = mapped
  set_all ((key, value) ∷ rest) mapped = set_all rest (setdefault key value mapped)

  -- The required defaults, in their order.
  abbrev pub defaults : (source : String) → Json → List (String × Json)
  defaults source item =
      ("source_system", Json.text source)
      ∷ ("event_type", Json.text "custom")
      ∷ ("entity_type", Json.text "shipment")
      ∷ ("entity_id", Json.text "unknown")
      ∷ ("payload", item)
      ∷ ("occurred_at", Json.text now)
      ∷ []

  unfoldable pub with_defaults : (source : String) → Json → Dict Json → Dict Json
  unfolding lookup insert
  with_defaults source item mapped = set_all (defaults source item) mapped

  abbrev pub prepend : Dict Json → Received → Received
  prepend e (events es) = events (e ∷ es)
  prepend e other = other

  abbrev pub build_event : (source : String) → Json → Option (Dict Json) → Received → Received
  build_event source item none rest = transform_error
  build_event source item (some mapped) rest =
      let event = with_defaults source item mapped in
      if validate event then prepend event rest else validation_error

  -- The loop over the items; an exception ends the call.
  unfoldable pub build_events :
      (source : String) → List (String × FieldMapping) → List Json → Received
  unfolding map_fields with_defaults
  build_events source mappings [] = events []
  build_events source mappings (item ∷ items) =
      build_event source item (map_fields item mappings []) (build_events source mappings items)

  -- A single value counts as a list of one.
  abbrev pub to_list : Json → List Json
  to_list (Json.array xs) = list_of xs
  to_list x = x ∷ []

  abbrev pub parse_body : (source body : String) → List (String × FieldMapping) → Received
  parse_body source body mappings = elim (loads body) [
    | none ↦ invalid_json
    | some payload ↦ build_events source mappings (to_list payload)
  ]

  abbrev pub signature_of : Dict String → String
  signature_of headers =
      or_header (lookup "x-hub-signature-256" headers) (or_header (lookup "x-signature" headers) "")

  -- if secret: … if not await validate_signature(body, sig, secret): raise
  abbrev pub is_refused : Option String → (headers : Dict String) → (body : String) → Bool
  is_refused none headers body = false
  is_refused (some secret) headers body =
      if str_eq secret ""
      then false
      else (if validate_signature body (signature_of headers) secret then false else true)

  unfoldable pub process_webhook :
      (secrets : Dict String)
      → (source : String) → (headers : Dict String) → (body : String) → List (String × FieldMapping)
      → Received
  unfolding lookup validate_signature build_events
  process_webhook secrets source headers body mappings =
      if is_refused (lookup source secrets) headers body
      then invalid_signature
      else parse_body source body mappings

  -- A source with a secret gets events only for a body whose signature, in either header, is the
  -- HMAC of the body under the secret.
  pub process_webhook-signed :
      (secrets : Dict String) (source : String) (headers : Dict String) (body secret : String)
      (mappings : List (String × FieldMapping)) (es : List (Dict Json))
      → lookup source secrets ≡ some secret
      → str_eq secret "" ≡ false
      → process_webhook secrets source headers body mappings ≡ events es
      → hmac secret body ≡ removeprefix "sha256=" (signature_of headers)
  unfolding process_webhook validate_signature
  process_webhook-signed secrets source headers body secret mappings es configured full got =
      elim (Bool-cases
        (str_eq (hmac secret body) (removeprefix "sha256=" (signature_of headers)))) [
          | inl e ↦
              ground (
                arith,
                e,
                eq_iff (hmac secret body) (removeprefix "sha256=" (signature_of headers)),
              )
          | inr e ↦ cc (rw (process_webhook, configured, full, validate_signature, e) at got)
        ]

  -- Every key that an `EventCreate` needs is there.
  abbrev pub IsWhole : Dict Json → Type 0
  IsWhole d =
      All (λ (key : String). lookup key d ≢ none)
        ("source_system" ∷ "event_type" ∷ "entity_type" ∷ "entity_id" ∷ "payload" ∷ "occurred_at"
          ∷ [])

  setdefault-own :
      (key : String) (value : Json) (d : Dict Json) → lookup key (setdefault key value d) ≢ none
  setdefault-own key value d h = elim (Option-cases (lookup key d)) [
    | inl e ↦
        let added = lookup-insert key key value d in
        cc (rw (added, eq_refl key) at (rw (setdefault, e) at h))
    | inr (old, e) ↦ cc (e, rw (setdefault, e) at h)
  ]

  setdefault-keeps :
      (key other : String) (value : Json) (d : Dict Json)
      → lookup other d ≢ none
      → lookup other (setdefault key value d) ≢ none
  setdefault-keeps key other value d h k = elim (Option-cases (lookup key d)) [
    | inr (old, e) ↦ h (rw (setdefault, e) at k)
    | inl e ↦ elim (Bool-cases (str_eq key other)) [
      | inl same ↦ cc (rw (lookup-insert key other value d, same) at (rw (setdefault, e) at k))
      | inr apart ↦ h (rw (lookup-insert key other value d, apart) at (rw (setdefault, e) at k))
    ]
  ]

  set_all-keeps :
      (entries : List (String × Json)) (key : String) (d : Dict Json)
      → lookup key d ≢ none
      → lookup key (set_all entries d) ≢ none
  set_all-keeps [] key d h = h
  set_all-keeps ((k, value) ∷ entries) key d h =
      set_all-keeps entries key (setdefault k value d) (setdefault-keeps k key value d h)

  set_all-has :
      (entries : List (String × Json)) (d : Dict Json)
      → All (λ (entry : String × Json). lookup entry.0 (set_all entries d) ≢ none) entries
  set_all-has [] d = tt
  set_all-has ((key, value) ∷ entries) d = (
    set_all-keeps entries key (setdefault key value d) (setdefault-own key value d),
    set_all-has entries (setdefault key value d),
  )

  with_defaults-IsWhole :
      (source : String) (item : Json) (mapped : Dict Json)
      → IsWhole (with_defaults source item mapped)
  unfolding with_defaults
  with_defaults-IsWhole source item mapped = set_all-has (defaults source item) mapped

  prepended :
      (event : Dict Json) (rest : Received) (es : List (Dict Json))
      → prepend event rest ≡ events es
      → (more : List (Dict Json)) × (rest ≡ events more) × (es ≡ event ∷ more)
  prepended event (events more) es e =
      (more, refl, sym (ap (λ r. elim r [ events xs ↦ xs | _ ↦ [] ]) e))
  prepended event invalid_signature es e = cc e
  prepended event invalid_json es e = cc e
  prepended event transform_error es e = cc e
  prepended event validation_error es e = cc e

  built :
      (source : String) (item : Json) (mapped : Option (Dict Json)) (rest : Received)
      (es : List (Dict Json))
      → build_event source item mapped rest ≡ events es
      → (more : List (Dict Json)) × (rest ≡ events more)
        × ((event : Dict Json) × (IsWhole event × (es ≡ event ∷ more)))
  built source item none rest es e = cc e
  built source item (some mapped) rest es e =
      let event = with_defaults source item mapped in
      elim (Bool-cases (validate event)) [
        | inl ok ↦
            let (more, same, whole) = prepended event rest es (rw ok at e) in
            (more, same, (event, (with_defaults-IsWhole source item mapped, whole)))
        | inr bad ↦ cc (rw bad at e)
      ]

  -- Where the items of a body become events, there is one event for each item, and each has every
  -- key that an `EventCreate` needs.
  pub build_events-IsWhole :
      (source : String) (mappings : List (String × FieldMapping)) (items : List Json)
      (es : List (Dict Json))
      → build_events source mappings items ≡ events es
      → (length es ≡ length items) × All IsWhole es
  unfolding build_events
  build_events-IsWhole source mappings [] es e =
      subst (λ xs. (length xs ≡ 0) × All IsWhole xs)
        (ap (λ r. elim r [ events xs ↦ xs | _ ↦ [] ]) e) (refl, tt)
  build_events-IsWhole source mappings (item ∷ items) es e =
      let (more, rest, (event, (whole, same))) =
        built source item (map_fields item mappings []) (build_events source mappings items) es e in
      let (count, all) = build_events-IsWhole source mappings items more rest in
      subst (λ xs. (length xs ≡ suc (length items)) × All IsWhole xs) (sym same)
        (ap suc count, (whole, all))
