-- ===== src/Pipeline/Stream.antt =====
-- packages/events/stream.py, class `EventStream`. A Redis stream is the list of its messages, oldest
-- first, with the tenant whose key it stands under; XADD gives the id. JSON is a parameter.
use operational_intelligence.Prelude.{
  ℕ, zero, suc, ◌≡◌, refl, String, Bool, Option, some, none, List, [], ◌∷◌, ◌++◌, ◌==◌, map, take,
  filter_by, if◌then◌else◌, arith, append-nil, append_assoc, reversed, reversed-map, take-map, All,
  All-filter_by, All-take, All-reversed, sym, Bool-cases, inl, inr,
}
use operational_intelligence.Prelude.Dict.{Dict, lookup, insert}

-- The message of a stream: its id and its fields.
pub record Message : Type 0 where
  pub id : String
  pub fields : Dict String

abbrev pub Streams : Type 0
Streams = List (ℕ × Message)

abbrev is_of : ℕ → ℕ × Message → Bool
is_of tenant entry = entry.0 == tenant

unfoldable pub messages_of : ℕ → Streams → List Message
messages_of tenant streams = map (λ (e : ℕ × Message). e.1) (filter_by (is_of tenant) streams)

-- fields.get("data", "{}")
abbrev or_empty : Option String → String
or_empty none = "{}"
or_empty (some s) = s

-- What json.loads returns: a dict, or a value of another type.
pub data Loaded (J : Type 0) : Type 0 where
  dict : Dict J → Loaded J
  other : J → Loaded J

module _ {J : Type 0} (dumps : Dict J → String) where
  -- XADD under the key of the tenant; `none` is a Redis that does not answer
  unfoldable pub append :
      (tenant_id : ℕ) → Dict J → Option String → Streams → Option String × Streams
  append tenant_id event_data none streams = (none, streams)
  append tenant_id event_data (some id) streams = (
    some id,
    streams ++ (tenant_id, record { id = id; fields = ("data", dumps event_data) ∷ [] }) ∷ [],
  )

  -- Appends of several events of any tenants, each with the id that Redis gives it.
  unfoldable pub append_all : List (ℕ × (Dict J × String)) → Streams → Streams
  unfolding append
  append_all [] streams = streams
  append_all ((tenant, item) ∷ rest) streams =
      append_all rest (append tenant item.0 (some item.1) streams).1

module _ {J : Type 0} (loads : String → Option (Loaded J)) (text : String → J) where
  -- `none` is the TypeError of an item assignment to a value that is no dict
  abbrev with_id : String → Loaded J → Option (Dict J)
  with_id id (dict d) = some (insert "_stream_id" (text id) d)
  with_id id (other x) = none

  unfoldable pub parse_message : Message → Option (Dict J)
  unfolding lookup insert
  parse_message m =
      let raw = or_empty (lookup "data" m.fields) in
      with_id m.id (elim (loads raw) [ none ↦ dict (("raw", text raw) ∷ []) | some x ↦ x ])

  -- The list comprehension over the messages.
  unfoldable pub parse_all : List Message → Option (List (Dict J))
  unfolding parse_message
  parse_all [] = some []
  parse_all (m ∷ ms) =
      let rest = parse_all ms in
      elim (parse_message m) [
        | none ↦ none
        | some d ↦ elim rest [ none ↦ none | some ds ↦ some (d ∷ ds) ]
      ]

  -- XREVRANGE with a count, which the client refuses below 1
  unfoldable pub read_latest : (tenant_id count : ℕ) → Streams → Option (List (Dict J))
  unfolding messages_of parse_all
  read_latest tenant_id zero streams = none
  read_latest tenant_id (suc n) streams =
      parse_all (take (suc n) (reversed (messages_of tenant_id streams)))

  -- XRANGE; `within` is the test of an id against both ends, which is Redis's
  unfoldable pub read_range :
      (within : String → String → String → Bool)
      → (tenant_id : ℕ) → (start end : String) → Streams
      → Option (List (Dict J))
  unfolding messages_of parse_all
  read_range within tenant_id start end streams =
      parse_all (filter_by (λ (m : Message). within start end m.id) (messages_of tenant_id streams))

module _ {J : Type 0} (dumps : Dict J → String) (loads : String → Option (Loaded J))
    (text : String → J) where
  abbrev Item : Type 0
  Item = ℕ × (Dict J × String)

  abbrev message_of : Item → Message
  message_of item = record { id = item.1.1; fields = ("data", dumps item.1.0) ∷ [] }

  abbrev pub of_tenant : ℕ → Item → Bool
  of_tenant tenant item = item.0 == tenant

  -- The event with the id of its message.
  abbrev pub stamped : Item → Dict J
  stamped item = insert "_stream_id" (text item.1.1) item.1.0

  -- the messages of a tenant, with one more entry at the end
  snoc_messages :
      (tenant : ℕ) (streams : Streams) (entry : ℕ × Message)
      → messages_of tenant (streams ++ entry ∷ [])
        ≡ messages_of tenant streams ++ (if entry.0 == tenant then entry.1 ∷ [] else [])
  unfolding messages_of
  snoc_messages tenant [] entry = ground arith
  snoc_messages tenant (e ∷ streams) entry =
      let rest = snoc_messages tenant streams entry in
      elim (Bool-cases (e.0 == tenant)) [ inl h ↦ rw (h, rest) refl | inr h ↦ rw (h, rest) refl ]

  messages_of-append_all :
      (tenant : ℕ) (items : List Item) (streams : Streams)
      → messages_of tenant (append_all dumps items streams)
        ≡ messages_of tenant streams ++ map message_of (filter_by (of_tenant tenant) items)
  unfolding messages_of append_all
  messages_of-append_all tenant [] streams = sym (append-nil _)
  messages_of-append_all tenant (item ∷ items) streams =
      let step = messages_of-append_all tenant items (streams ++ (item.0, message_of item) ∷ []) in
      rw (step, snoc_messages tenant streams (item.0, message_of item))
        elim (Bool-cases (item.0 == tenant)) [
          | inl e ↦ rw e (
              append_assoc (messages_of tenant streams) (message_of item ∷ [])
                (map message_of (filter_by (of_tenant tenant) items)))
          | inr e ↦ rw (e, append-nil (messages_of tenant streams)) refl
        ]

  -- json.loads reads back what json.dumps wrote for the event.
  abbrev pub ReadsBack : Item → Type 0
  ReadsBack item = loads (dumps item.1.0) ≡ some (dict item.1.0)

  parse_message-of :
      (item : Item)
      → ReadsBack item
      → parse_message loads text (message_of item) ≡ some (stamped item)
  unfolding parse_message lookup
  parse_message-of item h = rw (parse_message, h) refl

  parse_all-map :
      (items : List Item)
      → All ReadsBack items
      → parse_all loads text (map message_of items) ≡ some (map stamped items)
  unfolding parse_all
  parse_all-map [] h = refl
  parse_all-map (item ∷ items) h =
      rw (parse_all, parse_message-of item h.0, parse_all-map items h.1) refl

  -- The answer to a count that is not 0.
  abbrev pub from_one : ℕ → Option (List (Dict J)) → Option (List (Dict J))
  from_one zero answer = none
  from_one (suc n) answer = answer

  -- After any appends to streams in which a tenant had no message, reading its latest messages
  -- gives the newest of its own events, newest first, each with the id of its message, and none
  -- of another tenant, where json.loads reads back what json.dumps wrote for these events. A count
  -- of 0 is an exception.
  pub read_latest-append_all :
      (tenant count : ℕ) (items : List Item) (streams : Streams)
      → All ReadsBack items
      → messages_of tenant streams ≡ []
      → read_latest loads text tenant count (append_all dumps items streams)
        ≡ from_one count
            (some (map stamped (take count (reversed (filter_by (of_tenant tenant) items)))))
  unfolding read_latest
  read_latest-append_all tenant zero items streams reads none_yet = refl
  read_latest-append_all tenant (suc n) items streams reads none_yet =
      let own = filter_by (of_tenant tenant) items in
      let newest = take (suc n) (reversed own) in
      let all = messages_of-append_all tenant items streams in
      let own_reads = All-filter_by ReadsBack (of_tenant tenant) items reads in
      let parsed =
        parse_all-map newest
          (All-take ReadsBack (suc n) (reversed own) (All-reversed ReadsBack own own_reads)) in
      rw
        (
          all,
          none_yet,
          reversed-map message_of own,
          take-map message_of (suc n) (reversed own),
          parsed,
        )
        refl
