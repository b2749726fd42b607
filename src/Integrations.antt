-- ===== src/Integrations.antt =====
-- packages/integrations: documents and messages of other systems, and JSON values.
pub mod Edi
pub mod Webhook
pub mod Outbound
pub mod IntegrationsTests
use operational_intelligence.Prelude.{
  ℕ, String, Bool, Option, some, none, List, [], ◌∷◌, ◌++◌, if◌then◌else◌, str_eq,
}

mutual
  pub data Json : Type 0 where
    null : Json
    flag : Bool → Json
    number : ℕ → Json
    text : String → Json
    array : Items → Json
    object : Fields → Json

  pub data Items : Type 0 where
    no_items : Items
    item : Json → Items → Items

  pub data Fields : Type 0 where
    no_fields : Fields
    field : String → Json → Fields → Fields

abbrev pub items : List Json → Items
items [] = no_items
items (x ∷ xs) = item x (items xs)

abbrev pub fields : List (String × Json) → Fields
fields [] = no_fields
fields ((key, x) ∷ xs) = field key x (fields xs)

-- An object of these keys, and a list of these values.
abbrev pub obj : List (String × Json) → Json
obj xs = Json.object (fields xs)

abbrev pub arr : List Json → Json
arr xs = Json.array (items xs)

-- d.get(key), None for no such key
abbrev pub get_field : String → Fields → Json
get_field key no_fields = Json.null
get_field key (field k x rest) = let later = get_field key rest in if str_eq k key then x else later

abbrev pub list_of : Items → List Json
list_of no_items = []
list_of (item x xs) = x ∷ list_of xs
