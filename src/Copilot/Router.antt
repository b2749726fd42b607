-- ===== src/Copilot/Router.antt =====
-- packages/ai/model_router.py, and what the router and the input guard read of one context filter, the
-- dict that a request brings along. `tenths` gives the float of so many tenths, and `to_int` and
-- `to_float` are int() and float() of a value, with `none` for an exception.
use operational_intelligence.Prelude.{
  ℕ, ◌≡◌, refl, String, Bool, false, Option, some, none, List, [], if◌then◌else◌, str_eq,
}
use operational_intelligence.Prelude.Int.{ℤ, pos}
use operational_intelligence.Prelude.Dict.{Dict, lookup, insert, lookup-insert, lookup-insert_ne}
use operational_intelligence.Guard.{Text, Context, Classification, check_input}

-- A value of a context filter.
pub data Setting (Data : Type 0) : Type 0 where
  text : String → Setting Data
  texts : List String → Setting Data
  classifications : List Classification → Setting Data
  other : Data → Setting Data

module _ {Data : Type 0} where
  abbrev text_of : Option (Setting Data) → Option String
  text_of (some (Setting.text s)) = some s
  text_of v = none

  abbrev texts_of : Option (Setting Data) → Option (List String)
  texts_of (some (Setting.texts ss)) = some ss
  texts_of v = none

  abbrev classifications_of : Option (Setting Data) → List Classification
  classifications_of (some (Setting.classifications cs)) = cs
  classifications_of v = []

  -- ctx.get(key) for the keys of `InputPolicyGuard.check`, each with a value of its type.
  unfoldable pub guard_context : Dict (Setting Data) → Context
  guard_context f = record {
    requested_model = text_of (lookup "requested_model" f);
    tenant_allowed_models = texts_of (lookup "tenant_allowed_models" f);
    requested_tools = elim (texts_of (lookup "requested_tools" f)) [ none ↦ [] | some ts ↦ ts ];
    tenant_allowed_tools = texts_of (lookup "tenant_allowed_tools" f);
    document_classifications = classifications_of (lookup "document_classifications" f);
  }

  -- A key that the override does not touch.
  kept :
      (key : String) (model : Setting Data) (f : Dict (Setting Data))
      → str_eq "model_override" key ≡ false
      → lookup key (insert "model_override" model f) ≡ lookup key f
  kept key model f ne = lookup-insert_ne "model_override" key model f ne

pub record ModelConfig (Data Float : Type 0) : Type 0 where
  pub provider : Setting Data
  pub model_name : Setting Data
  pub max_tokens : ℤ
  pub temperature : Float

-- The tenths of the temperature and the tokens of a task type, `_FALLBACK_DEFAULTS` for another.
abbrev pub task_defaults : String → ℕ × ℕ
task_defaults t =
    if str_eq t "summarization"
    then (3, 2048)
    else (if str_eq t "question_answering"
        then (2, 4096)
        else (if str_eq t "classification"
            then (0, 256)
            else (if str_eq t "extraction"
                then (0, 4096)
                else (if str_eq t "analysis"
                    then (4, 8192)
                    else (if str_eq t "conversation" then (7, 4096) else (3, 4096))))))

-- ctx.get(key, default)
abbrev get_or : {A : Type 0} → Option A → A → A
get_or none default = default
get_or (some x) default = x

module _ {Data Float : Type 0} (tenths : ℕ → Float) (to_int : Setting Data → Option ℤ)
    (to_float : Setting Data → Option Float) where
  -- int(ctx.get(key, default)) and float(ctx.get(key, default)), whose default is a number.
  abbrev pub int_or : Option (Setting Data) → ℕ → Option ℤ
  int_or none default = some (pos default)
  int_or (some v) default = to_int v

  abbrev pub float_or : Option (Setting Data) → ℕ → Option Float
  float_or none default = some (tenths default)
  float_or (some v) default = to_float v

  abbrev pub config_of :
      (provider model : Setting Data) → Option ℤ → Option Float → Option (ModelConfig Data Float)
  config_of provider model (some n) (some t) =
      some (record { provider = provider; model_name = model; max_tokens = n; temperature = t })
  config_of provider model n t = none

  unfoldable pub route :
      (default_provider default_model task_type : String)
      → Dict (Setting Data)
      → Option (ModelConfig Data Float)
  route default_provider default_model task_type f =
      config_of (get_or (lookup "provider_override" f) (text default_provider))
        (get_or (lookup "model_override" f) (text default_model))
        (int_or (lookup "max_tokens_override" f) (task_defaults task_type).1)
        (float_or (lookup "temperature_override" f) (task_defaults task_type).0)

  abbrev pub with_model :
      Setting Data → Option (ModelConfig Data Float) → Option (ModelConfig Data Float)
  with_model model none = none
  with_model model (some c) = some (record c { model_name = model })

  config_of-model :
      (provider model new : Setting Data) (n : Option ℤ) (t : Option Float)
      → config_of provider new n t ≡ with_model new (config_of provider model n t)
  config_of-model provider model new none t = refl
  config_of-model provider model new (some n) none = refl
  config_of-model provider model new (some n) (some t) = refl

  module _ (search : String → Text → Bool) (lower : Text → Text) where
    -- Whoever writes the context filter of a query chooses its model: with "model_override" in the
    -- filter the router returns that model, and the input guard answers as it does without it, so
    -- that no list of allowed models speaks about the model that is called.
    pub route-check_input :
        (default_provider default_model task_type : String) (query : Text) (model : Setting Data)
        (f : Dict (Setting Data))
        → (route default_provider default_model task_type (insert "model_override" model f)
            ≡ with_model model (route default_provider default_model task_type f))
          × (check_input search lower query (guard_context (insert "model_override" model f))
              ≡ check_input search lower query (guard_context f))
    unfolding route guard_context
    route-check_input default_provider default_model task_type query model f = (
      rw
          (
            kept "provider_override" model f refl,
            kept "max_tokens_override" model f refl,
            kept "temperature_override" model f refl,
            lookup-insert "model_override" "model_override" model f,
          )
          (config_of-model (get_or (lookup "provider_override" f) (text default_provider))
            (get_or (lookup "model_override" f) (text default_model)) model
            (int_or (lookup "max_tokens_override" f) (task_defaults task_type).1)
            (float_or (lookup "temperature_override" f) (task_defaults task_type).0)),
      rw
          (
            kept "requested_model" model f refl,
            kept "tenant_allowed_models" model f refl,
            kept "requested_tools" model f refl,
            kept "tenant_allowed_tools" model f refl,
            kept "document_classifications" model f refl,
          )
          refl,
    )
