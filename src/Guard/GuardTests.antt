-- ===== src/Guard/GuardTests.antt =====
-- A query with a denied tool and a secret document, and a response with two claims.
use operational_intelligence.Prelude.{◌≡◌, refl, String, Bool, false, some, none, [], ◌∷◌, codes}
use operational_intelligence.Guard.{Text, Context, contains, check_input, check_output}
use operational_intelligence.Guard.Checks.{check_output-weight}

-- A pattern that is found where its text is.
abbrev plain_search : String → Text → Bool
plain_search pattern text = contains (codes pattern) text

abbrev same : Text → Text
same text = text

abbrev ctx : Context
ctx = record {
  requested_model = some "large";
  tenant_allowed_models = some ("large" ∷ []);
  requested_tools = "sql" ∷ "files" ∷ [];
  tenant_allowed_tools = some ("sql" ∷ []);
  document_classifications = record { document_id = none; sensitivity = some "SECRET" } ∷ [];
}

check_output-weight_example :
    ((check_output plain_search same (codes "I promise, I guarantee")).risk_score ≡ 30)
    × ((check_output plain_search same (codes "I promise, I guarantee")).allowed ≡ false)
check_output-weight_example = check_output-weight plain_search same (codes "I promise, I guarantee")

denied_tool : (check_input plain_search same (codes "hi") ctx).risk_score ≡ 70
unfolding check_input
denied_tool = refl
