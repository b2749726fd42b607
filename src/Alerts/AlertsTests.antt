-- ===== src/Alerts/AlertsTests.antt =====
-- The life of one alert, at a concrete table.
use operational_intelligence.Prelude.{ℕ, String, none, [], ◌∷◌}
use operational_intelligence.Alerts.{Alert, Table, NewAlert, new_row}

-- A digest that keeps the entity alone.
abbrev digest : ℕ → ℕ → String → ℕ → String
digest tenant rule entity window = entity

abbrev pump : NewAlert
pump = record {
  tenant_id = 1;
  rule_id = 5;
  entity_type = "pump";
  entity_id = "p1";
  severity = "high";
  message = "too hot";
  evaluation_window = none;
}

abbrev elsewhere : Alert
elsewhere = new_row digest 3 (record pump { tenant_id = 2 })

abbrev before : Table
before = elsewhere ∷ []

abbrev created : Alert
created = new_row digest 7 pump

abbrev after : Table
after = elsewhere ∷ created ∷ []
