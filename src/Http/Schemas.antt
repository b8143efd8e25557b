-- ===== src/Http/Schemas.antt =====
-- The schemas of src/domains/job/job.validator.ts as data: what each field may hold.
use hyperscale_job_scheduler.Base.{
  ℕ, String, Bool, true, false, Option, none, some, List, [], ◌∷◌, ◌≤◌,
}

-- Joi.string() with valid, min, max and isoDate.
pub record TextRule : Type 0 where
  pub valid : Option (List String)
  pub least : Option ℕ
  pub most : Option ℕ
  pub iso_date : Bool

-- A text, a whole number with min and max, or an object.
pub data Rule : Type 0 where
  text_rule : TextRule → Rule
  whole_number : ℕ → Option ℕ → Rule
  any_object : Rule

pub data Presence : Type 0 where
  required optional : Presence
  by_default : ℕ → Presence

pub record Field : Type 0 where
  pub name : String
  pub rule : Rule
  pub presence : Presence

pub record Schema : Type 0 where
  pub fields : List Field

abbrev any_text : TextRule
any_text = record { valid = none; least = none; most = none; iso_date = false }

abbrev job_types : List String
job_types =
    "RESERVATION_EXPIRY" ∷ "PAYOUT_BATCH" ∷ "ORDER_ABANDONMENT" ∷ "LOW_STOCK_ALERT"
    ∷ "SCHEDULED_REPORT" ∷ []

abbrev one_of : List String → Rule
one_of texts = text_rule (record any_text { valid = some texts })

abbrev pub create_job_schema : Schema
create_job_schema = record {
  fields =
      record { name = "jobType"; rule = one_of job_types; presence = required }
      ∷ record {
        name = "tenantId";
        rule = text_rule (record any_text { least = some 1 });
        presence = required;
      }
      ∷ record {
        name = "scheduledAt";
        rule = text_rule (record any_text { iso_date = true });
        presence = required;
      }
      ∷ record { name = "cronExpression"; rule = text_rule any_text; presence = optional }
      ∷ record { name = "payload"; rule = any_object; presence = required }
      ∷ [];
}

abbrev pub cancel_job_schema : Schema
cancel_job_schema = record {
  fields =
      record {
        name = "reason";
        rule = text_rule (record any_text { most = some 500 });
        presence = optional;
      }
      ∷ [];
}

abbrev pub page_field : Field
page_field = record { name = "page"; rule = whole_number 1 none; presence = by_default 1 }

abbrev pub limit_field : Field
limit_field = record { name = "limit"; rule = whole_number 1 (some 100); presence = by_default 20 }

abbrev pub list_jobs_schema : Schema
list_jobs_schema = record {
  fields =
      record {
        name = "status";
        rule = one_of ("pending" ∷ "running" ∷ "completed" ∷ "failed" ∷ "dead" ∷ []);
        presence = optional;
      }
      ∷ record { name = "jobType"; rule = one_of job_types; presence = optional }
      ∷ page_field
      ∷ limit_field
      ∷ [];
}

-- A schema asks for this field.
pub data Asks (f : Field) : List Field → Type 0 where
  first : {rest : List Field} → Asks f (f ∷ rest)
  later : {g : Field} {rest : List Field} → Asks f rest → Asks f (g ∷ rest)

-- A number fits the bounds of a field.
abbrev pub IsWithin : ℕ → Option ℕ → ℕ → Type 0
IsWithin least none n = least ≤ n
IsWithin least (some most) n = (least ≤ n) × (n ≤ most)
