-- ===== src/Safety/Redact.antt =====
-- safety.py, `redact`. The regular expressions are those of Python's `re`, which the repository only
-- calls: a pattern's search, substitution and matches are parameters, and so is str.replace.
use ecoroute_ht.Base.{ℕ, String, Bool, true, false, ◌||◌, List, [], ◌∷◌, if◌then◌else◌}
use ecoroute_ht.Safety.Luhn.{luhn_valid}

pub data Pattern : Type 0 where
  email phone card api_key secret_assignment order_id address personal_context : Pattern

pub record Regex : Type 0 where
  pub search : Pattern → String → Bool
  pub sub : Pattern → String → String → String  -- pattern.sub(replacement, text)
  pub matches : Pattern → String → List String  -- the groups of finditer
  pub replace : String → String → String → String  -- text.replace(old, new)
  pub digits : String → List ℕ  -- the digits of the text

pub record Flags : Type 0 where
  pub pii : Bool
  pub secrets : Bool
  pub personalized : Bool
  pub uncertain : Bool

abbrev pub no_flags : Flags
no_flags = record { pii = false; secrets = false; personalized = false; uncertain = false }

-- pii = pii or turn_pii, and so on
abbrev pub join : Flags → Flags → Flags
join f g = record {
  pii = f.pii || g.pii;
  secrets = f.secrets || g.secrets;
  personalized = f.personalized || g.personalized;
  uncertain = f.uncertain || g.uncertain;
}

module _ (r : Regex) where
  open r use {search, sub, matches, replace, digits}

  redact_email : String × Flags → String × Flags
  redact_email (text, f) =
      if search Pattern.email text
      then (sub Pattern.email "[EMAIL]" text, record f { pii = true })
      else (text, f)

  redact_phone : String × Flags → String × Flags
  redact_phone (text, f) =
      if search Pattern.phone text
      then (sub Pattern.phone "[PHONE]" text, record f { pii = true })
      else (text, f)

  -- the loop over the matches found before it
  redact_cards : List String → String × Flags → String × Flags
  redact_cards [] (text, f) = (text, f)
  redact_cards (group ∷ groups) (text, f) = redact_cards groups (
      if luhn_valid (digits group)
      then (replace group "[CARD]" text, record f { pii = true })
      else (text, record f { uncertain = true }))

  redact_card : String × Flags → String × Flags
  unfolding redact_cards
  redact_card (text, f) = redact_cards (matches Pattern.card text) (text, f)

  redact_secrets : String × Flags → String × Flags
  redact_secrets (text, f) =
      if search Pattern.api_key text || search Pattern.secret_assignment text
      then (
        sub Pattern.secret_assignment "[SECRET]" (sub Pattern.api_key "[API_KEY]" text),
        record f { secrets = true },
      )
      else (text, f)

  redact_address : String × Flags → String × Flags
  redact_address (text, f) =
      if search Pattern.address text
      then (sub Pattern.address "[ADDRESS]" text, record f { pii = true; personalized = true })
      else (text, f)

  redact_order : String × Flags → String × Flags
  redact_order (text, f) =
      if search Pattern.order_id text
      then (sub Pattern.order_id "[ORDER_ID]" text, record f { personalized = true })
      else (text, f)

  note_context : String × Flags → String × Flags
  note_context (text, f) =
      if search Pattern.personal_context text
      then (text, record f { personalized = true })
      else (text, f)

  unfoldable pub redact : String → String × Flags
  unfolding redact_email redact_phone redact_card redact_secrets redact_address redact_order
      note_context
  redact text = note_context (
      redact_order (
        redact_address
          (redact_secrets (redact_card (redact_phone (redact_email (text, no_flags)))))))
