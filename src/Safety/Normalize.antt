-- ===== src/Safety/Normalize.antt =====
-- safety.py, `normalize_request`, and `ChatMessage.text` and `is_multimodal` of api/schemas.py.
-- Unicode normalisation with the collapse of white space, the hashes and the two tests of the script
-- of a text are Python's: parameters.
use ecoroute_ht.Base.{
  ℕ, zero, suc, ◌+◌, ◌/◌, String, Bool, true, false, not, List, [], ◌∷◌, map, Option, none, some,
  is_some, any, length, filter, str_eq, ◌==◌, max, if◌then◌else◌,
}
use ecoroute_ht.Schemas.{NormalizedRequestFeatures}
use ecoroute_ht.Safety.Redact.{Regex, Flags, join, redact}

pub data Role : Type 0 where
  system developer user assistant tool : Role

-- A content part by its `type` and `text` fields; a missing text is "".
pub record Part : Type 0 where
  pub kind : Option String
  pub text : String

pub data Content : Type 0 where
  plain : String → Content
  parts : List Part → Content
  absent : Content

pub record ChatMessage : Type 0 where
  pub role : Role
  pub content : Content

pub record Request : Type 0 where
  pub messages : List ChatMessage
  pub has_tools : Bool
  pub zero_temperature : Bool  -- request.temperature in {None, 0}
  pub tool_schema_hash : Option String
  pub response_format_hash : Option String

-- Python's texts.
pub record Texts : Type 0 where
  pub regex : Regex
  pub lines : List String → String  -- "\n".join
  pub normalize : String → String  -- NFKC, strip, and white space collapsed
  pub count : String → ℕ  -- len
  pub first_500 : String → String
  pub context_hash : List (Role × String) → String  -- stable_hash(context_messages)
  pub has_chinese : String → Bool
  pub has_arabic : String → Bool

abbrev pub is_user : Role → Bool
is_user Role.user = true
is_user _ = false

abbrev is_assistant : Role → Bool
is_assistant Role.assistant = true
is_assistant _ = false

is_text_part : Part → Bool
is_text_part p = elim p.kind [ none ↦ false | some k ↦ str_eq k "text" ]

unfoldable pub is_multimodal : ChatMessage → Bool
unfolding is_text_part
is_multimodal m = elim m.content [
  | plain _ ↦ false
  | parts ps ↦ any (λ p. not (is_text_part p)) ps
  | absent ↦ false
]

-- index == final_user_index
unfoldable pub is_final : Option ℕ → ℕ → Bool
is_final none index = false
is_final (some i) index = index == i

module _ (t : Texts) where
  open t use {regex, lines, normalize, count, first_500, context_hash, has_chinese, has_arabic}

  unfoldable pub message_text : ChatMessage → String
  unfolding is_text_part
  message_text m = elim m.content [
    | plain s ↦ s
    | parts ps ↦ lines (map (λ p. p.text) (filter is_text_part ps))
    | absent ↦ ""
  ]

  -- the text of a message in `normalized_messages`
  unfoldable pub turn : ChatMessage → String
  unfolding message_text
  turn m = normalize (message_text m)

  -- user_indices[-1], for messages that stand from `index` on
  unfoldable pub last_user : ℕ → List ChatMessage → Option ℕ
  last_user index [] = none
  last_user index (m ∷ ms) =
      let later = last_user (suc index) ms in
      if is_some later then later else if is_user m.role then some index else none

  unfoldable pub message_at : ℕ → List ChatMessage → String
  unfolding turn
  message_at i [] = ""
  message_at zero (m ∷ ms) = turn m
  message_at (suc i) (m ∷ ms) = message_at i ms

  -- the loop that joins the flags of every turn but the final user turn
  unfoldable pub other_turns : Option ℕ → ℕ → List ChatMessage → Flags → Flags
  unfolding turn redact is_final
  other_turns final index [] f = f
  other_turns final index (m ∷ ms) f =
      other_turns final (suc index) ms
        (if is_final final index then f else join f (redact regex (turn m)).1)

  context_messages : Option ℕ → ℕ → List ChatMessage → List (Role × String)
  context_messages final index [] = []
  context_messages final index (m ∷ ms) =
      let rest = context_messages final (suc index) ms in
      if is_final final index then rest else (m.role, turn m) ∷ rest

  total_count : List ChatMessage → ℕ
  total_count [] = 0
  total_count (m ∷ ms) = count (turn m) + total_count ms

  unfoldable pub final_text : Option ℕ → List ChatMessage → String
  unfolding message_at
  final_text none ms = ""
  final_text (some i) ms = message_at i ms

  unfoldable pub request_flags : Request → Flags
  unfolding other_turns last_user final_text
  request_flags request =
      let final = last_user 0 request.messages in
      let text = final_text final request.messages in
      other_turns final 0 request.messages (redact regex text).1

  unfoldable pub normalize_request : Request → NormalizedRequestFeatures
  unfolding request_flags final_text context_messages total_count
  normalize_request request =
      let final = last_user 0 request.messages in
      let text = final_text final request.messages in
      let flags = request_flags request in
      record {
        normalized_text = text;
        assistant_turn_count = length (filter (λ m. is_assistant m.role) request.messages);
        input_token_estimate = max 1 ((total_count request.messages + 3) / 4);
        has_tools = request.has_tools;
        has_multimodal = any is_multimodal request.messages;
        contains_pii = flags.pii;
        contains_secrets = flags.secrets;
        is_personalized = flags.personalized;
        deterministic = request.zero_temperature;
        requested_language =
            if has_chinese text then "zh" else if has_arabic text then "ar" else "en";
        detection_uncertain = flags.uncertain;
        system_prompt_hash = context_hash (context_messages final 0 request.messages);
        tool_schema_hash = request.tool_schema_hash;
        response_format_hash = request.response_format_hash;
      }
