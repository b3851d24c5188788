-- ===== src/Examples/Cleaning.antt =====
-- safety.py on a card number and on a conversation of two turns. Here the pattern of a kind of text
-- finds just one text, and Python's other operations on texts are the identity or constant.
use ecoroute_ht.Base.{
  ℕ, String, none, if◌then◌else◌, ◌≡◌, ◌≢◌, refl, true, false, List, [], ◌∷◌, ◌++◌, some, Member,
  any, all, length, arith,
}
use Prim.Native.String.{count}
use text.Mathlib.Text.{starts_with}
use ecoroute_ht.Numbers.{millionths}
use ecoroute_ht.Safety.Luhn.{luhn_valid, checksum, weigh, all_same, luhn_valid-one_digit}
use ecoroute_ht.Safety.Redact.{Pattern, Regex}
use ecoroute_ht.Safety.Normalize.{
  Role, Content, ChatMessage, Request, Texts, normalize_request, is_multimodal,
}
use ecoroute_ht.Safety.Cover.{IsClean, cacheable-IsClean}
use ecoroute_ht.Routing.Caching.{exact_cache_eligible}
use ecoroute_ht.Examples.Selecting.{policy, classification}

abbrev two : ℕ
two = 2

abbrev three : ℕ
three = 3

two≢three : two ≢ three
two≢three e = omega arith

abbrev card_start : List ℕ
card_start = 4 ∷ 2 ∷ 4 ∷ 2 ∷ 4 ∷ 2 ∷ 4 ∷ 2 ∷ 4 ∷ 2 ∷ 4 ∷ 2 ∷ 4 ∷ 2 ∷ 4 ∷ []

luhn_valid-one_digit_example : luhn_valid (card_start ++ three ∷ []) ≡ false
unfolding luhn_valid checksum weigh all_same all length
luhn_valid-one_digit_example =
    luhn_valid-one_digit card_start [] two three (omega arith) (omega arith) two≢three refl

abbrev sample : Pattern → String
sample Pattern.email = "jo@example.com"
sample Pattern.phone = "+1 202 555 0123"
sample Pattern.card = "4242424242424242"
sample Pattern.api_key = "sk-0123456789abcdef"
sample Pattern.secret_assignment = "password=hunter2"
sample Pattern.order_id = "order A-1234"
sample Pattern.address = "1 Main Street"
sample Pattern.personal_context = "my order"

abbrev regex : Regex
regex = record {
  search = λ p s. starts_with s (sample p);
  sub = λ p r s. r;
  matches = λ p s. if starts_with s (sample p) then s ∷ [] else [];
  replace = λ old new s. new;
  digits = λ s. card_start ++ two ∷ [];
}

abbrev texts : Texts
texts = record {
  regex = regex;
  lines = λ ls. "";
  normalize = λ s. s;
  count = count;
  first_500 = λ s. s;
  context_hash = λ ms. "hash";
  has_chinese = λ s. false;
  has_arabic = λ s. false;
}

abbrev request : Request
request = record {
  messages =
      record { role = Role.system; content = Content.plain "answer briefly" }
      ∷ record { role = Role.user; content = Content.plain "what is the return window" }
      ∷ [];
  has_tools = false;
  zero_temperature = true;
  tool_schema_hash = none;
  response_format_hash = none;
}

-- a message that starts with a valid card number is not reusable
with_card :
    exact_cache_eligible millionths
      (normalize_request texts (record request {
        messages = record { role = Role.user; content = Content.plain "4242424242424242" } ∷ [];
      }))
      policy
      (some classification)
    ≡ false
unfolding exact_cache_eligible normalize_request any is_multimodal luhn_valid all weigh
with_card = refl

cacheable-IsClean_example :
    (request.has_tools ≡ false)
    × (request.zero_temperature ≡ true)
    × ((m : ChatMessage) → Member m request.messages → IsClean texts m)
unfolding exact_cache_eligible normalize_request any is_multimodal
cacheable-IsClean_example =
    cacheable-IsClean texts millionths policy (some classification) request refl
